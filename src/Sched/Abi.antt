-- ===== src/Sched/Abi.antt =====
-- What passes between a process and the scheduler's system calls, kernel/sched/core.c: pointers, the
-- numbers of the policies, and `struct sched_attr`. A pointer to user memory is null, or an access
-- faults, or it points to a value. The numbers of the policies, the bit SCHED_RESET_ON_FORK and the
-- sizes of `struct sched_attr` are those of the kernel's headers; what `copy_struct_from_user` makes
-- of user memory is part of that memory here.
use cros_rt.Base.{ℕ, ◌-◌, ◌/◌, ◌%◌, ◌^◌, Bool, true, false, Option, none, some, ◌==◌, if◌then◌else◌}
use cros_rt.Base.Int.{ℤ, pos, negsuc, ltb_ℤ}
use cros_rt.Sched.Task.{Policy, normal, fifo, rr, batch, idle, deadline}
use cros_rt.Sched.Setscheduler.{PolicyArg, setparam, invalid, known, Flags}

-- A pointer that a system call gets.
pub data Ptr (A : Type 0) : Type 0 where
  null : Ptr A
  unmapped : Ptr A
  mapped : A → Ptr A

abbrev pub policy_number : Policy → ℕ
policy_number normal = 0
policy_number fifo = 1
policy_number rr = 2
policy_number batch = 3
policy_number idle = 5
policy_number deadline = 6

-- The policy of a number, where `valid_policy` holds of it.
unfoldable pub policy_of : ℕ → PolicyArg
policy_of n =
    if n == 0
    then known normal
    else if n == 1
    then known fifo
    else if n == 2
    then known rr
    else if n == 3
    then known batch
    else if n == 5
    then known idle
    else if n == 6
    then known deadline
    else invalid

-- SCHED_RESET_ON_FORK
abbrev pub reset_bit : ℕ
reset_bit = 2 ^ 30

-- How `_sched_setscheduler` reads its argument `policy`, where `none` is SETPARAM_POLICY.
unfoldable pub policy_arg : Option ℕ → PolicyArg × Bool
unfolding policy_of
policy_arg none = (setparam, false)
policy_arg (some n) =
    if n / reset_bit % 2 == 1 then (policy_of (n - reset_bit), true) else (policy_of n, false)

-- An `int` that is stored in a `__u32`.
abbrev pub to_u32 : ℤ → ℕ
to_u32 (pos n) = n % 2 ^ 32
to_u32 (negsuc n) = 2 ^ 32 - 1 - n % 2 ^ 32

-- `struct sched_attr`, its flag SCHED_FLAG_KEEP_POLICY apart from the others.
pub record RawAttr (D : Type 0) : Type 0 where
  pub sched_policy : ℕ
  pub keep_policy : Bool
  pub sched_flags : Flags
  pub sched_nice : ℤ
  pub sched_priority : ℕ
  pub sched_dl : D

abbrev pub no_flags : Flags
no_flags = record {
  reset_on_fork = false;
  keep_params = false;
  util_clamp = false;
  sugov = false;
  unknown = false;
}

-- What a copy of the structure ends with: EFAULT, EINVAL, E2BIG, or the structure.
pub data Copied (D : Type 0) : Type 0 where
  no_access : Copied D
  bad_value : Copied D
  too_big : Copied D
  good : RawAttr D → Copied D

-- A `struct sched_attr` in user memory: its field `size`, and what `copy_struct_from_user` makes
-- of it for a size.
pub record UserAttr (D : Type 0) : Type 0 where
  pub size : ℕ
  pub copy : ℕ → Copied D

-- SCHED_ATTR_SIZE_VER0, SCHED_ATTR_SIZE_VER1 (which is the kernel's size) and PAGE_SIZE
abbrev pub attr_size_ver0 : ℕ
attr_size_ver0 = 48

abbrev pub attr_size_ver1 : ℕ
attr_size_ver1 = 56

abbrev pub page_size : ℕ
page_size = 4096

-- `clamp(nice, MIN_NICE, MAX_NICE)`
unfoldable pub clamp_nice : ℤ → ℤ
clamp_nice nice =
    if ltb_ℤ nice (negsuc 19) then negsuc 19 else if ltb_ℤ (pos 19) nice then pos 19 else nice
