-- ===== src/Sched/Calls/Read.antt =====
-- The scheduler's system calls that read, kernel/sched/core.c: sched_getscheduler, sched_getparam,
-- sched_getattr with `sched_attr_copy_to_user`, sched_get_priority_max and sched_get_priority_min.
-- `sec` is what `security_task_getscheduler` returns for a task, 0 if it agrees.
use cros_rt.Base.{false, ℕ, ◌+◌, ◌-◌, not, ◌||◌, none, some, ltb, leb, ◌==◌, if◌then◌else◌}
use cros_rt.Base.Int.{ℤ, pos, negsuc}
use cros_rt.Sched.Task.{Task, rt_policy, max_rt_prio}
use cros_rt.Sched.Setscheduler.{Ret, success, einval, esrch, efault, code, PolicyArg, known}
use cros_rt.Sched.Abi.{
  Ptr, null, mapped, policy_number, policy_of, reset_bit, RawAttr, no_flags, attr_size_ver0,
  attr_size_ver1, page_size,
}
use cros_rt.Sched.Calls.{Threads, find_process_by_pid, get_params}

-- What a call returns: an error, or a number that is not negative.
pub data Reading : Type 0 where
  refused : Ret → Reading
  value : ℕ → Reading

-- `copy_to_user`, of one number
write_param : Ptr ℤ → ℕ → Ret × Ptr ℤ
write_param (mapped old) priority = (success, mapped (pos priority))
write_param other priority = (efault, other)

-- The structure goes to user memory with the lesser of the two sizes in its field `size`.
unfoldable pub sched_attr_copy_to_user :
    {D : Type 0} → Ptr (ℕ × RawAttr D) → RawAttr D → ℕ → Ret × Ptr (ℕ × RawAttr D)
sched_attr_copy_to_user (mapped old) attr usize =
    (success, mapped (if leb usize attr_size_ver1 then usize else attr_size_ver1, attr))
sched_attr_copy_to_user other attr usize = (efault, other)

-- `p->policy | (p->sched_reset_on_fork ? SCHED_RESET_ON_FORK : 0)`
abbrev pub policy_word : {D : Type 0} → Task D → ℕ
policy_word p = policy_number p.policy + (if p.sched_reset_on_fork then reset_bit else 0)

module _ {D : Type 0} (getparam_dl : Task D → RawAttr D → RawAttr D) (zero : D) where
  -- The structure that sched_getattr fills for a task, without the utilisation clamps.
  unfoldable pub kernel_attr : Task D → RawAttr D
  unfolding get_params
  kernel_attr p =
      let attr = get_params getparam_dl p (record {
        sched_policy = policy_number p.policy;
        keep_policy = false;
        sched_flags = record no_flags { reset_on_fork = p.sched_reset_on_fork };
        sched_nice = pos 0;
        sched_priority = 0;
        sched_dl = zero;
      }) in
      record attr { sched_flags = record attr.sched_flags { sugov = false; unknown = false } }

module _ {D : Type 0} (sec : Task D → ℕ) where
  -- The system call sched_getscheduler
  unfoldable pub sys_sched_getscheduler : ℤ → Threads D → Reading
  unfolding find_process_by_pid
  sys_sched_getscheduler (negsuc n) s = refused einval
  sys_sched_getscheduler (pos pid) s = elim (find_process_by_pid s pid) [
    | none ↦ refused esrch
    | some p ↦ if sec p == 0 then value (policy_word p) else refused (code (sec p))
  ]

  -- The system call sched_getparam: what it returns, and the memory that its pointer leads to.
  unfoldable pub sys_sched_getparam : ℤ → Ptr ℤ → Threads D → Ret × Ptr ℤ
  unfolding find_process_by_pid write_param
  sys_sched_getparam (negsuc n) param s = (einval, param)
  sys_sched_getparam (pos pid) null s = (einval, null)
  sys_sched_getparam (pos pid) param s = elim (find_process_by_pid s pid) [
    | none ↦ (esrch, param)
    | some p ↦
        if sec p == 0
        then write_param param (if rt_policy p.policy then p.rt_priority else 0)
        else (code (sec p), param)
  ]

  module _ (getparam_dl : Task D → RawAttr D → RawAttr D) (zero : D) where
    -- The system call sched_getattr. What is written is the size, and the structure; the memory
    -- holds all fields of it that are modelled whenever it holds the first version of it.
    unfoldable pub sys_sched_getattr :
        ℤ → Ptr (ℕ × RawAttr D) → ℕ → ℕ → Threads D → Ret × Ptr (ℕ × RawAttr D)
    unfolding find_process_by_pid kernel_attr sched_attr_copy_to_user
    sys_sched_getattr (negsuc n) uattr usize flags s = (einval, uattr)
    sys_sched_getattr (pos pid) null usize flags s = (einval, null)
    sys_sched_getattr (pos pid) uattr usize flags s =
        if ltb page_size usize || ltb usize attr_size_ver0 || not (flags == 0)
        then (einval, uattr)
        else elim (find_process_by_pid s pid) [
          | none ↦ (esrch, uattr)
          | some p ↦
              if sec p == 0
              then sched_attr_copy_to_user uattr (kernel_attr getparam_dl zero p) usize
              else (code (sec p), uattr)
        ]

-- The switches of the two calls, on the policy that the number stands for.
unfoldable pub priority_max : PolicyArg → Reading
priority_max (known policy) = value (if rt_policy policy then max_rt_prio - 1 else 0)
priority_max _ = refused einval

unfoldable pub priority_min : PolicyArg → Reading
priority_min (known policy) = value (if rt_policy policy then 1 else 0)
priority_min _ = refused einval

-- The system call sched_get_priority_max
unfoldable pub sys_sched_get_priority_max : ℤ → Reading
unfolding priority_max policy_of
sys_sched_get_priority_max (negsuc n) = refused einval
sys_sched_get_priority_max (pos n) = priority_max (policy_of n)

-- The system call sched_get_priority_min
unfoldable pub sys_sched_get_priority_min : ℤ → Reading
unfolding priority_min policy_of
sys_sched_get_priority_min (negsuc n) = refused einval
sys_sched_get_priority_min (pos n) = priority_min (policy_of n)
