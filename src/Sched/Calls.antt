-- ===== src/Sched/Calls.antt =====
-- The scheduler's system calls that set a task's policy and priority, kernel/sched/core.c:
-- `find_process_by_pid`, `do_sched_setscheduler`, `sched_copy_attr`, `get_params` and the system
-- calls sched_setscheduler, sched_setparam and sched_setattr; and `sched_set_fifo`,
-- `sched_set_fifo_low` and `sched_set_normal`, by which the kernel sets up its own threads.
-- `__getparam_dl` is an argument.
pub mod Read
pub mod Kept
pub mod Written
pub mod ReadBack
pub mod Granted
pub mod Copies
pub mod Back
pub mod Own
use cros_rt.Base.{
  ℕ, suc, ◌-◌, ◌+◌, ◌/◌, ◌%◌, ◌^◌, Bool, true, false, not, ◌&&◌, ◌||◌, Option, none, some, ltb,
  ◌==◌, if◌then◌else◌,
}
use cros_rt.Base.Int.{ℤ, pos, negsuc, ltb_ℤ}
use cros_rt.Sched.Task.{Policy, normal, fifo, rr, batch, idle, deadline, Task, dl_policy, rt_policy}
use cros_rt.Sched.Setscheduler.{
  PolicyArg, setparam, invalid, known, Flags, Attr, Ret, success, einval, esrch, efault, e2big,
  Answers, task_nice, sched_setscheduler, sched_setscheduler_attr, sched_setscheduler_nocheck,
}
use cros_rt.Sched.Abi.{
  Copied, Ptr, RawAttr, UserAttr, attr_size_ver0, attr_size_ver1, bad_value, clamp_nice, good,
  mapped, no_access, no_flags, null, page_size, policy_arg, policy_of, to_u32, too_big, unmapped,
}

-- The tasks by number, and the number of the task that makes the call.
pub record Threads (D : Type 0) : Type 0 where
  pub thread : ℕ → Option (Task D)
  pub current : ℕ

unfoldable pub is_error : Ret → Bool
is_error success = false
is_error _ = true

-- A system call that sets something, and its arguments.
pub data Call (D : Type 0) : Type 0 where
  setscheduler : ℤ → ℤ → Ptr ℤ → Call D
  setparam_only : ℤ → Ptr ℤ → Call D
  setattr : ℤ → Ptr (UserAttr D) → ℕ → Call D

module _ {D : Type 0} where
  abbrev pub target : Threads D → ℕ → ℕ
  target s pid = if pid == 0 then s.current else pid

  unfoldable pub find_process_by_pid : Threads D → ℕ → Option (Task D)
  find_process_by_pid s pid = s.thread (target s pid)

  -- The tasks after a call that changed one of them.
  unfoldable pub put_thread : Threads D → ℕ → Task D → Threads D
  put_thread s i p = record s { thread = λ j. if j == i then some p else s.thread j }

  -- What a call returns, and the tasks with the task of a number as it left it.
  abbrev pub with_thread : Threads D → ℕ → Ret × Task D → Ret × Threads D
  with_thread s pid r = (r.0, put_thread s (target s pid) r.1)

  unfoldable pub do_sched_setscheduler :
      Answers D → ℤ → Option ℕ → Ptr ℤ → Threads D → Ret × Threads D
  unfolding find_process_by_pid put_thread policy_arg sched_setscheduler
  do_sched_setscheduler a (negsuc n) policy param s = (einval, s)
  do_sched_setscheduler a (pos pid) policy null s = (einval, s)
  do_sched_setscheduler a (pos pid) policy unmapped s = (efault, s)
  do_sched_setscheduler a (pos pid) policy (mapped priority) s = elim (find_process_by_pid s pid) [
    | none ↦ (esrch, s)
    | some p ↦
        let (arg, reset) = policy_arg policy in
        with_thread s pid (sched_setscheduler a arg reset (to_u32 priority) p)
  ]

  -- The system call sched_setscheduler
  unfoldable pub sys_sched_setscheduler : Answers D → ℤ → ℤ → Ptr ℤ → Threads D → Ret × Threads D
  unfolding do_sched_setscheduler
  sys_sched_setscheduler a pid (negsuc n) param s = (einval, s)
  sys_sched_setscheduler a pid (pos policy) param s =
      do_sched_setscheduler a pid (some policy) param s

  -- The system call sched_setparam
  unfoldable pub sys_sched_setparam : Answers D → ℤ → Ptr ℤ → Threads D → Ret × Threads D
  unfolding do_sched_setscheduler
  sys_sched_setparam a pid param s = do_sched_setscheduler a pid none param s

  -- Where it ends with `too_big`, the kernel's size has been written to the field `size`.
  unfoldable pub sched_copy_attr : Ptr (UserAttr D) → Copied D
  unfolding clamp_nice
  sched_copy_attr null = no_access
  sched_copy_attr unmapped = no_access
  sched_copy_attr (mapped u) =
      let size = if u.size == 0 then attr_size_ver0 else u.size in
      if ltb size attr_size_ver0 || ltb page_size size then too_big else elim (u.copy size) [
        | no_access ↦ no_access
        | bad_value ↦ bad_value
        | too_big ↦ too_big
        | good attr ↦
            if attr.sched_flags.util_clamp && ltb size attr_size_ver1
            then bad_value
            else good (record attr { sched_nice = clamp_nice attr.sched_nice })
      ]

  -- Given what `__getparam_dl` does to the attributes of a task under SCHED_DEADLINE.
  unfoldable pub get_params : (Task D → RawAttr D → RawAttr D) → Task D → RawAttr D → RawAttr D
  get_params getparam_dl p attr =
      if dl_policy p.policy
      then getparam_dl p attr
      else if rt_policy p.policy
      then record attr { sched_priority = p.rt_priority }
      else record attr { sched_nice = task_nice p }

  -- The attributes as `__sched_setscheduler` reads them.
  abbrev pub to_attr : RawAttr D → Attr D
  to_attr attr = record {
    sched_policy = if attr.keep_policy then setparam else policy_of attr.sched_policy;
    sched_priority = attr.sched_priority;
    sched_nice = attr.sched_nice;
    sched_flags = attr.sched_flags;
    sched_dl = attr.sched_dl;
  }

  module _ (getparam_dl : Task D → RawAttr D → RawAttr D) where
    -- The system call sched_setattr from the search for the task on
    unfoldable pub set_copied : Answers D → ℕ → RawAttr D → Threads D → Ret × Threads D
    unfolding find_process_by_pid put_thread get_params policy_of sched_setscheduler_attr
    set_copied a pid attr s = elim (find_process_by_pid s pid) [
      | none ↦ (esrch, s)
      | some p ↦
          let attr' =
            if attr.sched_flags.keep_params then get_params getparam_dl p attr else attr in
          with_thread s pid (sched_setscheduler_attr a true true (to_attr attr') p)
    ]

    -- From the call of `sched_copy_attr` on
    unfoldable pub set_checked : Answers D → ℕ → Copied D → Threads D → Ret × Threads D
    unfolding set_copied
    set_checked a pid no_access s = (efault, s)
    set_checked a pid bad_value s = (einval, s)
    set_checked a pid too_big s = (e2big, s)
    set_checked a pid (good attr) s =
        if ltb (2 ^ 31 - 1) attr.sched_policy then (einval, s) else set_copied a pid attr s

    -- The system call sched_setattr
    unfoldable pub sys_sched_setattr :
        Answers D → ℤ → Ptr (UserAttr D) → ℕ → Threads D → Ret × Threads D
    unfolding sched_copy_attr set_checked
    sys_sched_setattr a (negsuc n) uattr flags s = (einval, s)
    sys_sched_setattr a (pos pid) null flags s = (einval, s)
    sys_sched_setattr a (pos pid) uattr flags s =
        if not (flags == 0) then (einval, s) else set_checked a pid (sched_copy_attr uattr) s

    unfoldable pub perform : Answers D → Call D → Threads D → Ret × Threads D
    unfolding sys_sched_setscheduler sys_sched_setparam sys_sched_setattr
    perform a (setscheduler pid policy param) s = sys_sched_setscheduler a pid policy param s
    perform a (setparam_only pid param) s = sys_sched_setparam a pid param s
    perform a (setattr pid uattr flags) s = sys_sched_setattr a pid uattr flags s

  -- Whether it warns, and the task.
  abbrev pub warn : Ret × Task D → Bool × Task D
  warn r = (is_error r.0, r.1)

  unfoldable pub sched_set_fifo : Answers D → Task D → Bool × Task D
  unfolding is_error sched_setscheduler_nocheck
  sched_set_fifo a p = warn (sched_setscheduler_nocheck a (known fifo) false (100 / 2) p)

  unfoldable pub sched_set_fifo_low : Answers D → Task D → Bool × Task D
  unfolding is_error sched_setscheduler_nocheck
  sched_set_fifo_low a p = warn (sched_setscheduler_nocheck a (known fifo) false 1 p)

  -- `zero` are deadline parameters that are all 0.
  unfoldable pub sched_set_normal : Answers D → D → ℤ → Task D → Bool × Task D
  unfolding is_error sched_setscheduler_attr
  sched_set_normal a zero nice p = warn (
      sched_setscheduler_attr a false true
        (record {
          sched_policy = known normal;
          sched_priority = 0;
          sched_nice = nice;
          sched_flags = no_flags;
          sched_dl = zero;
        })
        p)
