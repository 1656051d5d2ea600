-- ===== src/Sched/Priority.antt =====
-- Changes of a task's priority outside `__sched_setscheduler`, kernel/sched/core.c:
-- `set_user_nice`, `can_nice` and the system call nice, `rt_mutex_setprio` by which a task that
-- holds a lock gets the priority of a task that waits for it, and `sched_fork`.
-- Run queues and the deadline entity's own fields are left out.
pub mod Laws
pub mod Set
pub mod Forked
pub mod Run
pub mod Nice
use cros_rt.Base.{
  ℕ, ◌-◌, Bool, true, false, not, ◌&&◌, ◌||◌, Option, none, some, ◌==◌, if◌then◌else◌,
}
use cros_rt.Base.Int.{ℤ, pos, negsuc, eqb_ℤ, ltb_ℤ, ◌+ℤ◌, ◌-ℤ◌, pos_part, neg_part}
use cros_rt.Sched.Abi.{clamp_nice}
use cros_rt.Sched.Task.{
  Policy, normal, Task, other, rt_class, fair_class, dl_policy, rt_policy, dl_prio, rt_prio,
  nice_to_prio, prio_to_nice, effective_prio, setscheduler_prio, rt_effective_prio,
}
use cros_rt.Sched.Setscheduler.{Ret, success, eperm, code, task_nice}

-- `nice_to_rlimit`, from the kernel's headers
abbrev pub nice_to_rlimit : ℤ → ℤ
nice_to_rlimit nice = pos 20 -ℤ nice

-- Given the limit RLIMIT_NICE of the process and whether it has CAP_SYS_NICE.
unfoldable pub can_nice : ℕ → Bool → ℤ → Bool
can_nice limit capable nice = not (ltb_ℤ (pos limit) (nice_to_rlimit nice)) || capable

-- `clamp(increment, -NICE_WIDTH, NICE_WIDTH)`
unfoldable pub clamp_width : ℤ → ℤ
clamp_width increment =
    if ltb_ℤ increment (negsuc 39)
    then negsuc 39
    else if ltb_ℤ (pos 40) increment
    then pos 40
    else increment

-- A task, and the number of the task in `pi_top_task`.
pub record Boosted (D : Type 0) : Type 0 where
  pub task : Task D
  pub pi_top_task : Option ℕ

abbrev pub same_top : Option ℕ → Option (ℕ × ℤ) → Bool
same_top none none = true
same_top (some i) (some (j, prio)) = i == j
same_top _ _ = false

abbrev pub number_of : Option (ℕ × ℤ) → Option ℕ
number_of none = none
number_of (some (j, prio)) = some j

abbrev pub prio_of : Option (ℕ × ℤ) → Option ℤ
prio_of none = none
prio_of (some (j, prio)) = some prio

module _ {D : Type 0} where
  unfoldable pub set_user_nice : Task D → ℤ → Task D
  unfolding effective_prio
  set_user_nice p nice =
      if eqb_ℤ (task_nice p) nice || ltb_ℤ nice (negsuc 19) || ltb_ℤ (pos 19) nice
      then p
      else if dl_policy p.policy || rt_policy p.policy
      then record p { static_prio = nice_to_prio nice }
      else let (prio, q) = effective_prio (record p { static_prio = nice_to_prio nice }) in
        record q { prio = prio }

  -- The nice value that the system call nice sets.
  abbrev pub new_nice : Task D → ℤ → ℤ
  new_nice p increment = clamp_nice (task_nice p +ℤ clamp_width increment)

  -- The system call nice, given what `security_task_setnice` returns, 0 if it agrees.
  unfoldable pub sys_nice : ℕ → Bool → ℕ → ℤ → Task D → Ret × Task D
  sys_nice limit capable security increment p =
      let nice = new_nice p increment in
      if ltb_ℤ (clamp_width increment) (pos 0) && not (can_nice limit capable nice)
      then (eperm, p)
      else if not (security == 0)
      then (code security, p)
      else (success, set_user_nice p nice)

  -- `pi_task` is the number and the priority of the task that lends its own; `is_idle` is
  -- `p == rq->idle`.
  unfoldable pub rt_mutex_setprio : Bool → Boosted D → Option (ℕ × ℤ) → Boosted D
  unfolding rt_effective_prio setscheduler_prio
  rt_mutex_setprio is_idle b pi_task =
      let prio = rt_effective_prio (prio_of pi_task) b.task.normal_prio in
      let settled = eqb_ℤ prio b.task.prio && not (dl_prio prio) in
      let b' = record b { pi_top_task = number_of pi_task } in
      if same_top b.pi_top_task pi_task && settled
      then b
      else if settled || is_idle
      then b'
      else record b' { task = setscheduler_prio b.task prio }

  -- `if (unlikely(p->sched_reset_on_fork))`
  unfoldable pub revert : Task D → Task D
  revert p =
      let q =
        if dl_policy p.policy || rt_policy p.policy
        then record p { policy = normal; static_prio = nice_to_prio (pos 0); rt_priority = 0 }
        else if ltb_ℤ (prio_to_nice p.static_prio) (pos 0)
        then record p { static_prio = nice_to_prio (pos 0) }
        else p in
      record q { prio = q.static_prio; normal_prio = q.static_prio; sched_reset_on_fork = false }

  -- From the test of the new priority on; `none` is EAGAIN.
  unfoldable pub finish_fork : Task D → Option (Task D)
  finish_fork p =
      if dl_prio p.prio
      then none
      else some (record p { sched_class = if rt_prio p.prio then rt_class else fair_class })

  -- `p` is the copy of the task `current`; the state `other` is TASK_NEW.
  unfoldable pub sched_fork : Task D → Task D → Option (Task D)
  unfolding revert finish_fork
  sched_fork current p =
      let q = record p { state = other; prio = current.normal_prio } in
      finish_fork (if p.sched_reset_on_fork then revert q else q)
