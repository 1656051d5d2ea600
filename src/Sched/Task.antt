-- ===== src/Sched/Task.antt =====
-- A task as kernel/sched/core.c sees it, its priority on the scheduler's scale (lower runs first) and
-- its wake-up: `__normal_prio`, `normal_prio`, `effective_prio`, `__setscheduler_prio`,
-- `__rt_effective_prio`, `ttwu_state_match`, `try_to_wake_up` and `wake_up_process`.
-- The constants and the tests on policies are those of the kernel's headers.
use cros_rt.Base.{ℕ, ◌-◌, Bool, true, false, not, Option, none, some, if◌then◌else◌}
use cros_rt.Base.Int.{ℤ, pos, negsuc, ltb_ℤ, ◌+ℤ◌, ◌-ℤ◌}

pub data Policy : Type 0 where
  normal fifo rr batch idle deadline : Policy

pub data SchedClass : Type 0 where
  dl_class rt_class fair_class : SchedClass

-- `__state`, by the values that the code tells apart; `killable` stands for TASK_UNINTERRUPTIBLE with
-- other bits beside it, as in TASK_KILLABLE and TASK_IDLE.
pub data TaskState : Type 0 where
  running interruptible uninterruptible killable waking other : TaskState

-- `struct task_struct`, as far as it decides who runs; `D` holds the deadline parameters.
pub record Task (D : Type 0) : Type 0 where
  pub state : TaskState
  pub policy : Policy
  pub rt_priority : ℕ
  pub static_prio : ℤ
  pub normal_prio : ℤ
  pub prio : ℤ
  pub sched_class : SchedClass
  pub sched_reset_on_fork : Bool
  pub dl : D

abbrev pub dl_policy : Policy → Bool
dl_policy deadline = true
dl_policy _ = false

abbrev pub rt_policy : Policy → Bool
rt_policy fifo = true
rt_policy rr = true
rt_policy _ = false

abbrev pub fair_policy : Policy → Bool
fair_policy normal = true
fair_policy batch = true
fair_policy _ = false

abbrev pub idle_policy : Policy → Bool
idle_policy idle = true
idle_policy _ = false

-- MAX_DL_PRIO is 0, MAX_RT_PRIO is 100, DEFAULT_PRIO is 120.
abbrev pub max_rt_prio : ℕ
max_rt_prio = 100

abbrev pub dl_prio : ℤ → Bool
dl_prio prio = ltb_ℤ prio (pos 0)

abbrev pub rt_prio : ℤ → Bool
rt_prio prio = ltb_ℤ prio (pos max_rt_prio)

abbrev pub nice_to_prio : ℤ → ℤ
nice_to_prio nice = nice +ℤ pos 120

abbrev pub prio_to_nice : ℤ → ℤ
prio_to_nice prio = prio -ℤ pos 120

-- `__normal_prio`
unfoldable pub normal_prio_of : Policy → ℕ → ℤ → ℤ
normal_prio_of policy rt_priority nice =
    if dl_policy policy
    then negsuc 0
    else if rt_policy policy
    then pos (max_rt_prio - 1) -ℤ pos rt_priority
    else nice_to_prio nice

unfoldable pub class_of : ℤ → SchedClass
class_of prio = if dl_prio prio then dl_class else if rt_prio prio then rt_class else fair_class

-- `ttwu_state_match` for TASK_NORMAL, without PREEMPT_RT.
abbrev pub state_match : TaskState → Bool
state_match interruptible = true
state_match uninterruptible = true
state_match killable = true
state_match _ = false

module _ {D : Type 0} where
  unfoldable pub normal_prio : Task D → ℤ
  unfolding normal_prio_of
  normal_prio p = normal_prio_of p.policy p.rt_priority (prio_to_nice p.static_prio)

  -- The result and the task, whose `normal_prio` it stores.
  unfoldable pub effective_prio : Task D → ℤ × Task D
  unfolding normal_prio
  effective_prio p =
      let q = record p { normal_prio = normal_prio p } in
      if not (rt_prio p.prio) then (q.normal_prio, q) else (q.prio, q)

  -- `__setscheduler_prio`
  unfoldable pub setscheduler_prio : Task D → ℤ → Task D
  unfolding class_of
  setscheduler_prio p prio = record p { sched_class = class_of prio; prio = prio }

  -- `wake_up_process`: whether it woke the task, and the task once it is enqueued.
  unfoldable pub wake_up_process : Task D → Bool × Task D
  wake_up_process p =
      if state_match p.state then (true, record p { state = running }) else (false, p)

-- `__rt_effective_prio`, given the priority of the top waiter for a lock of the task, if any.
unfoldable pub rt_effective_prio : Option ℤ → ℤ → ℤ
rt_effective_prio none prio = prio
rt_effective_prio (some top) prio = if ltb_ℤ prio top then prio else top
