-- ===== src/Tests/Sched.antt =====
-- A task under SCHED_FIFO whose priority is changed, and refused.
use cros_rt.Base.{ℕ, ◌≡◌, refl, Bool, true, false}
use cros_rt.Tests.Data.{fifo_task, agreeing, unprivileged}
use cros_rt.Sched.Task.{fifo}
use cros_rt.Sched.Setscheduler.{
  Attr, Ret, known, success, eperm, param_attr, sched_setscheduler, sched_setscheduler_attr,
}

abbrev raise_to : ℕ → Attr ℕ
raise_to priority = param_attr (known fifo) false priority fifo_task

refused_20 : (sched_setscheduler_attr unprivileged true true (raise_to 20) fifo_task).0 ≡ eperm
unfolding sched_setscheduler_attr
refused_20 = refl

abbrev is_success : Ret → Bool
is_success success = true
is_success _ = false

raised_20 : (sched_setscheduler agreeing (known fifo) false 20 fifo_task).0 ≡ success
unfolding sched_setscheduler
raised_20 = refl

raised_5 : (sched_setscheduler unprivileged (known fifo) false 5 fifo_task).0 ≡ success
unfolding sched_setscheduler
raised_5 = refl
