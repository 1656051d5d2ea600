-- ===== src/Tests/Priority.antt =====
-- A task under SCHED_FIFO that has been lent a priority forks.
use cros_rt.Base.{ℕ, ◌≡◌, ◌⊎◌, refl, List, [], ◌∷◌, true, false, none, some, arith}
use cros_rt.Base.Int.{negsuc, pos}
use cros_rt.Tests.Data.{fifo_task, fifo_task-IsConsistent, agreeing}
use cros_rt.Sched.Task.{Task, dl_policy, fifo}
use cros_rt.Base.Int.{◌+ℤ◌, ◌-ℤ◌}
use cros_rt.Sched.Abi.{no_flags}
use cros_rt.Sched.Task.{idle}
use cros_rt.Sched.Setscheduler.{known, Attr, sched_setscheduler_attr}
use cros_rt.Sched.Priority.{Boosted, sched_fork}
use cros_rt.Sched.Priority.Laws.{IsRanked}
use cros_rt.Sched.Priority.Forked.{IsChild}
use cros_rt.Sched.Priority.Run.{Change, set, renice, lend, run, run-IsChild}

abbrev start : Boosted ℕ
start = record { task = fifo_task; pi_top_task = none }

-- It is lent priority 1 of the scheduler's scale by task 9, gets a nice value and its own priority 4.
abbrev events : List (Change ℕ)
events = lend false (some (9, pos 1)) ∷ renice (pos 5) ∷ set agreeing (known fifo) false 4 ∷ []

fifo_task-IsRanked : IsRanked fifo_task
fifo_task-IsRanked = record {
  consistent = fifo_task-IsConsistent;
  lifted = omega arith;
  lowest = omega arith;
  highest = omega arith;
}

run-IsChild_example :
    (((run events start).task.sched_reset_on_fork ≡ false)
      × (dl_policy (run events start).task.policy ≡ true)
      × (sched_fork (run events start).task (run events start).task ≡ none))
    ⊎ ((q : Task ℕ) × (sched_fork (run events start).task (run events start).task ≡ some q)
        × IsChild (run events start).task q)
run-IsChild_example = run-IsChild events start fifo_task-IsRanked

-- The priority that is lent is the task's own until it is given back.
lent : (run (lend false (some (9, pos 1)) ∷ []) start).task.prio ≡ pos 1
unfolding run
lent = refl

-- SCHED_IDLE asked for with a nice value of -10: the priority follows it, and nothing else does.
abbrev idle_attr : Attr ℕ
idle_attr = record {
  sched_policy = known idle;
  sched_priority = 0;
  sched_nice = negsuc 9;
  sched_flags = no_flags;
  sched_dl = 0;
}

idle_110 :
    ((sched_setscheduler_attr agreeing true true idle_attr fifo_task).1.prio ≡ pos 110)
    × ((sched_setscheduler_attr agreeing true true idle_attr fifo_task).1.normal_prio ≡ pos 120)
unfolding sched_setscheduler_attr ◌+ℤ◌ ◌-ℤ◌
idle_110 = (refl, refl)
