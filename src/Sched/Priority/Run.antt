-- ===== src/Sched/Priority/Run.antt =====
-- Any changes of a task's priority, and a fork after them.
use cros_rt.Base.{List, [], ◌∷◌, ℕ, ◌≡◌, Bool, true, false, Option, none, some, ◌⊎◌}
use cros_rt.Base.Int.{ℤ}
use cros_rt.Sched.Task.{Task, dl_policy}
use cros_rt.Sched.Setscheduler.{PolicyArg, sched_setscheduler, Answers}
use cros_rt.Sched.Priority.{set_user_nice, rt_mutex_setprio, Boosted, sched_fork}
use cros_rt.Sched.Priority.Forked.{IsChild, sched_fork-IsChild}
use cros_rt.Sched.Priority.Laws.{IsRanked, set_user_nice-IsRanked, rt_mutex_setprio-IsRanked}
use cros_rt.Sched.Priority.Set.{sched_setscheduler-IsRanked}

-- What may happen to the priority of a task.
pub data Change (D : Type 0) : Type 0 where
  set : Answers D → PolicyArg → Bool → ℕ → Change D
  renice : ℤ → Change D
  lend : Bool → Option (ℕ × ℤ) → Change D

module _ {D : Type 0} where
  unfoldable pub change : Change D → Boosted D → Boosted D
  unfolding sched_setscheduler set_user_nice rt_mutex_setprio
  change (set a policy reset priority) b = record b {
    task = (sched_setscheduler a policy reset priority b.task).1;
  }
  change (renice nice) b = record b { task = set_user_nice b.task nice }
  change (lend is_idle pi_task) b = rt_mutex_setprio is_idle b pi_task

  unfoldable pub run : List (Change D) → Boosted D → Boosted D
  unfolding change
  run [] b = b
  run (c ∷ l) b = run l (change c b)

  change-IsRanked : (c : Change D) (b : Boosted D) → IsRanked b.task → IsRanked (change c b).task
  unfolding change
  change-IsRanked (set a policy reset priority) b r =
      sched_setscheduler-IsRanked a policy reset priority b.task r
  change-IsRanked (renice nice) b r = set_user_nice-IsRanked b.task nice r
  change-IsRanked (lend is_idle pi_task) b r = rt_mutex_setprio-IsRanked is_idle b pi_task r

  pub run-IsRanked :
      (l : List (Change D)) (b : Boosted D) → IsRanked b.task → IsRanked (run l b).task
  unfolding run
  run-IsRanked [] b r = r
  run-IsRanked (c ∷ l) b r = run-IsRanked l (change c b) (change-IsRanked c b r)

  -- Take a ranked task, and any calls of sched_setscheduler, sched_setparam and set_user_nice, with
  -- any priorities lent to it and taken back by rt_mutex_setprio between them. A fork then either
  -- fails, and the task is under SCHED_DEADLINE without its flag for forked children; or it gives a
  -- child that is ranked, runs at its own normal priority and not at a lent one, and has no such
  -- flag. Without the flag in the parent the child has its policy, real-time priority and nice value;
  -- with it, it has no real-time or deadline policy and no negative nice value.
  pub run-IsChild :
      (l : List (Change D)) (b : Boosted D)
      → IsRanked b.task
      → (((run l b).task.sched_reset_on_fork ≡ false)
          × (dl_policy (run l b).task.policy ≡ true)
          × (sched_fork (run l b).task (run l b).task ≡ none))
        ⊎ ((q : Task D) × (sched_fork (run l b).task (run l b).task ≡ some q)
            × IsChild (run l b).task q)
  run-IsChild l b r = sched_fork-IsChild (run l b).task (run-IsRanked l b r)
