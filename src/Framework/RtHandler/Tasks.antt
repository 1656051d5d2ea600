-- ===== src/Framework/RtHandler/Tasks.antt =====
-- How a round changes a handler's thread: waking it, and letting it sleep at a low priority.
use native.Mathlib.Numerals.{unary_clauses}
use cros_rt.Base.{ℕ, ◌≡◌, refl, not, ltb, if◌then◌else◌, Bool-cases, inl, inr}
use cros_rt.Base.Int.{pos, ltb_ℤ}
use cros_rt.Sched.Task.{
  normal_prio, Task, TaskState, running, interruptible, uninterruptible, killable, waking, other,
  state_match, wake_up_process,
}
use cros_rt.Sched.Setscheduler.Laws.{IsConsistent}
use cros_rt.Framework.RtHandler.{is_running}

abbrev pub woken : {D : Type 0} → Task D → Task D
woken q = if not (is_running q.state) then (wake_up_process q).1 else q

pub woken-state :
    {D : Type 0} (q : Task D)
    → ((woken q).state ≡ (if state_match q.state then running else q.state))
      × ((woken q).rt_priority ≡ q.rt_priority)
unfolding wake_up_process
woken-state q = by_state q.state refl
  where
    by_state :
        (x : TaskState)
        → q.state ≡ x
        → ((woken q).state ≡ (if state_match q.state then running else q.state))
          × ((woken q).rt_priority ≡ q.rt_priority)
    by_state running e = rw e (refl, refl)
    by_state interruptible e = rw e (refl, refl)
    by_state uninterruptible e = rw e (refl, refl)
    by_state killable e = rw e (refl, refl)
    by_state waking e = rw e (refl, refl)
    by_state other e = rw e (refl, refl)

pub ltb_pos : (a b : ℕ) → ltb_ℤ (pos a) (pos b) ≡ ltb a b
ltb_pos a b = simp unary_clauses refl

-- A task that sleeps if its priority is below 2.
abbrev pub at_rest : {D : Type 0} → Task D → Task D
at_rest q = if ltb q.rt_priority 2 then record q { state = interruptible } else q

pub at_rest_same :
    {D : Type 0} (q : Task D)
    → ((at_rest q).policy ≡ q.policy)
      × ((at_rest q).rt_priority ≡ q.rt_priority)
      × ((at_rest q).state ≡ (if ltb q.rt_priority 2 then interruptible else q.state))
at_rest_same q = elim (Bool-cases (ltb q.rt_priority 2)) [
  | inl low ↦ rw low (refl, refl, refl)
  | inr high ↦ rw high (refl, refl, refl)
]

-- The state of a task does not matter to the scheduler's fields.
pub state-IsConsistent :
    {D : Type 0} (q : Task D) (x : TaskState)
    → IsConsistent q
    → IsConsistent (record q { state = x })
unfolding normal_prio
state-IsConsistent q x c = record {
  rt_range = c.rt_range;
  not_rt = c.not_rt;
  stored = c.stored;
  class = c.class;
}

pub at_rest-IsConsistent : {D : Type 0} (q : Task D) → IsConsistent q → IsConsistent (at_rest q)
at_rest-IsConsistent q c = elim (Bool-cases (ltb q.rt_priority 2)) [
  | inl low ↦ rw low (state-IsConsistent q interruptible c)
  | inr high ↦ rw high c
]

pub woken-IsConsistent : {D : Type 0} (q : Task D) → IsConsistent q → IsConsistent (woken q)
unfolding wake_up_process
woken-IsConsistent q c = by_state q.state refl
  where
    by_state : (x : TaskState) → q.state ≡ x → IsConsistent (woken q)
    by_state running e = rw e (state-IsConsistent q running c)
    by_state interruptible e = rw e (state-IsConsistent q running c)
    by_state uninterruptible e = rw e (state-IsConsistent q running c)
    by_state killable e = rw e (state-IsConsistent q running c)
    by_state waking e = rw e (state-IsConsistent q waking c)
    by_state other e = rw e (state-IsConsistent q other c)
