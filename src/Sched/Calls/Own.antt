-- ===== src/Sched/Calls/Own.antt =====
-- The calls by which the kernel sets up its own threads: sched_set_fifo, sched_set_fifo_low and
-- sched_set_normal.
use cros_rt.Base.{ℕ, ◌≡◌, refl, sym, ap, true, false, arith, Bool-cases, inl, inr}
use cros_rt.Base.Int.{ℤ, pos, +ℤ_cancel, eqb_ℤ_iff, eqb_ℤ}
use cros_rt.Sched.Task.{Policy, fifo, normal, Task, dl_policy, fair_policy}
use cros_rt.Sched.Setscheduler.{
  Attr, Ret, success, Answers, known, task_nice, set_resolved, call_tests, change_tests,
  param_tests, later_tests, changes, sched_setscheduler_nocheck, param_attr, apply_change, resolve,
}
use cros_rt.Sched.Setscheduler.Checks.{
  AllPass, AllPass-first_error, AllPass-append, Ending, refused, kept, changed, set_resolved-Ending,
}
use cros_rt.Sched.Setscheduler.Laws.{IsConsistent}
use cros_rt.Sched.Setscheduler.Success.{Fits}
use cros_rt.Sched.Abi.{no_flags}
use cros_rt.Sched.Calls.{is_error, sched_set_fifo, sched_set_fifo_low, sched_set_normal}
use cros_rt.Sched.Calls.Written.{IsWritten, Ending-IsWritten}

module _ {D : Type 0} (a : Answers D) (p : Task D) (stop : a.is_stop ≡ false)
    (fine : a.dl_overflow ≡ false) (c : IsConsistent p) where
  module _ (policy : Policy) (no_dl : dl_policy policy ≡ false) (attr : Attr D)
      (plain : attr.sched_flags ≡ no_flags) (fits : Fits policy attr.sched_priority) where
    call_passes : AllPass (call_tests a false policy false attr p)
    call_passes =
        AllPass-append (param_tests a policy attr) (later_tests a false attr)
          (rw plain refl, (ground arith, (rw no_dl fits.1, tt)))
          (refl, (refl, (rw plain refl, (stop, tt))))

    change_passes : AllPass (change_tests a policy false attr p)
    change_passes = (refl, (refl, (ground (arith, fine), tt)))

    -- The call is granted.
    own_succeeds : (set_resolved a false true policy false attr p).0 ≡ success
    unfolding set_resolved
    own_succeeds =
        let pass = AllPass-first_error (call_tests a false policy false attr p) call_passes in
        let pass' = AllPass-first_error (change_tests a policy false attr p) change_passes in
        elim (Bool-cases (changes a policy attr p)) [
          | inl some_change ↦ rw (pass, some_change, pass', set_resolved) refl
          | inr no_change ↦ rw (pass, no_change, set_resolved) refl
        ]

    own-IsWritten :
        IsWritten policy false attr.sched_priority (set_resolved a false true policy false attr p).1
    own-IsWritten =
        Ending-IsWritten a false policy false attr p
          (set_resolved-Ending a false true policy false attr p) (rw plain refl) c own_succeeds

    Ending-nice :
        {r : Ret × Task D}
        → Ending a false true policy false attr p r
        → fair_policy policy ≡ true
        → r.0 ≡ success
        → task_nice r.1 ≡ attr.sched_nice
    unfolding changes apply_change
    Ending-nice (refused e bad) fair h = absurd (bad h)
    Ending-nice (kept ok same) fair h =
        let equal : eqb_ℤ attr.sched_nice (task_nice p) ≡ true = ground arith in
        sym ((eqb_ℤ_iff attr.sched_nice (task_nice p)).0 equal)
    Ending-nice (changed ok ok') fair h =
        rw (plain, fair, apply_change) (+ℤ_cancel attr.sched_nice (pos 120))

    own-nice :
        fair_policy policy ≡ true
        → task_nice (set_resolved a false true policy false attr p).1 ≡ attr.sched_nice
    own-nice fair =
        Ending-nice (set_resolved-Ending a false true policy false attr p) fair own_succeeds

  -- For a consistent task that is not the stop task of its CPU, and to whose bandwidth nothing
  -- objects, none of the three calls warns: the task gets SCHED_FIFO at 50 or at 1, or SCHED_NORMAL
  -- with the nice value asked for.
  pub own_threads :
      (zero : D) (nice : ℤ)
      → ((sched_set_fifo a p).0 ≡ false)
        × IsWritten fifo false 50 (sched_set_fifo a p).1
        × ((sched_set_fifo_low a p).0 ≡ false)
        × IsWritten fifo false 1 (sched_set_fifo_low a p).1
        × ((sched_set_normal a zero nice p).0 ≡ false)
        × IsWritten normal false 0 (sched_set_normal a zero nice p).1
        × (task_nice (sched_set_normal a zero nice p).1 ≡ nice)
  unfolding sched_set_fifo sched_set_fifo_low sched_set_normal sched_setscheduler_nocheck resolve
  own_threads zero nice =
      let at = λ (priority : ℕ). param_attr (known fifo) false priority p in
      let attr : Attr D = record {
        sched_policy = known normal;
        sched_priority = 0;
        sched_nice = nice;
        sched_flags = no_flags;
        sched_dl = zero;
      } in
      (
        ap is_error (own_succeeds fifo refl (at 50) refl (omega arith, refl)),
        own-IsWritten fifo refl (at 50) refl (omega arith, refl),
        ap is_error (own_succeeds fifo refl (at 1) refl (omega arith, refl)),
        own-IsWritten fifo refl (at 1) refl (omega arith, refl),
        ap is_error (own_succeeds normal refl attr refl (omega arith, refl)),
        own-IsWritten normal refl attr refl (omega arith, refl),
        own-nice normal refl attr refl (omega arith, refl) refl,
      )
