-- ===== src/Sched/Setscheduler/Success.antt =====
-- A request by a privileged caller for a policy other than SCHED_DEADLINE.
use cros_rt.Base.{
  ◌↔◌, ℕ, ◌≤◌, ◌≡◌, refl, Bool, true, false, not, [], arith, if◌then◌else◌, Bool-cases, inl, inr,
}
use cros_rt.Sched.Task.{fifo, Policy, dl_policy, rt_policy, Task}
use cros_rt.Sched.Setscheduler.Laws.{Ending-passed}
use cros_rt.Sched.Setscheduler.{
  differ, nonzero, success, Answers, Attr, known, param_tests, unprivileged_tests, later_tests,
  call_tests, change_tests, changes, set_resolved, sched_setscheduler, param_attr,
}
use cros_rt.Sched.Setscheduler.Checks.{
  set_resolved-Ending, AllPass-left, AllPass, AllPass-first_error, AllPass-append, AllPass-unless,
}

-- The caller is privileged and nothing else in the kernel objects.
pub record Agrees {D : Type 0} (a : Answers D) : Type 0 where
  pub privileged : a.capable ≡ true
  pub permitted : a.security ≡ 0
  pub no_stop : a.is_stop ≡ false
  pub runtime : a.no_rt_runtime ≡ false
  pub no_overflow : a.dl_overflow ≡ false

-- The priority is one that the policy may have.
abbrev pub Fits : Policy → ℕ → Type 0
Fits policy priority = (priority ≤ 99) × (differ (rt_policy policy) (nonzero priority) ≡ false)

module _ {D : Type 0} (a : Answers D) (g : Agrees a) (policy : Policy)
    (no_dl : dl_policy policy ≡ false) (reset : Bool) (priority : ℕ) (p : Task D) where
  abbrev attr : Attr D
  attr = param_attr (known policy) reset priority p

  call_passes : Fits policy priority → AllPass (call_tests a true policy reset attr p)
  call_passes (low, fits) =
      AllPass-append (param_tests a policy attr) _ (refl, (ground arith, (rw no_dl fits, tt)))
        (AllPass-append (if not a.capable then unprivileged_tests a policy reset attr p else [])
          (later_tests a true attr) (AllPass-unless (not a.capable) _ (rw g.privileged refl))
          (refl, (ground (arith, g.permitted), (refl, (g.no_stop, tt)))))

  change_passes : AllPass (change_tests a policy true attr p)
  change_passes = (ground (arith, g.runtime), (rw no_dl refl, (ground (arith, g.no_overflow), tt)))

  set_succeeds : Fits policy priority → (set_resolved a true true policy reset attr p).0 ≡ success
  unfolding set_resolved
  set_succeeds fits = elim (Bool-cases (changes a policy attr p)) [
    | inl some_change ↦
        rw
          (
            AllPass-first_error (call_tests a true policy reset attr p) (call_passes fits),
            some_change,
            AllPass-first_error (change_tests a policy true attr p) change_passes,
            set_resolved,
          )
          refl
    | inr no_change ↦
        rw
          (
            AllPass-first_error (call_tests a true policy reset attr p) (call_passes fits),
            no_change,
            set_resolved,
          )
          refl
  ]

  -- Where the caller has CAP_SYS_NICE and no other part of the kernel objects, asking for a policy
  -- other than SCHED_DEADLINE succeeds exactly at a priority that the policy may have.
  pub sched_setscheduler_iff :
      ((sched_setscheduler a (known policy) reset priority p).0 ≡ success) ↔ Fits policy priority
  unfolding sched_setscheduler
  sched_setscheduler_iff = (
    λ h.
        let passed =
          Ending-passed a reset priority p policy
            (set_resolved-Ending a true true policy reset attr p) h in
        let tests = AllPass-left (param_tests a policy attr) _ passed in
        (ground arith, ground arith),
    set_succeeds,
  )

-- Where the caller has CAP_SYS_NICE and no other part of the kernel objects, asking for SCHED_FIFO
-- at a priority of 1 to 99 succeeds.
pub sched_setscheduler_succeeds :
    {D : Type 0} (a : Answers D)
    → Agrees a
    → (reset : Bool) (priority : ℕ) (p : Task D) → 1 ≤ priority
    → priority ≤ 99
    → (sched_setscheduler a (known fifo) reset priority p).0 ≡ success
sched_setscheduler_succeeds a g reset priority p lo hi =
    (sched_setscheduler_iff a g fifo refl reset priority p).1 (hi, ground arith)
