-- ===== src/Sched/Setscheduler/Laws.antt =====
-- What a call of the scheduler's interface may do to a task.
use cros_rt.Base.{
  ℕ, ◌-◌, ◌≤◌, ◌≡◌, ◌≢◌, refl, sym, ◌∙◌, ◌⊎◌, inl, inr, Bool, true, false, not, arith,
  if◌then◌else◌, Option-cases, Bool-cases, [],
}
use cros_rt.Base.Int.{pos}
use cros_rt.Base.Cint.{ -ℤ-pos}
use cros_rt.Sched.Task.{Policy, fifo, Task, rt_policy, normal_prio, normal_prio_of, class_of}
use cros_rt.Sched.Setscheduler.{
  Ret, success, Answers, Attr, known, resolve, call_tests, param_tests, unprivileged_tests, changes,
  apply_change, sched_setscheduler_attr, sched_setscheduler, param_attr,
}
use cros_rt.Sched.Setscheduler.Checks.{
  AllPass, AllPass-left, AllPass-right, AllPass-if, eq_policy_eq, Ending, refused, kept, changed,
  set_resolved-Ending,
}

module _ {D : Type 0} where
  -- The real-time priority is 1 to 99 under a real-time policy and 0 under another, the stored normal
  -- priority is the computed one, and the class is that of the priority.
  pub record IsConsistent (p : Task D) : Type 0 where
    pub rt_range : rt_policy p.policy ≡ true → (1 ≤ p.rt_priority) × (p.rt_priority ≤ 99)
    pub not_rt : rt_policy p.policy ≡ false → p.rt_priority ≡ 0
    pub stored : p.normal_prio ≡ normal_prio p
    pub class : p.sched_class ≡ class_of p.prio

  module _ (a : Answers D) (user pi : Bool) where
    pub checked_priority :
        (policy : Policy) (reset : Bool) (attr : Attr D) (p : Task D)
        → AllPass (call_tests a user policy reset attr p)
        → (rt_policy policy ≡ true → (1 ≤ attr.sched_priority) × (attr.sched_priority ≤ 99))
          × (rt_policy policy ≡ false → attr.sched_priority ≡ 0)
    checked_priority policy reset attr p ok =
        let passed = AllPass-left (param_tests a policy attr) _ ok in
        let range = passed.1.0 in
        let zero_or_not = passed.1.1.0 in (λ h. (ground arith, ground arith), λ h. ground arith)

    apply-IsConsistent :
        (policy : Policy) (reset : Bool) (attr : Attr D) (p : Task D)
        → IsConsistent p
        → AllPass (call_tests a user policy reset attr p)
        → IsConsistent (apply_change a pi policy reset attr p)
    unfolding apply_change normal_prio
    apply-IsConsistent policy reset attr p c ok =
        let (in_range, is_zero) = checked_priority policy reset attr p ok in
        elim (Bool-cases attr.sched_flags.keep_params) [
          | inl keep ↦
              rw (keep, apply_change)
                (record {
                  rt_range = c.rt_range;
                  not_rt = c.not_rt;
                  stored = c.stored;
                  class = c.class;
                })
          | inr all ↦
              rw (all, apply_change)
                (record { rt_range = in_range; not_rt = is_zero; stored = refl; class = refl })
        ]

    Ending-IsConsistent :
        (policy : Policy) (reset : Bool) (attr : Attr D) (p : Task D) {r : Ret × Task D}
        → Ending a user pi policy reset attr p r
        → IsConsistent p
        → IsConsistent r.1
    unfolding normal_prio
    Ending-IsConsistent policy reset attr p (refused e bad) c = c
    Ending-IsConsistent policy reset attr p (kept ok same) c = record {
      rt_range = c.rt_range;
      not_rt = c.not_rt;
      stored = c.stored;
      class = c.class;
    }
    Ending-IsConsistent policy reset attr p (changed ok ok') c =
        apply-IsConsistent policy reset attr p c ok

    -- Whatever it is asked and whatever it is answered, the call keeps a task consistent.
    pub sched_setscheduler_attr-IsConsistent :
        (attr : Attr D) (p : Task D)
        → IsConsistent p
        → IsConsistent (sched_setscheduler_attr a user pi attr p).1
    unfolding sched_setscheduler_attr
    sched_setscheduler_attr-IsConsistent attr p c = elim (Option-cases (resolve attr p)) [
      | inl nothing ↦ rw (nothing, sched_setscheduler_attr) c
      | inr ((policy, reset), e) ↦
          rw (e, sched_setscheduler_attr)
            (Ending-IsConsistent policy reset attr p
              (set_resolved-Ending a user pi policy reset attr p) c)
    ]

    Ending-unchanged :
        (policy : Policy) (reset : Bool) (attr : Attr D) (p : Task D) {r : Ret × Task D}
        → Ending a user pi policy reset attr p r
        → r.0 ≢ success
        → r.1 ≡ p
    Ending-unchanged policy reset attr p (refused e bad) n = refl
    Ending-unchanged policy reset attr p (kept ok same) n = absurd (n refl)
    Ending-unchanged policy reset attr p (changed ok ok') n = absurd (n refl)

    -- A call that does not succeed leaves the task as it was.
    pub sched_setscheduler_attr_error :
        (attr : Attr D) (p : Task D)
        → (sched_setscheduler_attr a user pi attr p).0 ≢ success
        → (sched_setscheduler_attr a user pi attr p).1 ≡ p
    unfolding sched_setscheduler_attr
    sched_setscheduler_attr_error attr p = elim (Option-cases (resolve attr p)) [
      | inl nothing ↦ rw (nothing, sched_setscheduler_attr) (λ n. refl)
      | inr ((policy, reset), e) ↦
          rw (e, sched_setscheduler_attr)
            (Ending-unchanged policy reset attr p
              (set_resolved-Ending a user pi policy reset attr p))
    ]

  module _ (a : Answers D) (reset : Bool) (priority : ℕ) (p : Task D) where
    abbrev fifo_attr : Attr D
    fifo_attr = param_attr (known fifo) reset priority p

    pub record IsFifo (q : Task D) : Type 0 where
      pub policy : q.policy ≡ fifo
      pub rt_priority : q.rt_priority ≡ priority
      pub above_zero : 1 ≤ priority
      pub below_max : priority ≤ 99
      pub on_scale : q.normal_prio ≡ pos (99 - priority)

    fifo_scale :
        (q : Task D)
        → q.policy ≡ fifo
        → q.rt_priority ≡ priority
        → priority ≤ 99
        → normal_prio q ≡ pos (99 - priority)
    unfolding normal_prio normal_prio_of
    fifo_scale q e f le = rw (e, f) (-ℤ-pos 99 priority le)

    Ending-IsFifo :
        {r : Ret × Task D}
        → Ending a true true fifo reset fifo_attr p r
        → IsConsistent p
        → r.0 ≡ success
        → IsFifo r.1
    unfolding changes apply_change
    Ending-IsFifo (refused e bad) c h = absurd (bad h)
    Ending-IsFifo (kept ok same) c h =
        let in_range = (checked_priority a true true fifo reset fifo_attr p ok).0 refl in
        let is_fifo : p.policy ≡ fifo = sym (eq_policy_eq fifo p.policy (ground arith)) in
        let equal : p.rt_priority ≡ priority = ground arith in
        record {
          policy = is_fifo;
          rt_priority = equal;
          above_zero = in_range.0;
          below_max = in_range.1;
          on_scale = c.stored ∙ fifo_scale p is_fifo equal in_range.1;
        }
    Ending-IsFifo (changed ok ok') c h =
        let in_range = (checked_priority a true true fifo reset fifo_attr p ok).0 refl in
        record {
          policy = refl;
          rt_priority = refl;
          above_zero = in_range.0;
          below_max = in_range.1;
          on_scale = fifo_scale (apply_change a true fifo reset fifo_attr p) refl refl in_range.1;
        }

    -- If asking for SCHED_FIFO at a priority succeeds on a consistent task, the task then has this
    -- policy and this priority, which is 1 to 99, and its normal priority is 99 less it.
    pub sched_setscheduler-IsFifo :
        IsConsistent p
        → (sched_setscheduler a (known fifo) reset priority p).0 ≡ success
        → IsFifo (sched_setscheduler a (known fifo) reset priority p).1
    unfolding sched_setscheduler
    sched_setscheduler-IsFifo c =
        Ending-IsFifo (set_resolved-Ending a true true fifo reset fifo_attr p) c

    pub Ending-passed :
        (policy : Policy) {r : Ret × Task D}
        → Ending a true true policy reset (param_attr (known policy) reset priority p) p r
        → r.0 ≡ success
        → AllPass (call_tests a true policy reset (param_attr (known policy) reset priority p) p)
    Ending-passed policy (refused e bad) h = absurd (bad h)
    Ending-passed policy (kept ok same) h = ok
    Ending-passed policy (changed ok ok') h = ok

    -- Without CAP_SYS_NICE no call gives a task a real-time priority above both the one it has and
    -- the limit of its process.
    pub sched_setscheduler_unprivileged :
        (policy : Policy)
        → rt_policy policy ≡ true
        → a.capable ≡ false
        → (sched_setscheduler a (known policy) reset priority p).0 ≡ success
        → (priority ≤ p.rt_priority) ⊎ (priority ≤ a.rlimit_rtprio)
    unfolding sched_setscheduler unprivileged_tests
    sched_setscheduler_unprivileged policy rt weak h =
        let attr = param_attr (known policy) reset priority p in
        let passed = Ending-passed policy (set_resolved-Ending a true true policy reset attr p) h in
        let tests = unprivileged_tests a policy reset attr p in
        let rest = AllPass-right (param_tests a policy attr) _ passed in
        let guarded = AllPass-left (if not a.capable then tests else []) _ rest in
        let third = (AllPass-if (not a.capable) tests (ground arith) guarded).1.1.0 in ground arith

    Ending-state :
        (policy : Policy) (attr : Attr D) {r : Ret × Task D}
        → Ending a true true policy reset attr p r
        → r.1.state ≡ p.state
    unfolding apply_change
    Ending-state policy attr (refused e bad) = refl
    Ending-state policy attr (kept ok same) = refl
    Ending-state policy attr (changed ok ok') = elim (Bool-cases attr.sched_flags.keep_params) [
      | inl keep ↦ rw (keep, apply_change) refl
      | inr all ↦ rw (all, apply_change) refl
    ]

    pub sched_setscheduler-IsConsistent :
        (policy : Policy)
        → IsConsistent p
        → IsConsistent (sched_setscheduler a (known policy) reset priority p).1
    unfolding sched_setscheduler
    sched_setscheduler-IsConsistent policy =
        sched_setscheduler_attr-IsConsistent a true true
          (param_attr (known policy) reset priority p) p

    -- The call does not wake the task or put it to sleep.
    pub sched_setscheduler-state :
        (policy : Policy) → (sched_setscheduler a (known policy) reset priority p).1.state ≡ p.state
    unfolding sched_setscheduler
    sched_setscheduler-state policy =
        let attr = param_attr (known policy) reset priority p in
        Ending-state policy attr (set_resolved-Ending a true true policy reset attr p)
