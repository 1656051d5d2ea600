-- ===== src/Sched/Calls/Written.antt =====
-- What a call that succeeds has written into the task.
use cros_rt.Base.{
  ℕ, ◌+◌, ◌-◌, ◌≤◌, ◌<◌, ◌^◌, ◌≡◌, ◌≢◌, refl, sym, Bool, true, false, some, arith, if◌then◌else◌,
  Bool-cases, inl, inr,
}
use cros_rt.Sched.Task.{Policy, Task, rt_policy}
use cros_rt.Sched.Setscheduler.{
  PolicyArg, known, setparam, invalid, Attr, Ret, success, Answers, sched_setscheduler, param_attr,
  call_tests, changes, apply_change,
}
use cros_rt.Sched.Setscheduler.Checks.{
  AllPass, Ending, refused, kept, changed, set_resolved-Ending, eq_policy_eq,
}
use cros_rt.Sched.Setscheduler.Laws.{IsConsistent, checked_priority}
use cros_rt.Sched.Abi.{policy_number, policy_of, policy_arg, reset_bit}

-- The numbers and the policies correspond.
policy_of-number : (n : ℕ) (policy : Policy) → policy_of n ≡ known policy → policy_number policy ≡ n
unfolding policy_of
policy_of-number n policy h = ground arith

pub policy_arg-word :
    (n : ℕ) (policy : Policy) (reset : Bool)
    → n < 2 ^ 31
    → policy_arg (some n) ≡ (known policy, reset)
    → policy_number policy + (if reset then reset_bit else 0) ≡ n
unfolding policy_arg
policy_arg-word n policy reset lt h =
    ground (arith, policy_of-number n policy, policy_of-number (n - reset_bit) policy)

pub policy_arg-ne_setparam : (n : ℕ) → (policy_arg (some n)).0 ≢ setparam
unfolding policy_arg
policy_arg-ne_setparam n h = ground arith

module _ {D : Type 0} where
  pub record IsWritten (policy : Policy) (reset : Bool) (priority : ℕ) (q : Task D) : Type 0 where
    pub same_policy : q.policy ≡ policy
    pub same_flag : q.sched_reset_on_fork ≡ reset
    pub same_priority : q.rt_priority ≡ priority
    pub in_range : priority ≤ 99
    pub not_rt : rt_policy policy ≡ false → priority ≡ 0

  module _ (a : Answers D) (user : Bool) (policy : Policy) (reset : Bool) (attr : Attr D)
      (p : Task D) where
    below_100 :
        AllPass (call_tests a user policy reset attr p)
        → (attr.sched_priority ≤ 99) × (rt_policy policy ≡ false → attr.sched_priority ≡ 0)
    below_100 ok =
        let (rt, other) = checked_priority a user true policy reset attr p ok in
        elim (Bool-cases (rt_policy policy)) [
          | inl is_rt ↦ ((rt is_rt).1, other)
          | inr is_not ↦ (let z = other is_not in omega arith, other)
        ]

    pub Ending-IsWritten :
        {r : Ret × Task D}
        → Ending a user true policy reset attr p r
        → attr.sched_flags.keep_params ≡ false
        → IsConsistent p
        → r.0 ≡ success
        → IsWritten policy reset attr.sched_priority r.1
    unfolding changes apply_change
    Ending-IsWritten (refused e bad) all c h = absurd (bad h)
    Ending-IsWritten (kept ok same) all c h =
        let is_policy : p.policy ≡ policy = sym (eq_policy_eq policy p.policy (ground arith)) in
        let (low, zero) = below_100 ok in
        record {
          same_policy = is_policy;
          same_flag = refl;
          same_priority = elim (Bool-cases (rt_policy policy)) [
            | inl is_rt ↦ ground arith
            | inr is_not ↦
                let z = zero is_not in let z' = c.not_rt (rw is_policy is_not) in omega arith
          ];
          in_range = low;
          not_rt = zero;
        }
    Ending-IsWritten (changed ok ok') all c h =
        let (low, zero) = below_100 ok in
        rw (all, apply_change)
          (record {
            same_policy = refl;
            same_flag = refl;
            same_priority = refl;
            in_range = low;
            not_rt = zero;
          })

  module _ (a : Answers D) (reset : Bool) (priority : ℕ) (p : Task D) where
    pub arg-IsWritten :
        (arg : PolicyArg)
        → IsConsistent p
        → (sched_setscheduler a arg reset priority p).0 ≡ success
        → arg ≢ setparam
        → (policy : Policy) × (arg ≡ known policy)
          × IsWritten policy reset priority (sched_setscheduler a arg reset priority p).1
    unfolding sched_setscheduler
    arg-IsWritten setparam c h n = absurd (n refl)
    arg-IsWritten invalid c h n = cc
    arg-IsWritten (known policy) c h n =
        let attr = param_attr (known policy) reset priority p in
        let ending = set_resolved-Ending a true true policy reset attr p in
        (policy, refl, Ending-IsWritten a true policy reset attr p ending refl c h)

    -- With SETPARAM_POLICY the policy and the flag stay.
    pub setparam-IsWritten :
        IsConsistent p
        → (sched_setscheduler a setparam reset priority p).0 ≡ success
        → IsWritten p.policy p.sched_reset_on_fork priority
            (sched_setscheduler a setparam reset priority p).1
    unfolding sched_setscheduler
    setparam-IsWritten c h =
        let attr = param_attr setparam reset priority p in
        let ending = set_resolved-Ending a true true p.policy p.sched_reset_on_fork attr p in
        Ending-IsWritten a true p.policy p.sched_reset_on_fork attr p ending refl c h
