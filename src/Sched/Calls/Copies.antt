-- ===== src/Sched/Calls/Copies.antt =====
-- Attributes that are those of a task, and what a call with them does to it.
use cros_rt.Base.{
  ◌&&◌, ℕ, ◌-◌, ◌^◌, ◌≡◌, refl, true, false, not, arith, ltb, ◌||◌, if◌then◌else◌, Option-cases,
  Bool-cases, inl, inr, [],
}
use cros_rt.Base.Int.{ℤ, pos, negsuc, ◌≤ℤ◌, eqb_ℤ_refl}
use cros_rt.Sched.Task.{
  Policy, Task, rt_policy, fair_policy, dl_policy, normal, fifo, rr, batch, idle, deadline,
}
use cros_rt.Sched.Setscheduler.{
  differ, nonzero, known, success, Answers, set_resolved, call_tests, changes, task_nice,
  first_error, eq_policy, param_tests, unprivileged_tests, later_tests,
}
use cros_rt.Sched.Setscheduler.Checks.{AllPass, AllPass-first_error, AllPass-append, AllPass-unless}
use cros_rt.Sched.Setscheduler.Laws.{IsConsistent}
use cros_rt.Sched.Setscheduler.Success.{Agrees}
use cros_rt.Sched.Abi.{RawAttr, no_flags, clamp_nice, policy_number, policy_of}
use cros_rt.Sched.Calls.{to_attr}
use cros_rt.Sched.Calls.Read.{kernel_attr}

pub policy_of_number : (policy : Policy) → policy_of (policy_number policy) ≡ known policy
unfolding policy_of
policy_of_number normal = refl
policy_of_number fifo = refl
policy_of_number rr = refl
policy_of_number batch = refl
policy_of_number idle = refl
policy_of_number deadline = refl

pub policy_number-small :
    (policy : Policy) (n : ℕ) → n ≡ policy_number policy → ltb (2 ^ 31 - 1) n ≡ false
policy_number-small policy n e = ground arith

eq_policy_refl : (policy : Policy) → eq_policy policy policy ≡ true
unfolding eq_policy
eq_policy_refl policy = ground arith

fair-not_rt : (policy : Policy) → fair_policy policy ≡ true → rt_policy policy ≡ false
fair-not_rt policy h = ground arith

-- A nice value is -20 to 19.
abbrev pub IsNice : ℤ → Type 0
IsNice nice = (negsuc 19 ≤ℤ nice) × (nice ≤ℤ pos 19)

pub clamp_nice-eq : (nice : ℤ) → IsNice nice → clamp_nice nice ≡ nice
unfolding clamp_nice
clamp_nice-eq nice h = ground arith

module _ {D : Type 0} where
  -- The attributes are those of the task, as far as its policy uses them.
  pub record Copies (k : RawAttr D) (p : Task D) : Type 0 where
    pub number : k.sched_policy ≡ policy_number p.policy
    pub no_keep : k.keep_policy ≡ false
    pub flags : k.sched_flags ≡ record no_flags { reset_on_fork = p.sched_reset_on_fork }
    pub nice : fair_policy p.policy ≡ true → k.sched_nice ≡ task_nice p
    pub priority : rt_policy p.policy ≡ true → k.sched_priority ≡ p.rt_priority
    pub no_priority : rt_policy p.policy ≡ false → k.sched_priority ≡ 0

  module _ (a : Answers D) (p : Task D) (no_dl : dl_policy p.policy ≡ false) (c : IsConsistent p)
      (k : RawAttr D) (same : Copies k p) where
    no_change : changes a p.policy (to_attr k) p ≡ false
    unfolding changes
    no_change =
        rw (eq_policy_refl p.policy, no_dl, same.flags)
          (elim (Bool-cases (fair_policy p.policy)) [
            | inl fair ↦
                rw (fair, same.nice fair)
                  (rw (fair-not_rt p.policy fair, eqb_ℤ_refl (task_nice p)) refl)
            | inr no_fair ↦ elim (Bool-cases (rt_policy p.policy)) [
              | inl is_rt ↦ rw (no_fair, is_rt, same.priority is_rt) (ground arith)
              | inr is_not ↦ rw (no_fair, is_not) refl
            ]
          ])

    pub write_back : (set_resolved a true true p.policy p.sched_reset_on_fork (to_attr k) p).1 ≡ p
    unfolding set_resolved
    write_back =
        let tests = call_tests a true p.policy p.sched_reset_on_fork (to_attr k) p in
        elim (Option-cases (first_error tests)) [
          | inl pass ↦ rw (pass, no_change, set_resolved) refl
          | inr (e, stop) ↦ rw (stop, set_resolved) refl
        ]

    low : ltb 99 k.sched_priority ≡ false
    low = elim (Bool-cases (rt_policy p.policy)) [
      | inl is_rt ↦ let e = same.priority is_rt in let r = c.rt_range is_rt in ground arith
      | inr is_not ↦ let e = same.no_priority is_not in ground arith
    ]

    fits :
        (dl_policy p.policy && not (a.checkparam_dl k.sched_dl)
          || differ (rt_policy p.policy) (nonzero k.sched_priority))
        ≡ false
    fits = elim (Bool-cases (rt_policy p.policy)) [
      | inl is_rt ↦
          let e = same.priority is_rt in
          let r = c.rt_range is_rt in rw (no_dl, is_rt) (ground arith)
      | inr is_not ↦ let e = same.no_priority is_not in rw (no_dl, is_not) (ground arith)
    ]

    passes : Agrees a → AllPass (call_tests a true p.policy p.sched_reset_on_fork (to_attr k) p)
    passes g =
        AllPass-append (param_tests a p.policy (to_attr k)) _
          (rw same.flags refl, (low, (fits, tt)))
          (AllPass-append
            (if not a.capable
              then unprivileged_tests a p.policy p.sched_reset_on_fork (to_attr k) p
              else [])
            (later_tests a true (to_attr k))
            (AllPass-unless (not a.capable) _ (rw g.privileged refl))
            (
              rw same.flags refl,
              (ground (arith, g.permitted), (rw same.flags refl, (g.no_stop, tt))),
            ))

    pub write_back_succeeds :
        Agrees a
        → (set_resolved a true true p.policy p.sched_reset_on_fork (to_attr k) p).0 ≡ success
    unfolding set_resolved
    write_back_succeeds g =
        rw
          (
            AllPass-first_error (call_tests a true p.policy p.sched_reset_on_fork (to_attr k) p)
                (passes g),
            no_change,
            set_resolved,
          )
          refl

  module _ (getparam_dl : Task D → RawAttr D → RawAttr D) (zero : D) where
    pub kernel_attr-Copies :
        (p : Task D) → dl_policy p.policy ≡ false → Copies (kernel_attr getparam_dl zero p) p
    unfolding kernel_attr
    kernel_attr-Copies p no_dl = elim (Bool-cases (rt_policy p.policy)) [
      | inl is_rt ↦
          rw (no_dl, is_rt, kernel_attr)
            (record {
              number = refl;
              no_keep = refl;
              flags = refl;
              nice = λ f. ground arith;
              priority = λ e. refl;
              no_priority = λ e. cc;
            })
      | inr is_not ↦
          rw (no_dl, is_not, kernel_attr)
            (record {
              number = refl;
              no_keep = refl;
              flags = refl;
              nice = λ f. refl;
              priority = λ e. cc;
              no_priority = λ e. refl;
            })
    ]
