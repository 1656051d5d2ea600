-- ===== src/Sched/Setscheduler.antt =====
-- Changing a task's policy and priority, kernel/sched/core.c: `__setscheduler_params`,
-- `__sched_setscheduler`, `_sched_setscheduler`, `sched_setscheduler`, `sched_setscheduler_nocheck`.
-- Answers of code elsewhere (capabilities, limits, security module, deadline and group bandwidth,
-- clamps, lock waiters) come in a record. Locks and run queues are left out, and so is the recheck
-- after another thread has changed the policy meanwhile.
pub mod Checks
pub mod Laws
pub mod Success
use cros_rt.Base.{
  ℕ, zero, suc, Bool, true, false, not, ◌&&◌, ◌||◌, List, [], ◌∷◌, ◌++◌, ◌-◌, Option, none, some,
  ltb, ◌==◌, if◌then◌else◌,
}
use cros_rt.Base.Int.{ℤ, pos, eqb_ℤ, ltb_ℤ, ◌+ℤ◌, ◌-ℤ◌}
use cros_rt.Sched.Task.{
  Policy, normal, fifo, rr, batch, idle, deadline, Task, dl_policy, rt_policy, fair_policy,
  idle_policy, dl_prio, max_rt_prio, nice_to_prio, prio_to_nice, normal_prio_of, normal_prio,
  setscheduler_prio, rt_effective_prio,
}

-- `attr->sched_policy`: SETPARAM_POLICY, a number that is no policy, or a policy.
pub data PolicyArg : Type 0 where
  setparam : PolicyArg
  invalid : PolicyArg
  known : Policy → PolicyArg

-- `attr->sched_flags`; `unknown` stands for any bit outside SCHED_FLAG_ALL and SCHED_FLAG_SUGOV.
pub record Flags : Type 0 where
  pub reset_on_fork : Bool
  pub keep_params : Bool
  pub util_clamp : Bool
  pub sugov : Bool
  pub unknown : Bool

-- `struct sched_attr`
pub record Attr (D : Type 0) : Type 0 where
  pub sched_policy : PolicyArg
  pub sched_priority : ℕ
  pub sched_nice : ℤ
  pub sched_flags : Flags
  pub sched_dl : D

-- `errno` with the sign of the return value left out; `code` is what other code returned.
pub data Ret : Type 0 where
  success einval eperm ebusy esrch efault e2big : Ret
  code : ℕ → Ret

-- What the function asks other code, for one call.
pub record Answers (D : Type 0) : Type 0 where
  pub capable : Bool  -- CAP_SYS_NICE
  pub rlimit_rtprio : ℕ
  pub can_nice : ℤ → Bool
  pub same_owner : Bool
  pub security : ℕ  -- security_task_setscheduler, 0 if it agrees
  pub uclamp : ℕ  -- uclamp_validate, 0 if it agrees
  pub is_stop : Bool  -- p == rq->stop
  pub checkparam_dl : D → Bool
  pub dl_changed : Bool
  pub dl_overflow : Bool
  pub no_rt_runtime : Bool  -- the task's group has no real-time runtime
  pub dl_denied : Bool  -- the affinity or the bandwidth of the root domain forbids SCHED_DEADLINE
  pub pi_top : Option ℤ  -- the priority of the top waiter, rt_mutex_get_top_task

-- A test of the function, with what it returns where the test holds; tests in the code's order.
abbrev pub Test : Type 0
Test = Bool × Ret

unfoldable pub first_error : List Test → Option Ret
first_error [] = none
first_error ((hit, e) ∷ l) = if hit then some e else first_error l

abbrev pub nonzero : ℕ → Bool
nonzero n = not (n == 0)

abbrev pub differ : Bool → Bool → Bool
differ true b = not b
differ false b = b

unfoldable pub eq_policy : Policy → Policy → Bool
eq_policy normal normal = true
eq_policy fifo fifo = true
eq_policy rr rr = true
eq_policy batch batch = true
eq_policy idle idle = true
eq_policy deadline deadline = true
eq_policy _ _ = false

module _ {D : Type 0} where
  abbrev pub task_nice : Task D → ℤ
  task_nice p = prio_to_nice p.static_prio

  -- The policy that is meant, and the flag for forked children; none if it is no policy.
  unfoldable pub resolve : Attr D → Task D → Option (Policy × Bool)
  resolve attr p = elim attr.sched_policy [
    | setparam ↦ some (p.policy, p.sched_reset_on_fork)
    | invalid ↦ none
    | known policy ↦ some (policy, attr.sched_flags.reset_on_fork)
  ]

  -- The tests on the parameters.
  abbrev pub param_tests : Answers D → Policy → Attr D → List Test
  param_tests a policy attr =
      (attr.sched_flags.unknown, einval)
      ∷ (ltb (max_rt_prio - 1) attr.sched_priority, einval)
      ∷ (
        (dl_policy policy && not (a.checkparam_dl attr.sched_dl))
            || differ (rt_policy policy) (nonzero attr.sched_priority),
        einval,
      )
      ∷ []

  -- `if (user && !capable(CAP_SYS_NICE))`
  abbrev pub unprivileged_tests : Answers D → Policy → Bool → Attr D → Task D → List Test
  unfolding eq_policy
  unprivileged_tests a policy reset attr p =
      (
        fair_policy policy
            && ltb_ℤ attr.sched_nice (task_nice p)
            && not (a.can_nice attr.sched_nice),
        eperm,
      )
      ∷ (rt_policy policy && not (eq_policy policy p.policy) && (a.rlimit_rtprio == 0), eperm)
      ∷ (
        rt_policy policy
            && ltb p.rt_priority attr.sched_priority
            && ltb a.rlimit_rtprio attr.sched_priority,
        eperm,
      )
      ∷ (dl_policy policy, eperm)
      ∷ (idle_policy p.policy && not (idle_policy policy) && not (a.can_nice (task_nice p)), eperm)
      ∷ (not a.same_owner, eperm)
      ∷ (p.sched_reset_on_fork && not reset, eperm)
      ∷ []

  -- `if (user)`, the clamps and the stop task
  abbrev pub later_tests : Answers D → Bool → Attr D → List Test
  later_tests a user attr =
      (user && attr.sched_flags.sugov, einval)
      ∷ (user && nonzero a.security, code a.security)
      ∷ (attr.sched_flags.util_clamp && nonzero a.uclamp, code a.uclamp)
      ∷ (a.is_stop, einval)
      ∷ []

  -- What may go wrong once something is to change.
  abbrev pub change_tests : Answers D → Policy → Bool → Attr D → Task D → List Test
  change_tests a policy user attr p =
      (user && rt_policy policy && a.no_rt_runtime, eperm)
      ∷ (user && dl_policy policy && not attr.sched_flags.sugov && a.dl_denied, eperm)
      ∷ ((dl_policy policy || dl_prio p.prio) && a.dl_overflow, ebusy)
      ∷ []

  -- Whether the call changes anything besides the flag for forked children.
  unfoldable pub changes : Answers D → Policy → Attr D → Task D → Bool
  unfolding eq_policy
  changes a policy attr p =
      not (eq_policy policy p.policy)
      || (fair_policy policy && not (eqb_ℤ attr.sched_nice (task_nice p)))
      || (rt_policy policy && not (attr.sched_priority == p.rt_priority))
      || (dl_policy policy && a.dl_changed)
      || attr.sched_flags.util_clamp

  -- `__setscheduler_params`, for the policy that SETPARAM_POLICY stands for
  unfoldable pub setscheduler_params : Policy → Attr D → Task D → Task D
  unfolding normal_prio
  setscheduler_params policy attr p =
      let q = record p {
        policy = policy;
        dl = if dl_policy policy then attr.sched_dl else p.dl;
        static_prio = if fair_policy policy then nice_to_prio attr.sched_nice else p.static_prio;
        rt_priority = attr.sched_priority;
      } in
      record q { normal_prio = normal_prio q }

  -- From the label `change` on, where no test stops it.
  unfoldable pub apply_change : Answers D → Bool → Policy → Bool → Attr D → Task D → Task D
  unfolding setscheduler_params setscheduler_prio rt_effective_prio normal_prio_of
  apply_change a pi policy reset attr p =
      let base = normal_prio_of policy attr.sched_priority attr.sched_nice in
      let newprio = if pi then rt_effective_prio a.pi_top base else base in
      let q = record p { sched_reset_on_fork = reset } in
      if attr.sched_flags.keep_params
      then q
      else setscheduler_prio (setscheduler_params policy attr q) newprio

  abbrev pub call_tests : Answers D → Bool → Policy → Bool → Attr D → Task D → List Test
  call_tests a user policy reset attr p =
      param_tests a policy attr
      ++ (if user && not a.capable then unprivileged_tests a policy reset attr p else [])
      ++ later_tests a user attr

  -- `__sched_setscheduler` with a resolved policy
  unfoldable pub set_resolved :
      Answers D → Bool → Bool → Policy → Bool → Attr D → Task D → Ret × Task D
  unfolding first_error changes apply_change
  set_resolved a user pi policy reset attr p =
      elim (first_error (call_tests a user policy reset attr p)) [
        | some e ↦ (e, p)
        | none ↦
            if not (changes a policy attr p)
            then (success, record p { sched_reset_on_fork = reset })
            else elim (first_error (change_tests a policy user attr p)) [
              | some e ↦ (e, p)
              | none ↦ (success, apply_change a pi policy reset attr p)
            ]
      ]

  -- `__sched_setscheduler`
  unfoldable pub sched_setscheduler_attr : Answers D → Bool → Bool → Attr D → Task D → Ret × Task D
  unfolding resolve set_resolved
  sched_setscheduler_attr a user pi attr p = elim (resolve attr p) [
    | none ↦ (einval, p)
    | some (policy, reset) ↦ set_resolved a user pi policy reset attr p
  ]

  -- The attributes that `_sched_setscheduler` builds; `reset` is the bit SCHED_RESET_ON_FORK of its
  -- policy argument, which it takes out of a policy other than SETPARAM_POLICY.
  abbrev pub param_attr : PolicyArg → Bool → ℕ → Task D → Attr D
  param_attr policy reset priority p = record {
    sched_policy = policy;
    sched_priority = priority;
    sched_nice = prio_to_nice p.static_prio;
    sched_flags = record {
      reset_on_fork = reset;
      keep_params = false;
      util_clamp = false;
      sugov = false;
      unknown = false;
    };
    sched_dl = p.dl;
  }

  unfoldable pub sched_setscheduler : Answers D → PolicyArg → Bool → ℕ → Task D → Ret × Task D
  unfolding sched_setscheduler_attr
  sched_setscheduler a policy reset priority p =
      sched_setscheduler_attr a true true (param_attr policy reset priority p) p

  unfoldable pub sched_setscheduler_nocheck :
      Answers D → PolicyArg → Bool → ℕ → Task D → Ret × Task D
  unfolding sched_setscheduler_attr
  sched_setscheduler_nocheck a policy reset priority p =
      sched_setscheduler_attr a false true (param_attr policy reset priority p) p
