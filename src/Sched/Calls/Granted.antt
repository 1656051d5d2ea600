-- ===== src/Sched/Calls/Granted.antt =====
-- The priorities that sched_get_priority_min and sched_get_priority_max name are those that
-- sched_setscheduler grants.
use cros_rt.Base.{ap, ◌∙◌, ℕ, ◌≤◌, ◌<◌, ◌^◌, ◌≡◌, ◌≢◌, ◌↔◌, refl, false, some, arith}
use cros_rt.Base.Int.{pos}
use cros_rt.Sched.Task.{Policy, Task, dl_policy}
use cros_rt.Sched.Setscheduler.{PolicyArg, known, setparam, invalid, success, Answers}
use cros_rt.Sched.Setscheduler.Success.{Agrees, Fits, sched_setscheduler_iff}
use cros_rt.Sched.Abi.{mapped, to_u32, policy_of, policy_arg}
use cros_rt.Sched.Calls.{Threads, target, do_sched_setscheduler, sys_sched_setscheduler}
use cros_rt.Sched.Calls.Read.{
  value, priority_max, priority_min, sys_sched_get_priority_max, sys_sched_get_priority_min,
}

-- A number with a smallest priority is that of a policy, and has no flag.
record Named (n lo hi : ℕ) : Type 0 where
  policy : Policy
  arg : policy_arg (some n) ≡ (known policy, false)
  no_dl : n ≢ 6 → dl_policy policy ≡ false
  range : (priority : ℕ) → Fits policy priority ↔ (lo ≤ priority) × (priority ≤ hi)

range_lem :
    (policy : Policy) (lo hi : ℕ)
    → priority_min (known policy) ≡ value lo
    → priority_max (known policy) ≡ value hi
    → (priority : ℕ) → Fits policy priority ↔ (lo ≤ priority) × (priority ≤ hi)
unfolding priority_min priority_max
range_lem policy lo hi l h priority = (λ f. ground arith, λ r. (ground arith, ground arith))

policy_of-small : (n : ℕ) (policy : Policy) → policy_of n ≡ known policy → n < 7
unfolding policy_of
policy_of-small n policy e = ground arith

policy_of-not_dl :
    (n : ℕ) (policy : Policy) → policy_of n ≡ known policy → n ≢ 6 → dl_policy policy ≡ false
unfolding policy_of
policy_of-not_dl n policy e h = ground arith

no_flag : (n : ℕ) → n < 7 → policy_arg (some n) ≡ (policy_of n, false)
unfolding policy_arg
no_flag n h = ground arith

from_bounds :
    (n lo hi : ℕ) (arg : PolicyArg)
    → policy_of n ≡ arg
    → priority_min arg ≡ value lo
    → priority_max arg ≡ value hi
    → Named n lo hi
unfolding priority_min priority_max
from_bounds n lo hi setparam e l h = cc
from_bounds n lo hi invalid e l h = cc
from_bounds n lo hi (known policy) e l h = record {
  policy = policy;
  arg = no_flag n (policy_of-small n policy e) ∙ ap (λ arg. (arg, false)) e;
  no_dl = policy_of-not_dl n policy e;
  range = range_lem policy lo hi l h;
}

named :
    (n lo hi : ℕ)
    → sys_sched_get_priority_min (pos n) ≡ value lo
    → sys_sched_get_priority_max (pos n) ≡ value hi
    → Named n lo hi
unfolding sys_sched_get_priority_min sys_sched_get_priority_max
named n lo hi l h = from_bounds n lo hi (policy_of n) refl l h

-- Where a privileged caller asks for a policy other than SCHED_DEADLINE and nothing else in the
-- kernel objects, sched_setscheduler succeeds exactly at the priorities between what
-- sched_get_priority_min and sched_get_priority_max return for the policy.
pub setscheduler_iff :
    {D : Type 0} (a : Answers D) (s : Threads D) (pid n lo hi priority : ℕ) (p : Task D)
    → s.thread (target s pid) ≡ some p
    → Agrees a
    → n ≢ 6
    → sys_sched_get_priority_min (pos n) ≡ value lo
    → sys_sched_get_priority_max (pos n) ≡ value hi
    → priority < 2 ^ 31
    → ((sys_sched_setscheduler a (pos pid) (pos n) (mapped (pos priority)) s).0 ≡ success)
      ↔ (lo ≤ priority) × (priority ≤ hi)
unfolding sys_sched_setscheduler
setscheduler_iff a s pid n lo hi priority p here g not_dl l h small =
    let w = named n lo hi l h in
    let same : to_u32 (pos priority) ≡ priority = omega arith in
    let granted = sched_setscheduler_iff a g w.policy (w.no_dl not_dl) false priority p in
    let range = w.range priority in
    rw (here, w.arg, do_sched_setscheduler, same)
      (λ ok. range.0 (granted.0 ok), λ fits. granted.1 (range.1 fits))
