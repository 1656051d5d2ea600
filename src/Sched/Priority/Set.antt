-- ===== src/Sched/Priority/Set.antt =====
-- sched_setscheduler and sched_setparam keep a task ranked.
use cros_rt.Base.{
  ℕ, ◌≡◌, refl, Bool, true, false, Option, arith, if◌then◌else◌, Bool-cases, inl, inr,
}
use cros_rt.Base.Int.{ℤ, ◌≤ℤ◌}
use cros_rt.Sched.Task.{
  fair_policy, Policy, Task, nice_to_prio, prio_to_nice, normal_prio, normal_prio_of,
  rt_effective_prio,
}
use cros_rt.Sched.Setscheduler.Checks.{Ending, refused, kept, changed, set_resolved-Ending}
use cros_rt.Sched.Setscheduler.{
  PolicyArg, setparam, invalid, known, param_attr, sched_setscheduler, Attr, Answers, apply_change,
  sched_setscheduler_attr, resolve, Ret,
}
use cros_rt.Sched.Setscheduler.Laws.{IsConsistent, sched_setscheduler_attr-IsConsistent}
use cros_rt.Sched.Priority.Laws.{IsRanked, nice_of_prio, effective_le}

static_kept :
    (fair : Bool) (nice static_prio : ℤ)
    → nice ≡ prio_to_nice static_prio
    → (if fair then nice_to_prio nice else static_prio) ≡ static_prio
static_kept true nice static_prio n = rw n (nice_of_prio static_prio)
static_kept false nice static_prio n = refl

lent_le :
    (pi : Bool) (top : Option ℤ) (base : ℤ)
    → (if pi then rt_effective_prio top base else base) ≤ℤ base
lent_le true top base = effective_le top base
lent_le false top base = omega arith

module _ {D : Type 0} where
  Ending-IsRanked :
      (a : Answers D) (user pi : Bool) (policy : Policy) (reset : Bool) (attr : Attr D) (p : Task D)
      {r : Ret × Task D}
      → Ending a user pi policy reset attr p r
      → attr.sched_nice ≡ prio_to_nice p.static_prio
      → IsRanked p
      → IsConsistent r.1
      → IsRanked r.1
  unfolding apply_change normal_prio
  Ending-IsRanked a user pi policy reset attr p (refused e bad) n r c = r
  Ending-IsRanked a user pi policy reset attr p (kept ok same) n r c = record {
    consistent = c;
    lifted = r.lifted;
    lowest = r.lowest;
    highest = r.highest;
  }
  Ending-IsRanked a user pi policy reset attr p (changed ok ok') n r c =
      elim (Bool-cases attr.sched_flags.keep_params) [
        | inl keep ↦ record {
          consistent = c;
          lifted = rw (keep, apply_change) r.lifted;
          lowest = rw (keep, apply_change) r.lowest;
          highest = rw (keep, apply_change) r.highest;
        }
        | inr all ↦
            let static = static_kept (fair_policy policy) attr.sched_nice p.static_prio n in
            let base = normal_prio_of policy attr.sched_priority attr.sched_nice in
            record {
              consistent = c;
              lifted = rw (all, apply_change) (rw (static, ← n) (lent_le pi a.pi_top base));
              lowest = rw (all, apply_change) (rw static r.lowest);
              highest = rw (all, apply_change) (rw static r.highest);
            }
      ]

  pub sched_setscheduler-IsRanked :
      (a : Answers D) (policy : PolicyArg) (reset : Bool) (priority : ℕ) (p : Task D)
      → IsRanked p
      → IsRanked (sched_setscheduler a policy reset priority p).1
  unfolding sched_setscheduler sched_setscheduler_attr resolve
  sched_setscheduler-IsRanked a setparam reset priority p r =
      let attr = param_attr setparam reset priority p in
      Ending-IsRanked a true true p.policy p.sched_reset_on_fork attr p
        (set_resolved-Ending a true true p.policy p.sched_reset_on_fork attr p) refl r
        (sched_setscheduler_attr-IsConsistent a true true attr p r.consistent)
  sched_setscheduler-IsRanked a invalid reset priority p r = r
  sched_setscheduler-IsRanked a (known policy) reset priority p r =
      let attr = param_attr (known policy) reset priority p in
      Ending-IsRanked a true true policy reset attr p
        (set_resolved-Ending a true true policy reset attr p) refl r
        (sched_setscheduler_attr-IsConsistent a true true attr p r.consistent)
