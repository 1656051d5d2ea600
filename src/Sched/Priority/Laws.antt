-- ===== src/Sched/Priority/Laws.antt =====
-- What every change of a priority keeps.
use cros_rt.Base.{
  ℕ, ◌≡◌, refl, sym, ◌∙◌, Bool, true, false, ◌||◌, Option, none, some, arith, if◌then◌else◌,
  Bool-cases, inl, inr,
}
use cros_rt.Base.Int.{ℤ, pos, negsuc, eqb_ℤ, ltb_ℤ, ◌≤ℤ◌, int_laws, eq_of_parts, +ℤ_parts}
use cros_rt.Sched.Task.{
  Task, fair_class, dl_policy, rt_policy, rt_prio, class_of, nice_to_prio, prio_to_nice,
  normal_prio, normal_prio_of, effective_prio, setscheduler_prio, rt_effective_prio,
}
use cros_rt.Sched.Setscheduler.{task_nice}
use cros_rt.Sched.Setscheduler.Laws.{IsConsistent}
use cros_rt.Sched.Priority.{set_user_nice, rt_mutex_setprio, Boosted, prio_of, number_of}

pub prio_of_nice : (nice : ℤ) → prio_to_nice (nice_to_prio nice) ≡ nice
prio_of_nice nice = eq_of_parts _ _ (omega int_laws)

pub nice_of_prio : (prio : ℤ) → nice_to_prio (prio_to_nice prio) ≡ prio
nice_of_prio prio = eq_of_parts _ _ (omega int_laws)

pub class_above : (prio : ℤ) → rt_prio prio ≡ false → class_of prio ≡ fair_class
unfolding class_of
class_above prio h = ground arith

pub effective_le : (top : Option ℤ) (prio : ℤ) → rt_effective_prio top prio ≤ℤ prio
unfolding rt_effective_prio
effective_le none prio = omega arith
effective_le (some top) prio = ground arith

module _ {D : Type 0} where
  -- A consistent task with a nice value in range, which runs at least at its normal priority.
  pub record IsRanked (p : Task D) : Type 0 where
    pub consistent : IsConsistent p
    pub lifted : p.prio ≤ℤ p.normal_prio
    pub lowest : p.static_prio ≤ℤ pos 139
    pub highest : pos 100 ≤ℤ p.static_prio

  pub fair_scale :
      (p : Task D)
      → dl_policy p.policy ≡ false
      → rt_policy p.policy ≡ false
      → normal_prio p ≡ p.static_prio
  unfolding normal_prio normal_prio_of
  fair_scale p no_dl no_rt = rw (no_dl, no_rt) (nice_of_prio p.static_prio)

  other_scale :
      (p : Task D) (static_prio : ℤ)
      → (dl_policy p.policy || rt_policy p.policy) ≡ true
      → normal_prio (record p { static_prio = static_prio }) ≡ normal_prio p
  unfolding normal_prio normal_prio_of
  other_scale p static_prio h = ground arith

  nice_range :
      (p : Task D) (nice : ℤ)
      → (eqb_ℤ (task_nice p) nice || ltb_ℤ nice (negsuc 19) || ltb_ℤ (pos 19) nice) ≡ false
      → (nice_to_prio nice ≤ℤ pos 139) × (pos 100 ≤ℤ nice_to_prio nice)
  nice_range p nice h =
      let low : ltb_ℤ nice (negsuc 19) ≡ false = ground arith in
      let high : ltb_ℤ (pos 19) nice ≡ false = ground arith in
      let e = +ℤ_parts nice (pos 120) in (ground arith, ground arith)

  -- A task under a policy without a priority gets a nice value.
  renice-IsRanked :
      (p : Task D) (static_prio : ℤ)
      → IsRanked p
      → dl_policy p.policy ≡ false
      → rt_policy p.policy ≡ false
      → static_prio ≤ℤ pos 139
      → pos 100 ≤ℤ static_prio
      → IsRanked (record (effective_prio (record p { static_prio = static_prio })).1 {
        prio = (effective_prio (record p { static_prio = static_prio })).0;
      })
  unfolding effective_prio
  renice-IsRanked p static_prio r no_dl no_rt low high =
      let scale = fair_scale (record p { static_prio = static_prio }) no_dl no_rt in
      let c = r.consistent in
      elim (Bool-cases (rt_prio p.prio)) [
        | inl lifted ↦ rw lifted (record {
          consistent = record {
            rt_range = c.rt_range;
            not_rt = c.not_rt;
            stored = refl;
            class = c.class;
          };
          lifted = rw scale (ground arith);
          lowest = low;
          highest = high;
        })
        | inr not_lifted ↦ rw not_lifted (record {
          consistent = record {
            rt_range = c.rt_range;
            not_rt = c.not_rt;
            stored = refl;
            class =
                c.class
                ∙ class_above p.prio not_lifted
                ∙ sym (class_above _ (rw scale (ground arith)));
          };
          lifted = omega arith;
          lowest = low;
          highest = high;
        })
      ]

  pub set_user_nice-IsRanked :
      (p : Task D) (nice : ℤ) → IsRanked p → IsRanked (set_user_nice p nice)
  unfolding set_user_nice
  set_user_nice-IsRanked p nice r =
      let c = r.consistent in
      let same = eqb_ℤ (task_nice p) nice || ltb_ℤ nice (negsuc 19) || ltb_ℤ (pos 19) nice in
      elim (Bool-cases same) [
        | inl stays ↦ rw (stays, set_user_nice) r
        | inr goes ↦
            let (low, high) = nice_range p nice goes in
            elim (Bool-cases (dl_policy p.policy || rt_policy p.policy)) [
              | inl has_priority ↦
                  rw (goes, has_priority, set_user_nice)
                    (record {
                      consistent = record {
                        rt_range = c.rt_range;
                        not_rt = c.not_rt;
                        stored = c.stored ∙ sym (other_scale p (nice_to_prio nice) has_priority);
                        class = c.class;
                      };
                      lifted = r.lifted;
                      lowest = low;
                      highest = high;
                    })
              | inr has_none ↦
                  rw (goes, has_none, set_user_nice)
                    (renice-IsRanked p (nice_to_prio nice) r (ground arith) (ground arith) low high)
            ]
      ]

  one_of-IsRanked :
      (first second : Bool) (x y z : Boosted D)
      → IsRanked x.task
      → IsRanked y.task
      → IsRanked z.task
      → IsRanked (if first then x else if second then y else z).task
  one_of-IsRanked true second x y z rx ry rz = rx
  one_of-IsRanked false true x y z rx ry rz = ry
  one_of-IsRanked false false x y z rx ry rz = rz

  setscheduler_prio-IsRanked :
      (p : Task D) (prio : ℤ)
      → IsRanked p
      → prio ≤ℤ p.normal_prio
      → IsRanked (setscheduler_prio p prio)
  unfolding setscheduler_prio normal_prio
  setscheduler_prio-IsRanked p prio r le = record {
    consistent = record {
      rt_range = r.consistent.rt_range;
      not_rt = r.consistent.not_rt;
      stored = r.consistent.stored;
      class = refl;
    };
    lifted = le;
    lowest = r.lowest;
    highest = r.highest;
  }

  pub rt_mutex_setprio-IsRanked :
      (is_idle : Bool) (b : Boosted D) (pi_task : Option (ℕ × ℤ))
      → IsRanked b.task
      → IsRanked (rt_mutex_setprio is_idle b pi_task).task
  unfolding rt_mutex_setprio
  rt_mutex_setprio-IsRanked is_idle b pi_task r =
      let prio = rt_effective_prio (prio_of pi_task) b.task.normal_prio in
      one_of-IsRanked _ _ b (record b { pi_top_task = number_of pi_task }) _ r r
        (setscheduler_prio-IsRanked b.task prio r
          (effective_le (prio_of pi_task) b.task.normal_prio))
