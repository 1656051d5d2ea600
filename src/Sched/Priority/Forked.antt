-- ===== src/Sched/Priority/Forked.antt =====
-- What sched_fork passes on to a child.
use cros_rt.Base.{
  ◌≡◌, refl, sym, ap, ◌∙◌, true, false, ◌||◌, none, some, arith, if◌then◌else◌, Bool-cases, inl,
  inr, ◌⊎◌,
}
use cros_rt.Base.Int.{ℤ, pos, ltb_ℤ, ◌+ℤ◌, ◌≤ℤ◌, -ℤ_parts}
use cros_rt.Base.Cint.{ -ℤ-pos}
use cros_rt.Sched.Task.{
  Task, other, rt_class, fair_class, dl_policy, rt_policy, dl_prio, rt_prio, class_of, nice_to_prio,
  prio_to_nice, normal_prio, normal_prio_of,
}
use cros_rt.Sched.Priority.{finish_fork, sched_fork, revert}
use cros_rt.Sched.Priority.Laws.{IsRanked, fair_scale}

zero_nice : nice_to_prio (pos 0) ≡ pos 120
unfolding ◌+ℤ◌
zero_nice = refl

class_below :
    (prio : ℤ)
    → dl_prio prio ≡ false
    → class_of prio ≡ (if rt_prio prio then rt_class else fair_class)
unfolding class_of
class_below prio h = ground arith

module _ {D : Type 0} where
  -- What a parent passes on to its child.
  pub record IsChild (p q : Task D) : Type 0 where
    pub ranked : IsRanked q
    pub own_priority : q.prio ≡ q.normal_prio
    pub flag : q.sched_reset_on_fork ≡ false
    pub kept :
        p.sched_reset_on_fork ≡ false
        → (q.policy ≡ p.policy) × (q.rt_priority ≡ p.rt_priority) × (q.static_prio ≡ p.static_prio)
    pub reverted :
        p.sched_reset_on_fork ≡ true
        → (rt_policy q.policy ≡ false) × (dl_policy q.policy ≡ false) × (pos 120 ≤ℤ q.static_prio)

  -- The normal priority is below 0 exactly under SCHED_DEADLINE.
  scale : (p : Task D) → IsRanked p → dl_prio p.normal_prio ≡ dl_policy p.policy
  unfolding normal_prio normal_prio_of
  scale p r =
      let c = r.consistent in
      elim (Bool-cases (dl_policy p.policy)) [
        | inl is_dl ↦ rw (is_dl, c.stored, is_dl) refl
        | inr no_dl ↦ elim (Bool-cases (rt_policy p.policy)) [
          | inl is_rt ↦
              let range = c.rt_range is_rt in
              rw (no_dl, c.stored, no_dl, is_rt, -ℤ-pos 99 p.rt_priority range.1) (ground arith)
          | inr no_rt ↦
              rw (no_dl, c.stored, fair_scale p no_dl no_rt) (let h = r.highest in ground arith)
        ]
      ]

  -- A task that has been reset for forking.
  record IsReverted (q : Task D) : Type 0 where
    no_rt : rt_policy q.policy ≡ false
    no_dl : dl_policy q.policy ≡ false
    no_priority : q.rt_priority ≡ 0
    not_negative : pos 120 ≤ℤ q.static_prio
    lowest : q.static_prio ≤ℤ pos 139
    prio : q.prio ≡ q.static_prio
    normal_prio : q.normal_prio ≡ q.static_prio
    flag : q.sched_reset_on_fork ≡ false

  revert-IsReverted :
      (p : Task D)
      → (rt_policy p.policy ≡ false → p.rt_priority ≡ 0)
      → p.static_prio ≤ℤ pos 139
      → IsReverted (revert p)
  unfolding revert
  revert-IsReverted p not_rt low = elim (Bool-cases (dl_policy p.policy || rt_policy p.policy)) [
    | inl had_priority ↦
        rw (had_priority, revert)
          (record {
            no_rt = refl;
            no_dl = refl;
            no_priority = refl;
            not_negative = rw zero_nice (omega arith);
            lowest = rw zero_nice (omega arith);
            prio = refl;
            normal_prio = refl;
            flag = refl;
          })
    | inr had_none ↦
        let no_rt : rt_policy p.policy ≡ false = ground arith in
        let no_dl : dl_policy p.policy ≡ false = ground arith in
        elim (Bool-cases (ltb_ℤ (prio_to_nice p.static_prio) (pos 0))) [
          | inl negative ↦
              rw (had_none, negative, revert)
                (record {
                  no_rt = no_rt;
                  no_dl = no_dl;
                  no_priority = not_rt no_rt;
                  not_negative = rw zero_nice (omega arith);
                  lowest = rw zero_nice (omega arith);
                  prio = refl;
                  normal_prio = refl;
                  flag = refl;
                })
          | inr not_negative ↦
              rw (had_none, not_negative, revert)
                (record {
                  no_rt = no_rt;
                  no_dl = no_dl;
                  no_priority = not_rt no_rt;
                  not_negative = let e = -ℤ_parts p.static_prio (pos 120) in ground arith;
                  lowest = low;
                  prio = refl;
                  normal_prio = refl;
                  flag = refl;
                })
        ]
  ]

  reverted-IsChild :
      (p r : Task D)
      → IsReverted r
      → p.sched_reset_on_fork ≡ true
      → IsChild p (record r { sched_class = if rt_prio r.prio then rt_class else fair_class })
  unfolding normal_prio normal_prio_of
  reverted-IsChild p r v h = record {
    ranked = record {
      consistent = record {
        rt_range = λ rt. absurd (ground arith);
        not_rt = λ e. v.no_priority;
        stored = v.normal_prio ∙ sym (fair_scale r v.no_dl v.no_rt);
        class = sym (class_below r.prio (let n = v.not_negative in rw v.prio (ground arith)));
      };
      lifted = rw (v.prio, v.normal_prio) (omega arith);
      lowest = v.lowest;
      highest = let n = v.not_negative in omega arith;
    };
    own_priority = v.prio ∙ sym v.normal_prio;
    flag = v.flag;
    kept = λ e. absurd (ground arith);
    reverted = λ e. (v.no_rt, v.no_dl, v.not_negative);
  }

  plain-IsChild :
      (p : Task D)
      → IsRanked p
      → p.sched_reset_on_fork ≡ false
      → dl_prio p.normal_prio ≡ false
      → IsChild p (record p {
        state = other;
        prio = p.normal_prio;
        sched_class = if rt_prio p.normal_prio then rt_class else fair_class;
      })
  unfolding normal_prio
  plain-IsChild p r h no_dl = record {
    ranked = record {
      consistent = record {
        rt_range = r.consistent.rt_range;
        not_rt = r.consistent.not_rt;
        stored = r.consistent.stored;
        class = sym (class_below p.normal_prio no_dl);
      };
      lifted = omega arith;
      lowest = r.lowest;
      highest = r.highest;
    };
    own_priority = refl;
    flag = h;
    kept = λ e. (refl, refl, refl);
    reverted = λ e. absurd (ground arith);
  }

  finish_fork-some :
      (p : Task D)
      → dl_prio p.prio ≡ false
      → finish_fork p
        ≡ some (record p { sched_class = if rt_prio p.prio then rt_class else fair_class })
  unfolding finish_fork
  finish_fork-some p h = rw (h, finish_fork) refl

  pub sched_fork-IsChild :
      (p : Task D)
      → IsRanked p
      → ((p.sched_reset_on_fork ≡ false) × (dl_policy p.policy ≡ true) × (sched_fork p p ≡ none))
        ⊎ ((q : Task D) × (sched_fork p p ≡ some q) × IsChild p q)
  unfolding sched_fork finish_fork
  sched_fork-IsChild p r =
      let q = record p { state = other; prio = p.normal_prio } in
      elim (Bool-cases p.sched_reset_on_fork) [
        | inl resets ↦
            let v = revert-IsReverted q r.consistent.not_rt r.lowest in
            let not_dl : dl_prio (revert q).prio ≡ false =
              let n = v.not_negative in rw v.prio (ground arith) in
            inr (
              _,
              ap (λ b. finish_fork (if b then revert q else q)) resets
                  ∙ finish_fork-some (revert q) not_dl,
              reverted-IsChild p (revert q) v resets,
            )
        | inr keeps ↦ elim (Bool-cases (dl_policy p.policy)) [
          | inl is_dl ↦
              inl (keeps, is_dl, rw (keeps, sched_fork, scale p r ∙ is_dl, finish_fork) refl)
          | inr no_dl ↦
              let e = scale p r ∙ no_dl in
              inr (_, rw (keeps, sched_fork, e, finish_fork) refl, plain-IsChild p r keeps e)
        ]
      ]
