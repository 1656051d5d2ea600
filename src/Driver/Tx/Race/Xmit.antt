-- ===== src/Driver/Tx/Race/Xmit.antt =====
-- The steps of `rtl8169_start_xmit` and the invariant.
use cros_rt.Base.{
  ℕ, ◌+◌, ◌%◌, ◌^◌, ◌≤◌, ◌≡◌, sym, ◌∙◌, inl, inr, true, false, Bool-cases, arith, ltb→lt,
  true_ne_false,
}
use cros_rt.Driver.Tx.Counters.{in_flight, in_flight_add, avail_iff}
use cros_rt.Driver.Tx.Race.{
  XmitPlace, xmit_idle, xmit_admitted, xmit_published, xmit_stopping, xmit_looking, xmit_starting,
  CleanPlace, clean_idle, clean_freed, clean_stored, clean_looking, clean_waking, Race, room,
  xmit_step,
}
use cros_rt.Driver.Tx.Race.Invariant.{XmitCares, CleanCares, CleanKnows, IsLive, moved-IsLive}

cared_by_clean :
    (s : Race)
    → IsLive s
    → (XmitCares s.xmit_at → ⊥)
    → s.refused ≡ false
    → s.stopped ≡ true
    → room s ≡ true
    → CleanCares s.clean_at
cared_by_clean s h nobody r st av = elim (h.cared r st av) [ inl x ↦ absurd (nobody x) | inr c ↦ c ]

-- The next packet takes as many descriptors as it has fragments, and one more.
published-bounded :
    (frags : ℕ) (s : Race)
    → frags ≤ 17
    → IsLive s
    → room s ≡ true
    → in_flight ((s.cur_tx + (frags + 1)) % 2 ^ 32) s.dirty_tx
        ≡ in_flight s.cur_tx s.dirty_tx + (frags + 1)
      × (in_flight s.cur_tx s.dirty_tx + (frags + 1) ≤ 256)
published-bounded frags s small h av =
    let few =
      ltb→lt (in_flight s.cur_tx s.dirty_tx) 239
        (sym (avail_iff s.cur_tx s.dirty_tx h.cur_word h.dirty_word h.bounded) ∙ av) in
    (
      in_flight_add s.cur_tx s.dirty_tx (frags + 1) h.cur_word h.dirty_word
          (omega (arith, few, small)),
      omega (arith, few, small),
    )

published-freeing :
    (m : ℕ) (c : CleanPlace) (s : Race)
    → IsLive s
    → in_flight s.cur_tx s.dirty_tx + m ≤ 256
    → CleanKnows c s.cur_tx s.dirty_tx
    → CleanKnows c ((s.cur_tx + m) % 2 ^ 32) s.dirty_tx
published-freeing m clean_idle s h b k = tt
published-freeing m (clean_freed dirty) s h b k = (
  k.0,
  rw
      (
        in_flight_add s.cur_tx dirty m h.cur_word k.0 (omega (arith, k.1, b)),
        in_flight_add s.cur_tx s.dirty_tx m h.cur_word h.dirty_word (omega (arith, b)),
      )
      (omega (arith, k.1)),
)
published-freeing m clean_stored s h b k = tt
published-freeing m clean_looking s h b k = tt
published-freeing m clean_waking s h b k = tt

pub xmit_step-IsLive :
    (frags : ℕ) (p : XmitPlace) (s : Race)
    → s.xmit_at ≡ p
    → frags ≤ 17
    → IsLive s
    → IsLive (xmit_step frags p s)
unfolding xmit_step
xmit_step-IsLive frags xmit_idle s at small h = elim (Bool-cases s.stopped) [
  | inl st ↦ simp (st, xmit_step) h
  | inr runs ↦ elim (Bool-cases (room s)) [
    | inl av ↦ simp (runs, av, xmit_step) (moved-IsLive s h _ _ _ _ av h.freeing (λ r st av'. cc))
    | inr full ↦
        simp (runs, full, xmit_step)
          (moved-IsLive s h _ _ _ _ h.admitted h.freeing (λ r st av'. cc))
  ]
]
xmit_step-IsLive frags xmit_admitted s at small h =
    let av : room s ≡ true = rw at at h.admitted in
    let (more, fits) = published-bounded frags s small h av in
    record {
      cur_word = omega arith;
      dirty_word = h.dirty_word;
      bounded = omega (arith, more, fits);
      admitted = tt;
      freeing = published-freeing (frags + 1) s.clean_at s h fits h.freeing;
      cared = λ r st av'. inr (cared_by_clean s h (rw at (λ x. x)) r st av);
    }
xmit_step-IsLive frags xmit_published s at small h = elim (Bool-cases (room s)) [
  | inl av ↦
      rw (av, xmit_step)
        (moved-IsLive s h _ _ _ _ tt h.freeing
          (λ r st av'. inr (cared_by_clean s h (rw at (λ x. x)) r st av')))
  | inr full ↦
      rw (full, xmit_step)
        (moved-IsLive s h _ _ _ _ tt h.freeing
          (λ r st av'. inr (cared_by_clean s h (rw at (λ x. x)) r st av')))
]
xmit_step-IsLive frags xmit_stopping s at small h =
    moved-IsLive s h _ _ _ _ tt h.freeing (λ r st av'. inl tt)
xmit_step-IsLive frags xmit_looking s at small h = elim (Bool-cases (room s)) [
  | inl av ↦ rw (av, xmit_step) (moved-IsLive s h _ _ _ _ tt h.freeing (λ r st av'. inl tt))
  | inr full ↦
      rw (full, xmit_step)
        (moved-IsLive s h _ _ _ _ tt h.freeing
          (λ r st av'. absurd (true_ne_false (sym av' ∙ full))))
]
xmit_step-IsLive frags xmit_starting s at small h =
    moved-IsLive s h _ _ _ _ tt h.freeing (λ r st av'. cc)
