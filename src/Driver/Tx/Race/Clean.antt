-- ===== src/Driver/Tx/Race/Clean.antt =====
-- The steps of `rtl_tx` and the invariant.
use cros_rt.Base.{
  ℕ, ◌+◌, ◌%◌, ◌^◌, ◌≤◌, ◌<◌, ◌≡◌, sym, ◌∙◌, inl, inr, true, false, ◌==◌, Bool-cases, arith,
  true_ne_false, subst,
}
use cros_rt.Driver.Tx.Counters.{in_flight, avail_mono}
use cros_rt.Driver.Tx.Race.{
  XmitPlace, xmit_idle, xmit_admitted, xmit_published, xmit_stopping, xmit_looking, xmit_starting,
  CleanPlace, clean_idle, clean_freed, clean_stored, clean_looking, clean_waking, Race, room, freed,
  clean_step,
}
use cros_rt.Driver.Tx.Race.Invariant.{
  XmitCares, CleanCares, XmitKnows, CleanKnows, IsLive, moved-IsLive,
}

-- What was freed lies between the old and the new `dirty_tx`.
freed-between :
    (done : ℕ) (s : Race)
    → IsLive s
    → in_flight s.cur_tx ((s.dirty_tx + freed done s) % 2 ^ 32) ≤ in_flight s.cur_tx s.dirty_tx
freed-between done s h =
    let some_freed : freed done s ≤ in_flight s.cur_tx s.dirty_tx = ground arith in
    omega (arith, some_freed, h.cur_word, h.dirty_word, h.bounded)

-- Freeing makes no room go away.
stored-admitted :
    (p : XmitPlace) (dirty : ℕ) (s : Race)
    → IsLive s
    → dirty < 2 ^ 32
    → in_flight s.cur_tx dirty ≤ in_flight s.cur_tx s.dirty_tx
    → XmitKnows p s.cur_tx s.dirty_tx
    → XmitKnows p s.cur_tx dirty
stored-admitted xmit_idle dirty s h word less k = tt
stored-admitted xmit_admitted dirty s h word less k =
    avail_mono s.cur_tx s.dirty_tx dirty h.cur_word h.dirty_word word less h.bounded k
stored-admitted xmit_published dirty s h word less k = tt
stored-admitted xmit_stopping dirty s h word less k = tt
stored-admitted xmit_looking dirty s h word less k = tt
stored-admitted xmit_starting dirty s h word less k = tt

cared_by_xmit :
    (s : Race)
    → IsLive s
    → (CleanCares s.clean_at → ⊥)
    → s.refused ≡ false
    → s.stopped ≡ true
    → room s ≡ true
    → XmitCares s.xmit_at
cared_by_xmit s h nobody r st av = elim (h.cared r st av) [ inl x ↦ x | inr c ↦ absurd (nobody c) ]

pub clean_step-IsLive :
    (done : ℕ) (p : CleanPlace) (s : Race)
    → s.clean_at ≡ p
    → IsLive s
    → IsLive (clean_step done p s)
unfolding clean_step
clean_step-IsLive done clean_idle s at h = elim (Bool-cases (freed done s == 0)) [
  | inl nothing ↦ simp (nothing, clean_step) h
  | inr some_done ↦
      simp (some_done, clean_step)
        (moved-IsLive s h _ _ _ _ h.admitted (omega arith, freed-between done s h)
          (λ r st av. inl (cared_by_xmit s h (rw at (λ x. x)) r st av)))
]
clean_step-IsLive done (clean_freed dirty) s at h =
    let knows : CleanKnows (clean_freed dirty) s.cur_tx s.dirty_tx =
      subst (λ c. CleanKnows c s.cur_tx s.dirty_tx) at h.freeing in
    record {
      cur_word = h.cur_word;
      dirty_word = knows.0;
      bounded = omega (arith, knows.1, h.bounded);
      admitted = stored-admitted s.xmit_at dirty s h knows.0 knows.1 h.admitted;
      freeing = tt;
      cared = λ r st av. inr tt;
    }
clean_step-IsLive done clean_stored s at h = elim (Bool-cases s.stopped) [
  | inl st ↦ simp (st, clean_step) (moved-IsLive s h _ _ _ _ h.admitted tt (λ r st' av. inr tt))
  | inr runs ↦ simp (runs, clean_step) (moved-IsLive s h _ _ _ _ h.admitted tt (λ r st' av. cc))
]
clean_step-IsLive done clean_looking s at h = elim (Bool-cases (room s)) [
  | inl av ↦ simp (av, clean_step) (moved-IsLive s h _ _ _ _ h.admitted tt (λ r st av'. inr tt))
  | inr full ↦
      simp (full, clean_step)
        (moved-IsLive s h _ _ _ _ h.admitted tt
          (λ r st av'. absurd (true_ne_false (sym av' ∙ full))))
]
clean_step-IsLive done clean_waking s at h = moved-IsLive s h _ _ _ _ h.admitted tt (λ r st av. cc)
