-- ===== src/Driver/Tx/Race/Live.antt =====
-- No interleaving of `rtl8169_start_xmit` and `rtl_tx` overruns the ring or forgets the queue.
use cros_rt.Base.{
  ◌^◌, ◌≤◌, ◌<◌, ◌≡◌, refl, sym, ◌∙◌, ◌⊎◌, inl, inr, Bool, true, false, List, [], ◌∷◌,
  true_ne_false, subst,
}
use cros_rt.Driver.Tx.Counters.{in_flight}
use cros_rt.Driver.Tx.Race.{
  xmit_idle, clean_idle, Race, Turn, xmit, clean, room, xmit_step, clean_step, take_turn,
  take_turns,
}
use cros_rt.Driver.Tx.Race.Invariant.{XmitCares, CleanCares, XmitKnows, CleanKnows, IsLive}
use cros_rt.Driver.Tx.Race.Xmit.{xmit_step-IsLive}
use cros_rt.Driver.Tx.Race.Clean.{clean_step-IsLive}

abbrev pub AllSmall : List Turn → Type 0
AllSmall [] = Unit
AllSmall (xmit frags ∷ l) = (frags ≤ 17) × AllSmall l
AllSmall (clean done ∷ l) = AllSmall l

take_turns-IsLive : (l : List Turn) (s : Race) → AllSmall l → IsLive s → IsLive (take_turns l s)
unfolding take_turns take_turn
take_turns-IsLive [] s small h = h
take_turns-IsLive (xmit frags ∷ l) s small h =
    take_turns-IsLive l (xmit_step frags s.xmit_at s) small.1
      (xmit_step-IsLive frags s.xmit_at s refl small.0 h)
take_turns-IsLive (clean done ∷ l) s small h =
    take_turns-IsLive l (clean_step done s.clean_at s) small
      (clean_step-IsLive done s.clean_at s refl h)

-- A ring at rest: the counters are 32-bit numbers, at most 256 descriptors are in flight, and the
-- queue is not stopped while a packet with the most fragments fits.
pub record IsResting (s : Race) : Type 0 where
  pub cur_word : s.cur_tx < 2 ^ 32
  pub dirty_word : s.dirty_tx < 2 ^ 32
  pub bounded : in_flight s.cur_tx s.dirty_tx ≤ 256
  pub xmit_rests : s.xmit_at ≡ xmit_idle
  pub clean_rests : s.clean_at ≡ clean_idle
  pub not_stuck : s.stopped ≡ true → room s ≡ false

no_room : (b : Bool) → (b ≡ true → ⊥) → b ≡ false
no_room true h = absurd (h refl)
no_room false h = refl

resting-IsLive : (s : Race) → IsResting s → IsLive s
resting-IsLive s h = record {
  cur_word = h.cur_word;
  dirty_word = h.dirty_word;
  bounded = h.bounded;
  admitted = subst (λ p. XmitKnows p s.cur_tx s.dirty_tx) (sym h.xmit_rests) tt;
  freeing = subst (λ p. CleanKnows p s.cur_tx s.dirty_tx) (sym h.clean_rests) tt;
  cared = λ r st av. absurd (true_ne_false (sym av ∙ h.not_stuck st));
}

-- However `rtl8169_start_xmit`, with packets of at most 17 fragments, and `rtl_tx` interleave,
-- from a ring at rest at most the 256 descriptors are ever in flight, so none that is in use is
-- filled again.
pub take_turns-bounded :
    (l : List Turn) (s : Race)
    → AllSmall l
    → IsResting s
    → in_flight (take_turns l s).cur_tx (take_turns l s).dirty_tx ≤ 256
take_turns-bounded l s small h =
    let live = take_turns-IsLive l s small (resting-IsLive s h) in live.bounded

nobody_cares :
    (t : Race)
    → t.xmit_at ≡ xmit_idle
    → t.clean_at ≡ clean_idle
    → XmitCares t.xmit_at ⊎ CleanCares t.clean_at
    → ⊥
nobody_cares t x c (inl k) = subst XmitCares x k
nobody_cares t x c (inr k) = subst CleanCares c k

-- However `rtl8169_start_xmit`, with packets of at most 17 fragments, and `rtl_tx` interleave, the
-- queue is not forgotten: from a ring at rest, whenever both are at rest again and no packet was
-- refused, the ring is at rest, so at most 256 descriptors are in flight and the queue is not
-- stopped while a packet with the most fragments fits.
pub take_turns-IsResting :
    (l : List Turn) (s : Race)
    → AllSmall l
    → IsResting s
    → (take_turns l s).xmit_at ≡ xmit_idle
    → (take_turns l s).clean_at ≡ clean_idle
    → (take_turns l s).refused ≡ false
    → IsResting (take_turns l s)
take_turns-IsResting l s small h x c r =
    let t = take_turns l s in
    let live = take_turns-IsLive l s small (resting-IsLive s h) in
    record {
      cur_word = live.cur_word;
      dirty_word = live.dirty_word;
      bounded = live.bounded;
      xmit_rests = x;
      clean_rests = c;
      not_stuck = λ st. no_room (room t) (λ av. nobody_cares t x c (live.cared r st av));
    }
