-- ===== src/Tests/Race.antt =====
-- A large packet that fills the ring across the wrap of the counters, while `rtl_tx` frees what is
-- sent.
use cros_rt.Base.{◌≡◌, refl, false, List, [], ◌∷◌, arith}
use cros_rt.Driver.Tx.Race.{
  Race, Turn, xmit, clean, xmit_idle, clean_idle, take_turns, take_turn, xmit_step, clean_step,
}
use cros_rt.Driver.Tx.Race.Live.{IsResting, take_turns-IsResting}

-- 230 descriptors are in flight.
abbrev nearly_full : Race
nearly_full = record {
  cur_tx = 100;
  dirty_tx = 4294967166;
  stopped = false;
  refused = false;
  xmit_at = xmit_idle;
  clean_at = clean_idle;
}

nearly_full-IsResting : IsResting nearly_full
nearly_full-IsResting = record {
  cur_word = omega arith;
  dirty_word = omega arith;
  bounded = omega arith;
  xmit_rests = refl;
  clean_rests = refl;
  not_stuck = λ stopped. ground arith;
}

-- `rtl_tx` frees 40 descriptors and stores `dirty_tx` before the queue is stopped; the second look
-- of `rtl8169_start_xmit` sees it.
abbrev turns : List Turn
turns = xmit 17 ∷ xmit 17 ∷ xmit 17 ∷ clean 40 ∷ clean 0 ∷ clean 0 ∷ xmit 0 ∷ xmit 0 ∷ xmit 0 ∷ []

turns_end :
    ((take_turns turns nearly_full).xmit_at ≡ xmit_idle)
    × ((take_turns turns nearly_full).clean_at ≡ clean_idle)
    × ((take_turns turns nearly_full).refused ≡ false)
    × ((take_turns turns nearly_full).stopped ≡ false)
unfolding take_turns take_turn xmit_step clean_step
turns_end = (refl, refl, refl, refl)

take_turns-IsResting_example : IsResting (take_turns turns nearly_full)
take_turns-IsResting_example =
    take_turns-IsResting turns nearly_full (omega arith) nearly_full-IsResting turns_end.0
      turns_end.1 turns_end.2
