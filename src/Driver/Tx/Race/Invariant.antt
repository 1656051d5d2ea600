-- ===== src/Driver/Tx/Race/Invariant.antt =====
-- What no interleaving of `rtl8169_start_xmit` and `rtl_tx` breaks.
use cros_rt.Base.{ℕ, ◌^◌, ◌≤◌, ◌<◌, ◌≡◌, ◌⊎◌, Bool, true, false}
use cros_rt.Driver.Tx.Counters.{in_flight, room_at}
use cros_rt.Driver.Tx.Race.{
  XmitPlace, xmit_admitted, xmit_looking, xmit_starting, CleanPlace, clean_freed, clean_stored,
  clean_looking, clean_waking, Race, room,
}

-- Someone will look at the ring again or start the queue.
abbrev pub XmitCares : XmitPlace → Type 0
XmitCares xmit_looking = Unit
XmitCares xmit_starting = Unit
XmitCares _ = ⊥

abbrev pub CleanCares : CleanPlace → Type 0
CleanCares clean_stored = Unit
CleanCares clean_looking = Unit
CleanCares clean_waking = Unit
CleanCares _ = ⊥

-- What each place lets one rely on: room for a packet after the first look, and a stored `dirty_tx`
-- between the old one and `cur_tx`.
abbrev pub XmitKnows : XmitPlace → (cur dirty : ℕ) → Type 0
XmitKnows xmit_admitted cur dirty = room_at cur dirty ≡ true
XmitKnows _ cur dirty = Unit

abbrev pub CleanKnows : CleanPlace → (cur dirty : ℕ) → Type 0
CleanKnows (clean_freed later) cur dirty =
    (later < 2 ^ 32) × (in_flight cur later ≤ in_flight cur dirty)
CleanKnows _ cur dirty = Unit

pub record IsLive (s : Race) : Type 0 where
  pub cur_word : s.cur_tx < 2 ^ 32
  pub dirty_word : s.dirty_tx < 2 ^ 32
  pub bounded : in_flight s.cur_tx s.dirty_tx ≤ 256
  pub admitted : XmitKnows s.xmit_at s.cur_tx s.dirty_tx
  pub freeing : CleanKnows s.clean_at s.cur_tx s.dirty_tx
  pub cared :
      s.refused ≡ false
      → s.stopped ≡ true
      → room s ≡ true
      → XmitCares s.xmit_at ⊎ CleanCares s.clean_at

-- The counters stay, and the new places find what they rely on.
pub moved-IsLive :
    (s : Race)
    → IsLive s
    → (p : XmitPlace) → (c : CleanPlace) → (stopped refused : Bool)
    → XmitKnows p s.cur_tx s.dirty_tx
    → CleanKnows c s.cur_tx s.dirty_tx
    → (refused ≡ false → stopped ≡ true → room s ≡ true → XmitCares p ⊎ CleanCares c)
    → IsLive (record s { xmit_at = p; clean_at = c; stopped = stopped; refused = refused })
moved-IsLive s h p c stopped refused known freeing cared = record {
  cur_word = h.cur_word;
  dirty_word = h.dirty_word;
  bounded = h.bounded;
  admitted = known;
  freeing = freeing;
  cared = cared;
}
