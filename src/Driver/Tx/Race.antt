-- ===== src/Driver/Tx/Race.antt =====
-- `rtl8169_start_xmit` and `rtl_tx` of r8169_main.c at the same time: the counters of the ring and
-- the stopping and waking of the queue, in steps between which the other may come. Stores are seen
-- in their order, as the barriers of both functions ask for; the stack calls one
-- `rtl8169_start_xmit` at a time and only while the queue runs, and NAPI one `rtl_tx`.
pub mod Invariant
pub mod Xmit
pub mod Clean
pub mod Live
use cros_rt.Base.{ℕ, ◌+◌, ◌%◌, ◌^◌, Bool, true, false, List, [], ◌∷◌, leb, ◌==◌, if◌then◌else◌}
use cros_rt.Driver.Tx.Counters.{in_flight, room_at}

-- Where `rtl8169_start_xmit` stands: not called, after its first look at the ring, after `cur_tx`
-- has moved on, before `netif_stop_queue`, before its second look and before `netif_start_queue`.
pub data XmitPlace : Type 0 where
  xmit_idle xmit_admitted xmit_published xmit_stopping xmit_looking xmit_starting : XmitPlace

-- Where `rtl_tx` stands: not called, before it stores `dirty_tx`, before it reads whether the
-- queue is stopped, before it looks at the ring, and before `netif_wake_queue`.
pub data CleanPlace : Type 0 where
  clean_idle : CleanPlace
  clean_freed : ℕ → CleanPlace
  clean_stored clean_looking clean_waking : CleanPlace

-- `refused` records whether a packet was ever sent back with NETDEV_TX_BUSY.
pub record Race : Type 0 where
  pub cur_tx : ℕ
  pub dirty_tx : ℕ
  pub stopped : Bool
  pub refused : Bool
  pub xmit_at : XmitPlace
  pub clean_at : CleanPlace

-- The turn of one or the other, with the fragments of the next packet, or how many descriptors the
-- hardware is done with.
pub data Turn : Type 0 where
  xmit : (frags : ℕ) → Turn
  clean : (done : ℕ) → Turn

abbrev pub room : Race → Bool
room s = room_at s.cur_tx s.dirty_tx

unfoldable pub xmit_step : ℕ → XmitPlace → Race → Race
xmit_step frags xmit_idle s =
    if s.stopped
    then s
    else if room s
    then record s { xmit_at = xmit_admitted }
    else record s { stopped = true; refused = true }
xmit_step frags xmit_admitted s = record s {
  cur_tx = (s.cur_tx + (frags + 1)) % 2 ^ 32;
  xmit_at = xmit_published;
}
xmit_step frags xmit_published s = record s {
  xmit_at = if room s then xmit_idle else xmit_stopping;
}
xmit_step frags xmit_stopping s = record s { stopped = true; xmit_at = xmit_looking }
xmit_step frags xmit_looking s = record s { xmit_at = if room s then xmit_starting else xmit_idle }
xmit_step frags xmit_starting s = record s { stopped = false; xmit_at = xmit_idle }

-- The loop of `rtl_tx` frees what the hardware is done with, up to `cur_tx`.
abbrev pub freed : ℕ → Race → ℕ
freed done s =
    if leb done (in_flight s.cur_tx s.dirty_tx) then done else in_flight s.cur_tx s.dirty_tx

unfoldable pub clean_step : ℕ → CleanPlace → Race → Race
clean_step done clean_idle s =
    if freed done s == 0
    then s
    else record s { clean_at = clean_freed ((s.dirty_tx + freed done s) % 2 ^ 32) }
clean_step done (clean_freed dirty_tx) s = record s { dirty_tx = dirty_tx; clean_at = clean_stored }
clean_step done clean_stored s = record s {
  clean_at = if s.stopped then clean_looking else clean_idle;
}
clean_step done clean_looking s = record s {
  clean_at = if room s then clean_waking else clean_idle;
}
clean_step done clean_waking s = record s { stopped = false; clean_at = clean_idle }

unfoldable pub take_turn : Turn → Race → Race
unfolding xmit_step clean_step
take_turn (xmit frags) s = xmit_step frags s.xmit_at s
take_turn (clean done) s = clean_step done s.clean_at s

unfoldable pub take_turns : List Turn → Race → Race
take_turns [] s = s
take_turns (t ∷ l) s = take_turns l (take_turn t s)
