-- ===== src/Driver/Sending.antt =====
-- Sending over time, r8169_main.c: the calls of `rtl8169_start_xmit`, `rtl_tx`,
-- `rtl8169_tx_timeout` and `rtl_task`, and what the hardware does to the descriptors, one after
-- the other in any order.
pub mod Order
use cros_rt.Base.{ℕ, Bool, Option, none, some, List, [], ◌∷◌, ◌++◌}
use cros_rt.Driver.Tx.{TxDesc, Tx, start_xmit, rtl_tx, slots_avail}
use cros_rt.Driver.Tx.Sent.{can_map}
use cros_rt.Driver.Tx.Fifo.{Verdict, verdict, sent_by, dropped_by}
use cros_rt.Driver.Reset.{Device, tx_timeout, rtl_task}

-- A call of `rtl8169_start_xmit`, with what the offload and DMA mapping answer.
pub record Packet (Skb : Type 0) : Type 0 where
  pub dma_map : ℕ → Option ℕ
  pub options : Option (ℕ × ℕ)
  pub head : ℕ × ℕ
  pub frags : List (ℕ × ℕ)
  pub door_bell : Bool
  pub skb : Skb

-- The hardware may leave any descriptors.
pub data Event (Skb : Type 0) : Type 0 where
  send : Packet Skb → Event Skb
  hardware : (ℕ → TxDesc) → Event Skb
  clean timeout task : Event Skb

module _ {Skb : Type 0} where
  abbrev pub with_tx : Device Skb → Tx Skb → Device Skb
  with_tx s t = record s { tx = t }

  abbrev cleaned : Device Skb → Option (Tx Skb) → Option (Device Skb)
  cleaned s none = none
  cleaned s (some t) = some (with_tx s t)

  -- The loop of `rtl_tx` gets fuel for a full ring.
  unfoldable pub step : Event Skb → Device Skb → Option (Device Skb)
  unfolding start_xmit rtl_tx tx_timeout rtl_task
  step (send p) s =
      some (with_tx s (start_xmit p.dma_map p.options p.head p.frags p.door_bell p.skb s.tx).1)
  step (hardware desc) s = some (with_tx s (record (s.tx) { desc = desc }))
  step clean s = cleaned s (rtl_tx 257 s.tx)
  step timeout s = some (tx_timeout s)
  step task s = some (rtl_task s)

  -- The packet that an event adds to those to be sent, and the one that it drops.
  abbrev pub fate : Packet Skb → Device Skb → Verdict
  fate p s = verdict (slots_avail s.tx) p.options (can_map p.dma_map (p.head ∷ p.frags))

  abbrev pub adds : Event Skb → Device Skb → List Skb
  adds (send p) s = sent_by (fate p s) p.skb
  adds _ s = []

  abbrev pub drops : Event Skb → Device Skb → List Skb
  drops (send p) s = dropped_by (fate p s) p.skb
  drops _ s = []

  -- A run, with the packets that were accepted and those that were dropped.
  unfoldable pub run : List (Event Skb) → Device Skb → Option (Device Skb × List Skb × List Skb)
  unfolding step
  run [] s = some (s, [], [])
  run (e ∷ l) s = elim (step e s) [
    | none ↦ none
    | some t ↦ elim (run l t) [
      | none ↦ none
      | some (u, accepted, dropped) ↦ some (u, adds e s ++ accepted, drops e s ++ dropped)
    ]
  ]
