-- ===== src/Driver/Tx.antt =====
-- Sending, r8169_main.c: `rtl8169_start_xmit` and what it calls, and `rtl_tx`, which frees what
-- the hardware has sent. The two counters are unsigned 32-bit numbers that wrap. DMA mapping, the
-- offload options and the queue limits of the stack are parameters or left out; barriers are left
-- out.
pub mod Counters
pub mod Room
pub mod Freed
pub mod Packets
pub mod Consumed
pub mod Sent
pub mod Fifo
pub mod Race
use cros_rt.Base.{
  to_list, ◌++◌, ℕ, zero, suc, ◌+◌, ◌-◌, ◌%◌, ◌^◌, Bool, true, false, not, ◌&&◌, ◌||◌, Option, none,
  some, List, [], ◌∷◌, length, ltb, ◌==◌, if◌then◌else◌,
}

-- `struct TxDesc`, with the bits of `opts1` that the driver sets apart from the rest.
pub record TxDesc : Type 0 where
  pub own : Bool
  pub ring_end : Bool
  pub first_frag : Bool
  pub last_frag : Bool
  pub opts1 : ℕ
  pub opts2 : ℕ
  pub addr : ℕ

pub record RingInfo (Skb : Type 0) : Type 0 where
  pub skb : Option Skb
  pub len : ℕ

-- `consumed` are the packets given to `napi_consume_skb` and `dev_consume_skb_any`, `kfreed` those
-- given to `dev_kfree_skb_any`, the latest last.
pub record Tx (Skb : Type 0) : Type 0 where
  pub cur_tx : ℕ
  pub dirty_tx : ℕ
  pub desc : ℕ → TxDesc
  pub tx_skb : ℕ → RingInfo Skb
  pub queue_stopped : Bool
  pub tx_dropped : ℕ
  pub doorbells : ℕ
  pub consumed : List Skb
  pub kfreed : List Skb

abbrev pub num_tx_desc : ℕ
num_tx_desc = 256

abbrev pub max_skb_frags : ℕ
max_skb_frags = 17

abbrev pub no_desc : TxDesc
no_desc = record {
  own = false;
  ring_end = false;
  first_frag = false;
  last_frag = false;
  opts1 = 0;
  opts2 = 0;
  addr = 0;
}

abbrev pub put : {A : Type 0} → (ℕ → A) → ℕ → A → ℕ → A
put f i a j = if i == j then a else f j

pub data TxResult : Type 0 where
  tx_ok tx_busy : TxResult

module _ {Skb : Type 0} where
  unfoldable pub slots_avail : Tx Skb → Bool
  slots_avail s = ltb max_skb_frags ((s.dirty_tx + num_tx_desc + (2 ^ 32 - s.cur_tx)) % 2 ^ 32)

  unfoldable pub unmap_tx_skb : ℕ → Tx Skb → Tx Skb
  unmap_tx_skb entry s = record s {
    desc = put s.desc entry no_desc;
    tx_skb = put s.tx_skb entry (record { skb = none; len = 0 });
  }

  -- `if (skb)` the packet is freed as one that was sent.
  unfoldable pub consume_skb : Option Skb → Tx Skb → Tx Skb
  consume_skb skb s = record s { consumed = s.consumed ++ to_list skb }

  -- `rtl8169_tx_clear_range`: `n` entries from `start` on.
  unfoldable pub tx_clear_range : ℕ → ℕ → Tx Skb → Tx Skb
  unfolding unmap_tx_skb consume_skb
  tx_clear_range start zero s = s
  tx_clear_range start (suc n) s =
      let entry = start % num_tx_desc in
      tx_clear_range (start + 1) n (
        if (s.tx_skb entry).len == 0
        then s
        else consume_skb ((s.tx_skb entry).skb) (unmap_tx_skb entry s))

  -- `dma_map` gives the address for the data at an address, or an error.
  module _ (dma_map : ℕ → Option ℕ) where
    -- `rtl8169_tx_map`: `none` is an error. The options leave the bits of the length free, so `|`
    -- adds.
    unfoldable pub tx_map : ℕ × ℕ → ℕ → ℕ → ℕ → Bool → Tx Skb → Option (Tx Skb)
    tx_map opts len addr entry desc_own s = elim (dma_map addr) [
      | none ↦ none
      | some mapping ↦ some (record s {
        desc = put s.desc entry (record {
          own = desc_own;
          ring_end = entry == num_tx_desc - 1;
          first_frag = false;
          last_frag = false;
          opts1 = opts.0 + len;
          opts2 = opts.1;
          addr = mapping;
        });
        tx_skb = put s.tx_skb entry (record (s.tx_skb entry) { len = len });
      })
    ]

    -- The loop of `rtl8169_xmit_frags` over the fragments that are left, each a length and an
    -- address; `cur_frag` counts those done. On an error these are cleared.
    unfoldable pub xmit_frags : ℕ × ℕ → List (ℕ × ℕ) → ℕ → ℕ → Tx Skb → Bool × Tx Skb
    unfolding tx_map tx_clear_range
    xmit_frags opts [] cur_frag entry s = (true, s)
    xmit_frags opts ((len, addr) ∷ frags) cur_frag entry s =
        let next = (entry + 1) % num_tx_desc in
        elim (tx_map opts len addr next true s) [
          | none ↦ (false, tx_clear_range (s.cur_tx + 1) cur_frag s)
          | some t ↦ xmit_frags opts frags (cur_frag + 1) next t
        ]

    abbrev drop : Skb → Tx Skb → TxResult × Tx Skb
    drop skb s =
        (tx_ok, record s { tx_dropped = s.tx_dropped + 1; kfreed = s.kfreed ++ (skb ∷ []) })

    -- From where the descriptors are filled: the last one gets the packet, the first one is handed
    -- over, `cur_tx` moves on, and the queue stops if a large packet would not fit any more. The
    -- second look at the ring is for an `rtl_tx` that races with this and is left out.
    unfoldable pub publish : Skb → ℕ → ℕ → Bool → Tx Skb → TxResult × Tx Skb
    unfolding slots_avail
    publish skb frags first_entry door_bell s =
        let last_entry = (first_entry + frags) % num_tx_desc in
        let with_last = put s.desc last_entry (record (s.desc last_entry) { last_frag = true }) in
        let t : Tx Skb = record s {
          desc =
              put with_last first_entry
                (record (with_last first_entry) { own = true; first_frag = true });
          tx_skb = put s.tx_skb last_entry (record (s.tx_skb last_entry) { skb = some skb });
          cur_tx = (s.cur_tx + frags + 1) % 2 ^ 32;
        } in
        let stop = not (slots_avail t) in
        (
          tx_ok,
          record t {
            queue_stopped = if stop then true else t.queue_stopped;
            doorbells = if stop || door_bell then t.doorbells + 1 else t.doorbells;
          },
        )

    -- `options` are `opts`, or none where `rtl8169_tso_csum_v2` fails; `head` is the linear part.
    unfoldable pub start_xmit :
        Option (ℕ × ℕ) → ℕ × ℕ → List (ℕ × ℕ) → Bool → Skb → Tx Skb → TxResult × Tx Skb
    unfolding slots_avail tx_map xmit_frags unmap_tx_skb publish
    start_xmit options head frags door_bell skb s =
        let entry = s.cur_tx % num_tx_desc in
        if not (slots_avail s)
        then (tx_busy, record s { queue_stopped = true; tx_dropped = s.tx_dropped + 1 })
        else elim options [
          | none ↦ drop skb s
          | some opts ↦ elim (tx_map opts head.0 head.1 entry false s) [
            | none ↦ drop skb s
            | some t ↦
                let (good, u) = xmit_frags opts frags 0 entry t in
                if good
                then publish skb (length frags) entry door_bell u
                else drop skb (unmap_tx_skb entry u)
          ]
        ]

  -- The loop of `rtl_tx` on fuel; the result is `dirty_tx` and the last packet seen.
  unfoldable pub free_loop : ℕ → ℕ → Option Skb → Tx Skb → Option (ℕ × Option Skb × Tx Skb)
  unfolding unmap_tx_skb consume_skb
  free_loop zero dirty_tx last s = none
  free_loop (suc fuel) dirty_tx last s =
      let entry = dirty_tx % num_tx_desc in
      let rest =
        free_loop fuel ((dirty_tx + 1) % 2 ^ 32) ((s.tx_skb entry).skb)
          (consume_skb ((s.tx_skb entry).skb) (unmap_tx_skb entry s)) in
      if s.cur_tx == dirty_tx
      then some (dirty_tx, last, s)
      else if (s.desc entry).own
      then some (dirty_tx, last, s)
      else rest

  abbrev pub is_some : Option Skb → Bool
  is_some none = false
  is_some (some skb) = true

  -- `rtl_tx` after the loop.
  unfoldable pub publish_dirty : ℕ → Option Skb → Tx Skb → Tx Skb
  unfolding slots_avail
  publish_dirty dirty_tx last s =
      let t : Tx Skb = record s { dirty_tx = dirty_tx } in
      if s.dirty_tx == dirty_tx then s else record t {
        queue_stopped = if t.queue_stopped && slots_avail t then false else t.queue_stopped;
        doorbells =
            if not (t.cur_tx == dirty_tx) && is_some last then t.doorbells + 1 else t.doorbells;
      }

  abbrev pub after_loop : Option (ℕ × Option Skb × Tx Skb) → Option (Tx Skb)
  after_loop none = none
  after_loop (some (dirty_tx, last, s)) = some (publish_dirty dirty_tx last s)

  unfoldable pub rtl_tx : ℕ → Tx Skb → Option (Tx Skb)
  unfolding free_loop publish_dirty
  rtl_tx fuel s = after_loop (free_loop fuel s.dirty_tx none s)
