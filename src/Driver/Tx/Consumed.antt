-- ===== src/Driver/Tx/Consumed.antt =====
-- `rtl_tx` and `rtl8169_tx_clear_range` free the packets of the ring in their order.
use cros_rt.Base.{
  ℕ, zero, suc, ◌+◌, ◌%◌, ◌^◌, ◌≤◌, ◌<◌, ◌≡◌, ◌≢◌, refl, ap, sym, subst, ◌∙◌, Option, none, some,
  List, ◌++◌, append_assoc, append-nil, arith, to_list, ◌==◌, Bool-cases, inl, inr,
}
use cros_rt.Driver.Tx.{
  Tx, unmap_tx_skb, consume_skb, tx_clear_range, free_loop, publish_dirty, after_loop, rtl_tx,
  num_tx_desc,
}
use cros_rt.Driver.Tx.Counters.{in_flight, in_flight_next}
use cros_rt.Driver.Tx.Room.{IsRoomy}
use cros_rt.Driver.Tx.Packets.{skb_at, packets, in_ring, packets-same, IsTidy}

module _ {Skb : Type 0} where
  -- What one round of either loop does.
  abbrev pub free_entry : ℕ → Tx Skb → Tx Skb
  free_entry entry s = consume_skb ((s.tx_skb entry).skb) (unmap_tx_skb entry s)

  pub free_entry-skb :
      (entry i : ℕ) (s : Tx Skb) → skb_at s i ≡ none → skb_at (free_entry entry s) i ≡ none
  unfolding consume_skb unmap_tx_skb
  free_entry-skb entry i s h = ground (arith, h)

  free_entry-here : (entry : ℕ) (s : Tx Skb) → skb_at (free_entry entry s) entry ≡ none
  unfolding consume_skb unmap_tx_skb
  free_entry-here entry s = ground arith

  free_entry-other :
      (entry i : ℕ) (s : Tx Skb) → entry ≢ i → skb_at (free_entry entry s) i ≡ skb_at s i
  unfolding consume_skb unmap_tx_skb
  free_entry-other entry i s h = ground (arith, h)

  free_entry-mapped :
      (entry : ℕ) (s : Tx Skb)
      → ((i : ℕ) → (s.tx_skb i).len ≡ 0 → skb_at s i ≡ none)
      → (i : ℕ) → ((free_entry entry s).tx_skb i).len ≡ 0
      → skb_at (free_entry entry s) i ≡ none
  unfolding consume_skb unmap_tx_skb
  free_entry-mapped entry s h i e = ground (arith, h i, e)

  -- After a round at `start` the packets from there on are those from the next entry on.
  free_entry-packets :
      (s : Tx Skb) (n start next : ℕ)
      → n < 256
      → next % 256 ≡ (start + 1) % 256
      → (free_entry (start % 256) s).consumed ++ packets (free_entry (start % 256) s).tx_skb next n
        ≡ s.consumed ++ packets s.tx_skb start (suc n)
  unfolding consume_skb unmap_tx_skb
  free_entry-packets s n start next lt e =
      append_assoc s.consumed (to_list (skb_at s (start % 256)))
        (packets (free_entry (start % 256) s).tx_skb next n)
      ∙ ap (λ l. s.consumed ++ (to_list (skb_at s (start % 256)) ++ l))
          (packets-same (free_entry (start % 256) s).tx_skb s.tx_skb n next (start + 1) e
            (λ i k k_lt at. free_entry-other (start % 256) i s (omega (arith, e, at, k_lt, lt))))

  -- Where the loop of `rtl_tx` stands at `dirty`: freed so far and waiting make up `line`.
  pub record Frees (line kfreed : List Skb) (dirty : ℕ) (s : Tx Skb) : Type 0 where
    pub tidy : IsTidy dirty s
    pub bounded : in_flight s.cur_tx dirty ≤ 256
    pub in_line : s.consumed ++ packets s.tx_skb dirty (in_flight s.cur_tx dirty) ≡ line
    pub no_drop : s.kfreed ≡ kfreed

  free_entry-Frees :
      (line kfreed : List Skb) (dirty : ℕ) (s : Tx Skb)
      → s.cur_tx < 2 ^ 32
      → dirty < 2 ^ 32
      → s.cur_tx ≢ dirty
      → Frees line kfreed dirty s
      → Frees line kfreed ((dirty + 1) % 2 ^ 32) (free_entry (dirty % 256) s)
  unfolding consume_skb unmap_tx_skb
  free_entry-Frees line kfreed dirty s c d differ h =
      let next = in_flight_next s.cur_tx dirty c d differ in
      let left = in_flight s.cur_tx ((dirty + 1) % 2 ^ 32) in
      let one_more : suc left ≡ in_flight s.cur_tx dirty = omega (arith, next) in
      record {
        tidy = record {
          free = λ i k lo hi at. elim (Bool-cases (dirty % 256 == i)) [
            | inl here ↦
                subst (λ j. skb_at (free_entry (dirty % 256) s) j ≡ none) (ground (arith, here))
                  (free_entry-here (dirty % 256) s)
            | inr other ↦
                let differs : dirty % 256 ≢ i = ground (arith, other) in
                free_entry-skb (dirty % 256) i s (
                  h.tidy.free i (k + 1) (omega (arith, lo, next)) (omega (arith, hi, at, differs))
                    (omega (arith, at)))
          ];
          mapped = free_entry-mapped (dirty % 256) s h.tidy.mapped;
        };
        bounded = omega (arith, next, h.bounded);
        in_line =
            free_entry-packets s left dirty ((dirty + 1) % 2 ^ 32) (omega (arith, next, h.bounded))
              (omega arith)
            ∙ ap (λ n. s.consumed ++ packets s.tx_skb dirty n) one_more
            ∙ h.in_line;
        no_drop = h.no_drop;
      }

  abbrev LoopFrees : (line kfreed : List Skb) → Option (ℕ × Option Skb × Tx Skb) → Type 0
  LoopFrees line kfreed none = Unit
  LoopFrees line kfreed (some (dirty, last, s)) = Frees line kfreed dirty s

  free_loop-Frees :
      (line kfreed : List Skb) (fuel dirty : ℕ) (last : Option Skb) (s : Tx Skb)
      → s.cur_tx < 2 ^ 32
      → dirty < 2 ^ 32
      → Frees line kfreed dirty s
      → LoopFrees line kfreed (free_loop fuel dirty last s)
  unfolding free_loop unmap_tx_skb consume_skb
  free_loop-Frees line kfreed zero dirty last s c d h = tt
  free_loop-Frees line kfreed (suc fuel) dirty last s c d h =
      let entry = dirty % num_tx_desc in
      elim (Bool-cases (s.cur_tx == dirty)) [
        | inl empty ↦ rw (empty, free_loop) h
        | inr some_left ↦ elim (Bool-cases (s.desc entry).own) [
          | inl hardware ↦ rw (some_left, hardware, free_loop) h
          | inr sent ↦
              rw (some_left, sent, free_loop)
                (free_loop-Frees line kfreed fuel ((dirty + 1) % 2 ^ 32) (skb_at s entry)
                  (free_entry entry s) c (omega arith)
                  (free_entry-Frees line kfreed dirty s c d (ground (arith, some_left)) h))
        ]
      ]

  publish_dirty-Frees :
      (line kfreed : List Skb) (dirty : ℕ) (last : Option Skb) (s : Tx Skb)
      → Frees line kfreed dirty s
      → Frees line kfreed (publish_dirty dirty last s).dirty_tx (publish_dirty dirty last s)
  unfolding publish_dirty
  publish_dirty-Frees line kfreed dirty last s h = elim (Bool-cases (s.dirty_tx == dirty)) [
    | inl same ↦
        rw (same, publish_dirty) (subst (λ d. Frees line kfreed d s) (ground (arith, same)) h)
    | inr moved ↦
        rw (moved, publish_dirty)
          (record {
            tidy = record { free = h.tidy.free; mapped = h.tidy.mapped };
            bounded = h.bounded;
            in_line = h.in_line;
            no_drop = h.no_drop;
          })
  ]

  abbrev TxFrees : (line kfreed : List Skb) → Option (Tx Skb) → Type 0
  TxFrees line kfreed none = Unit
  TxFrees line kfreed (some s) = Frees line kfreed s.dirty_tx s

  -- `rtl_tx` frees packets in the order of the ring: those freed and those that wait are together
  -- what they were.
  pub rtl_tx-Frees :
      (fuel : ℕ) (s t : Tx Skb)
      → IsRoomy s
      → IsTidy s.dirty_tx s
      → rtl_tx fuel s ≡ some t
      → Frees (s.consumed ++ in_ring s) s.kfreed t.dirty_tx t
  unfolding rtl_tx
  rtl_tx-Frees fuel s t roomy tidy run = subst (TxFrees line s.kfreed) run (
      after (free_loop fuel s.dirty_tx none s) (
        free_loop-Frees line s.kfreed fuel s.dirty_tx none s roomy.cur_word roomy.dirty_word
          (record { tidy = tidy; bounded = roomy.bounded; in_line = refl; no_drop = refl })))
    where
      line : List Skb
      line = s.consumed ++ in_ring s

      after :
          (r : Option (ℕ × Option Skb × Tx Skb))
          → LoopFrees line s.kfreed r
          → TxFrees line s.kfreed (after_loop r)
      after none h = tt
      after (some (dirty, last, u)) h = publish_dirty-Frees line s.kfreed dirty last u h

  -- Clearing entries frees their packets in the order of the ring.
  pub clear-consumed :
      (n start : ℕ) (s : Tx Skb)
      → n ≤ 256
      → ((i : ℕ) → (s.tx_skb i).len ≡ 0 → skb_at s i ≡ none)
      → ((tx_clear_range start n s).consumed ≡ s.consumed ++ packets s.tx_skb start n)
        × ((i : ℕ)
            → ((tx_clear_range start n s).tx_skb i).len ≡ 0
            → skb_at (tx_clear_range start n s) i ≡ none)
        × ((tx_clear_range start n s).kfreed ≡ s.kfreed)
  unfolding tx_clear_range
  clear-consumed zero start s le h = (sym (append-nil s.consumed), h, refl)
  clear-consumed (suc n) start s le h = elim (Bool-cases ((s.tx_skb (start % 256)).len == 0)) [
    | inl clear ↦
        let (rest, mapped, no_drop) = clear-consumed n (start + 1) s (omega (arith, le)) h in
        rw (clear, tx_clear_range, h (start % 256) (ground (arith, clear))) (rest, mapped, no_drop)
    | inr full ↦
        let t = free_entry (start % 256) s in
        let (rest, mapped, no_drop) =
          clear-consumed n (start + 1) t (omega (arith, le))
            (free_entry-mapped (start % 256) s h) in
        rw (full, tx_clear_range)
          (
            rest ∙ free_entry-packets s n start (start + 1) (omega (arith, le)) refl,
            mapped,
            no_drop,
          )
  ]
