-- ===== src/Driver/Tx/Room.antt =====
-- Room in the ring of descriptors, and `rtl8169_start_xmit`.
use cros_rt.Base.{
  ◌⊎◌, true_ne_false, subst, ltb→lt, ℕ, zero, suc, ◌+◌, ◌%◌, ◌^◌, ◌≤◌, ◌<◌, ◌≡◌, refl, ap, sym, ◌∙◌,
  inl, inr, Bool, true, false, Option, none, some, List, [], ◌∷◌, length, ◌==◌, Bool-cases,
  Option-cases, arith,
}
use cros_rt.Driver.Tx.{
  consume_skb, TxResult, Tx, tx_ok, slots_avail, unmap_tx_skb, tx_clear_range, tx_map, xmit_frags,
  publish, start_xmit, num_tx_desc,
}
use cros_rt.Driver.Tx.Counters.{in_flight, avail_iff, in_flight_add, stop_false}

module _ {Skb : Type 0} where
  -- Both counters are 32-bit numbers, at most the 256 descriptors are in flight, and the queue runs
  -- only while a packet with the most fragments fits.
  pub record IsRoomy (s : Tx Skb) : Type 0 where
    pub cur_word : s.cur_tx < 2 ^ 32
    pub dirty_word : s.dirty_tx < 2 ^ 32
    pub bounded : in_flight s.cur_tx s.dirty_tx ≤ 256
    pub fits : s.queue_stopped ≡ false → slots_avail s ≡ true

  pub record Same (s t : Tx Skb) : Type 0 where
    pub cur : t.cur_tx ≡ s.cur_tx
    pub dirty : t.dirty_tx ≡ s.dirty_tx
    pub stopped : t.queue_stopped ≡ s.queue_stopped

  pub Same-refl : (s : Tx Skb) → Same s s
  Same-refl s = record { cur = refl; dirty = refl; stopped = refl }

  pub Same-trans : {s t u : Tx Skb} → Same s t → Same t u → Same s u
  Same-trans p q = record {
    cur = q.cur ∙ p.cur;
    dirty = q.dirty ∙ p.dirty;
    stopped = q.stopped ∙ p.stopped;
  }

  pub Same-IsRoomy : {s t : Tx Skb} → Same s t → IsRoomy s → IsRoomy t
  unfolding slots_avail
  Same-IsRoomy p h = record {
    cur_word = rw p.cur h.cur_word;
    dirty_word = rw p.dirty h.dirty_word;
    bounded = rw (p.cur, p.dirty) h.bounded;
    fits = rw (p.cur, p.dirty, p.stopped) h.fits;
  }

  pub unmap-Same : (entry : ℕ) (s : Tx Skb) → Same s (unmap_tx_skb entry s)
  unfolding unmap_tx_skb
  unmap-Same entry s = record { cur = refl; dirty = refl; stopped = refl }

  consume-Same : (skb : Option Skb) (s : Tx Skb) → Same s (consume_skb skb s)
  unfolding consume_skb
  consume-Same skb s = record { cur = refl; dirty = refl; stopped = refl }

  pub freed-Same :
      (entry : ℕ) (s : Tx Skb) → Same s (consume_skb ((s.tx_skb entry).skb) (unmap_tx_skb entry s))
  freed-Same entry s =
      Same-trans (unmap-Same entry s) (consume-Same ((s.tx_skb entry).skb) (unmap_tx_skb entry s))

  pub tx_clear_range-Same : (n start : ℕ) (s : Tx Skb) → Same s (tx_clear_range start n s)
  unfolding tx_clear_range
  tx_clear_range-Same zero start s = Same-refl s
  tx_clear_range-Same (suc n) start s =
      let entry = start % num_tx_desc in
      elim (Bool-cases ((s.tx_skb entry).len == 0)) [
        | inl clear ↦ rw (clear, tx_clear_range) (tx_clear_range-Same n (start + 1) s)
        | inr mapped ↦
            rw (mapped, tx_clear_range)
              (Same-trans (freed-Same entry s) (tx_clear_range-Same n (start + 1) _))
      ]

  mapped-Same :
      (s t : Tx Skb) (m : Option ℕ) (f : ℕ → Tx Skb)
      → ((k : ℕ) → Same s (f k))
      → (elim m [ none ↦ none | some k ↦ some (f k) ]) ≡ some t
      → Same s t
  mapped-Same s t none f h e =
      absurd (true_ne_false (ap (λ o. elim o [ none ↦ true | some u ↦ false ]) e))
  mapped-Same s t (some k) f h e =
      subst (Same s) (ap (λ o. elim o [ none ↦ t | some u ↦ u ]) e) (h k)

  module _ (dma_map : ℕ → Option ℕ) where
    tx_map-Same :
        (opts : ℕ × ℕ) (len addr entry : ℕ) (own : Bool) (s t : Tx Skb)
        → tx_map dma_map opts len addr entry own s ≡ some t
        → Same s t
    unfolding tx_map
    tx_map-Same opts len addr entry own s t e =
        mapped-Same s t (dma_map addr) _ (λ k. record { cur = refl; dirty = refl; stopped = refl })
          e

    xmit_frags-Same :
        (opts : ℕ × ℕ) (frags : List (ℕ × ℕ)) (cur_frag entry : ℕ) (s : Tx Skb)
        → Same s (xmit_frags dma_map opts frags cur_frag entry s).1
    unfolding xmit_frags
    xmit_frags-Same opts [] cur_frag entry s = Same-refl s
    xmit_frags-Same opts ((len, addr) ∷ frags) cur_frag entry s =
        let next = (entry + 1) % num_tx_desc in
        elim (Option-cases (tx_map dma_map opts len addr next true s)) [
          | inl error ↦ rw (error, xmit_frags) (tx_clear_range-Same cur_frag (s.cur_tx + 1) s)
          | inr (t, ok) ↦
              rw (ok, xmit_frags)
                (Same-trans (tx_map-Same opts len addr next true s t ok)
                  (xmit_frags-Same opts frags (cur_frag + 1) next t))
        ]

    publish-IsRoomy :
        (skb : Skb) (frags entry : ℕ) (door_bell : Bool) (s : Tx Skb)
        → frags ≤ 17
        → slots_avail s ≡ true
        → IsRoomy s
        → IsRoomy (publish dma_map skb frags entry door_bell s).1
    unfolding publish slots_avail
    publish-IsRoomy skb frags entry door_bell s few avail h =
        let room = sym (avail_iff s.cur_tx s.dirty_tx h.cur_word h.dirty_word h.bounded) ∙ avail in
        let small = ltb→lt (in_flight s.cur_tx s.dirty_tx) 239 room in
        let moved : in_flight ((s.cur_tx + (frags + 1)) % 2 ^ 32) s.dirty_tx
            ≡ in_flight s.cur_tx s.dirty_tx + (frags + 1) =
          in_flight_add s.cur_tx s.dirty_tx (frags + 1) h.cur_word h.dirty_word
            (omega (arith, few, small)) in
        record {
          cur_word = omega arith;
          dirty_word = h.dirty_word;
          bounded = omega (arith, moved, few, small);
          fits = λ running. stop_false _ _ running;
        }

    dropped-IsRoomy :
        (s : Tx Skb) (n : ℕ) (l : List Skb)
        → IsRoomy s
        → IsRoomy (record s { tx_dropped = n; kfreed = l })
    unfolding slots_avail
    dropped-IsRoomy s n l h = record {
      cur_word = h.cur_word;
      dirty_word = h.dirty_word;
      bounded = h.bounded;
      fits = h.fits;
    }

    Same-avail : {s t : Tx Skb} → Same s t → slots_avail t ≡ slots_avail s
    unfolding slots_avail
    Same-avail p = rw (p.cur, p.dirty) refl

    stopped_if_full :
        (s : Tx Skb)
        → IsRoomy s
        → slots_avail s ≡ false
        → {r : TxResult} → (s.queue_stopped ≡ true) ⊎ (r ≡ tx_ok)
    stopped_if_full s h full = elim (Bool-cases s.queue_stopped) [
      | inl stopped ↦ inl stopped
      | inr running ↦ absurd (true_ne_false (sym (h.fits running) ∙ full))
    ]

    -- Where both counters are 32-bit numbers, at most 256 descriptors are in flight and the queue
    -- runs only while a packet with the most fragments fits, sending a packet of at most 17
    -- fragments keeps all this, whether the packet is sent, dropped or refused, and refuses it
    -- only if the queue was stopped.
    pub start_xmit-IsRoomy :
        (options : Option (ℕ × ℕ)) (head : ℕ × ℕ) (frags : List (ℕ × ℕ)) (door_bell : Bool)
        (skb : Skb) (s : Tx Skb)
        → length frags ≤ 17
        → IsRoomy s
        → IsRoomy (start_xmit dma_map options head frags door_bell skb s).1
          × ((s.queue_stopped ≡ true)
              ⊎ ((start_xmit dma_map options head frags door_bell skb s).0 ≡ tx_ok))
    unfolding start_xmit publish
    start_xmit-IsRoomy options head frags door_bell skb s few h =
        elim (Bool-cases (slots_avail s)) [
          | inl avail ↦ elim (Option-cases options) [
            | inl no_opts ↦
                rw (avail, no_opts, start_xmit) (dropped-IsRoomy s (s.tx_dropped + 1) _ h, inr refl)
            | inr (opts, some_opts) ↦
                elim (Option-cases
                  (tx_map dma_map opts head.0 head.1 (s.cur_tx % num_tx_desc) false s)) [
                    | inl error ↦
                        rw (avail, some_opts, error, start_xmit)
                          (dropped-IsRoomy s (s.tx_dropped + 1) _ h, inr refl)
                    | inr (t, mapped) ↦
                        let entry = s.cur_tx % num_tx_desc in
                        let p = tx_map-Same opts head.0 head.1 entry false s t mapped in
                        let q = xmit_frags-Same opts frags 0 entry t in
                        let u = (xmit_frags dma_map opts frags 0 entry t).1 in
                        elim (Bool-cases (xmit_frags dma_map opts frags 0 entry t).0) [
                          | inl good ↦
                              rw (avail, some_opts, mapped, good, start_xmit)
                                (
                                  publish-IsRoomy skb (length frags) entry door_bell u few
                                      (Same-avail (Same-trans p q) ∙ avail)
                                      (Same-IsRoomy (Same-trans p q) h),
                                  inr refl,
                                )
                          | inr bad ↦
                              rw (avail, some_opts, mapped, bad, start_xmit)
                                (
                                  dropped-IsRoomy _ _ _ (
                                      Same-IsRoomy
                                        (Same-trans p (Same-trans q (unmap-Same entry u))) h),
                                  inr refl,
                                )
                        ]
                  ]
          ]
          | inr full ↦
              rw (full, start_xmit)
                (
                  record {
                    cur_word = h.cur_word;
                    dirty_word = h.dirty_word;
                    bounded = h.bounded;
                    fits = λ running. absurd (true_ne_false running);
                  },
                  stopped_if_full s h full,
                )
        ]
