-- ===== src/Driver/Tx/Freed.antt =====
-- What `rtl_tx` does to the ring.
use cros_rt.Base.{
  not, ◌⊎◌, ℕ, zero, suc, ◌+◌, ◌%◌, ◌^◌, ◌≤◌, ◌<◌, ◌≡◌, ◌≢◌, refl, inl, inr, Option, none, some,
  ◌==◌, Bool-cases, arith,
}
use cros_rt.Driver.Tx.{
  consume_skb, Tx, slots_avail, unmap_tx_skb, free_loop, publish_dirty, rtl_tx, num_tx_desc,
}
use cros_rt.Driver.Tx.Counters.{in_flight, in_flight_next, avail_mono, woken_fits, woken_runs}
use cros_rt.Driver.Tx.Room.{freed-Same, IsRoomy, Same, Same-refl, Same-trans, Same-IsRoomy}

module _ {Skb : Type 0} where
  -- The loop of `rtl_tx` from `dirty` ends at `last_dirty`, which lies between it and `cur_tx`.
  record Freed (dirty last_dirty : ℕ) (s t : Tx Skb) : Type 0 where
    same : Same s t
    word : last_dirty < 2 ^ 32
    fewer : in_flight s.cur_tx last_dirty ≤ in_flight s.cur_tx dirty

  free_loop-Freed :
      (fuel dirty : ℕ) (last : Option Skb) (s : Tx Skb)
      → s.cur_tx < 2 ^ 32
      → dirty < 2 ^ 32
      → in_flight s.cur_tx dirty < fuel
      → (last_dirty : ℕ) × (skb : Option Skb) × (t : Tx Skb) × (free_loop fuel dirty last s
          ≡ some (last_dirty, skb, t))
        × Freed dirty last_dirty s t
  unfolding free_loop unmap_tx_skb consume_skb
  free_loop-Freed zero dirty last s c d enough = absurd (omega (arith, enough))
  free_loop-Freed (suc fuel) dirty last s c d enough =
      let entry = dirty % num_tx_desc in
      elim (Bool-cases (s.cur_tx == dirty)) [
        | inl empty ↦ (dirty, last, s, rw (empty, free_loop) refl, ended dirty s d)
        | inr some_left ↦ elim (Bool-cases (s.desc entry).own) [
          | inl hardware ↦
              (dirty, last, s, rw (some_left, hardware, free_loop) refl, ended dirty s d)
          | inr sent ↦
              let freed = freed-Same entry s in
              let differ : s.cur_tx ≢ dirty = ground arith in
              let next = in_flight_next s.cur_tx dirty c d differ in
              let step : in_flight s.cur_tx ((dirty + 1) % 2 ^ 32) < fuel =
                omega (arith, next, enough) in
              let (last_dirty, skb, t, run, f) =
                free_loop-Freed fuel ((dirty + 1) % 2 ^ 32) ((s.tx_skb entry).skb)
                  (consume_skb ((s.tx_skb entry).skb) (unmap_tx_skb entry s)) c (omega arith)
                  step in
              (
                last_dirty,
                skb,
                t,
                rw (some_left, sent, run, free_loop) refl,
                record {
                  same = Same-trans freed f.same;
                  word = f.word;
                  fewer = omega (arith, f.fewer, next);
                },
              )
        ]
      ]
    where
      ended : (dirty : ℕ) (s : Tx Skb) → dirty < 2 ^ 32 → Freed dirty dirty s s
      ended dirty s d = record { same = Same-refl s; word = d; fewer = omega arith }

  published :
      (s u : Tx Skb) (last_dirty : ℕ) (skb : Option Skb)
      → IsRoomy s
      → Freed s.dirty_tx last_dirty s u
      → IsRoomy (publish_dirty last_dirty skb u)
        × (in_flight
              (publish_dirty last_dirty skb u).cur_tx
              (publish_dirty last_dirty skb u).dirty_tx
            ≤ in_flight s.cur_tx s.dirty_tx)
        × (((publish_dirty last_dirty skb u).dirty_tx ≡ s.dirty_tx)
            ⊎ ((publish_dirty last_dirty skb u).queue_stopped
                ≡ not (slots_avail (publish_dirty last_dirty skb u))))
  unfolding publish_dirty slots_avail
  published s u last_dirty skb h f =
      let g = Same-IsRoomy f.same h in
      let less : in_flight u.cur_tx last_dirty ≤ in_flight s.cur_tx s.dirty_tx =
        rw f.same.cur f.fewer in
      let less_u : in_flight u.cur_tx last_dirty ≤ in_flight u.cur_tx u.dirty_tx =
        rw (f.same.cur, f.same.dirty) f.fewer in
      elim (Bool-cases (u.dirty_tx == last_dirty)) [
        | inl none_freed ↦
            rw (none_freed, publish_dirty)
              (g, rw (f.same.cur, f.same.dirty) (omega arith), inl f.same.dirty)
        | inr some_freed ↦
            rw (some_freed, publish_dirty)
              (
                record {
                  cur_word = g.cur_word;
                  dirty_word = f.word;
                  bounded = omega (arith, less, h.bounded);
                  fits = λ running. woken_fits _ u.queue_stopped running (λ was.
                      avail_mono u.cur_tx u.dirty_tx last_dirty g.cur_word g.dirty_word f.word
                        less_u g.bounded (g.fits was));
                },
                less,
                inr (
                    woken_runs _ u.queue_stopped (λ was.
                      avail_mono u.cur_tx u.dirty_tx last_dirty g.cur_word g.dirty_word f.word
                        less_u g.bounded (g.fits was))),
              )
      ]

  -- Where both counters are 32-bit numbers, at most 256 descriptors are in flight and the queue
  -- runs only while a packet with the most fragments fits, and with more fuel than descriptors in
  -- flight: `rtl_tx` ends and keeps all this, no more descriptors are in flight than before, and
  -- if it has freed any, the queue is stopped exactly if a packet with the most fragments does not
  -- fit.
  pub rtl_tx-IsRoomy :
      (fuel : ℕ) (s : Tx Skb)
      → IsRoomy s
      → in_flight s.cur_tx s.dirty_tx < fuel
      → (t : Tx Skb) × (rtl_tx fuel s ≡ some t)
        × IsRoomy t
        × (in_flight t.cur_tx t.dirty_tx ≤ in_flight s.cur_tx s.dirty_tx)
        × ((t.dirty_tx ≡ s.dirty_tx) ⊎ (t.queue_stopped ≡ not (slots_avail t)))
  unfolding rtl_tx publish_dirty
  rtl_tx-IsRoomy fuel s h enough =
      let (last_dirty, skb, u, run, f) =
        free_loop-Freed fuel s.dirty_tx none s h.cur_word h.dirty_word enough in
      let (roomy, fewer, wakes) = published s u last_dirty skb h f in
      (publish_dirty last_dirty skb u, rw (run, rtl_tx) refl, roomy, fewer, wakes)
