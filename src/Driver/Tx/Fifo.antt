-- ===== src/Driver/Tx/Fifo.antt =====
-- `rtl8169_start_xmit` adds a packet to those that wait in the ring, or drops or refuses it.
use cros_rt.Base.{
  ℕ, ◌+◌, ◌%◌, ◌^◌, ◌≤◌, ◌<◌, ◌≡◌, ◌≢◌, refl, ap, sym, ◌∙◌, subst, Option, none, some, List, [],
  ◌∷◌, ◌++◌, append-nil, arith, Bool, Bool-cases, Option-cases, inl, inr, true, false, length,
  ltb→lt,
}
use cros_rt.Driver.Tx.{
  Tx, TxResult, tx_ok, tx_busy, tx_map, xmit_frags, publish, start_xmit, slots_avail,
}
use cros_rt.Driver.Tx.Counters.{in_flight, in_flight_add, avail_iff}
use cros_rt.Driver.Tx.Room.{IsRoomy}
use cros_rt.Driver.Tx.Packets.{packets-push, skb_at, packets, in_ring, packets-same, IsTidy}
use cros_rt.Driver.Tx.Sent.{
  AllPositive, can_map, Quiet, Quiet-refl, Quiet-trans, unmap-Quiet, map_entry, map_entry-Quiet,
  map_entry-len, xmit_frags-Quiet,
}

-- What becomes of a packet.
pub data Verdict : Type 0 where
  refused dropped accepted : Verdict

abbrev pub answer : Verdict → TxResult
answer refused = tx_busy
answer dropped = tx_ok
answer accepted = tx_ok

-- It is refused without room for the largest packet, and dropped if the offload or a mapping fails.
abbrev pub verdict : Bool → Option (ℕ × ℕ) → Bool → Verdict
verdict false options mapped = refused
verdict true none mapped = dropped
verdict true (some opts) false = dropped
verdict true (some opts) true = accepted

module _ {Skb : Type 0} where
  abbrev pub sent_by : Verdict → Skb → List Skb
  sent_by accepted skb = skb ∷ []
  sent_by _ skb = []

  abbrev pub dropped_by : Verdict → Skb → List Skb
  dropped_by dropped skb = skb ∷ []
  dropped_by _ skb = []

  pub record Sends (v : Verdict) (skb : Skb) (s t : Tx Skb) : Type 0 where
    pub tidy : IsTidy t.dirty_tx t
    pub in_order : in_ring t ≡ in_ring s ++ sent_by v skb
    pub none_consumed : t.consumed ≡ s.consumed
    pub drops : t.kfreed ≡ s.kfreed ++ dropped_by v skb

  Quiet-IsTidy : {s t : Tx Skb} → Quiet s t → IsTidy s.dirty_tx s → IsTidy t.dirty_tx t
  Quiet-IsTidy q h = record {
    free = λ i k lo hi at. q.skbs i ∙ h.free i k (rw (q.cur, q.dirty) at lo) hi (rw q.dirty at at);
    mapped = q.mapped;
  }

  Quiet-in_ring : {s t : Tx Skb} → Quiet s t → in_ring t ≡ in_ring s
  Quiet-in_ring {s} {t} q =
      rw (q.cur, q.dirty)
        (packets-same t.tx_skb s.tx_skb (in_flight s.cur_tx s.dirty_tx) s.dirty_tx s.dirty_tx refl
          (λ i k lt at. q.skbs i))

  -- A packet that is dropped after some of its pieces were mapped and unmapped again.
  drop-Sends :
      (skb : Skb) (n : ℕ) {s t : Tx Skb}
      → Quiet s t
      → IsTidy s.dirty_tx s
      → Sends dropped skb s (record t { tx_dropped = n; kfreed = t.kfreed ++ (skb ∷ []) })
  drop-Sends skb n {s} {t} q h =
      let tidy = Quiet-IsTidy q h in
      record {
        tidy = record { free = tidy.free; mapped = tidy.mapped };
        in_order = Quiet-in_ring q ∙ sym (append-nil (in_ring s));
        none_consumed = q.consumed;
        drops = ap (λ l. l ++ (skb ∷ [])) q.kfreed;
      }

  few_in_flight :
      (s : Tx Skb) → IsRoomy s → slots_avail s ≡ true → in_flight s.cur_tx s.dirty_tx < 239
  unfolding slots_avail
  few_in_flight s roomy avail =
      ltb→lt (in_flight s.cur_tx s.dirty_tx) 239
        (sym (avail_iff s.cur_tx s.dirty_tx roomy.cur_word roomy.dirty_word roomy.bounded) ∙ avail)

  module _ (dma_map : ℕ → Option ℕ) where
    publish-Sends :
        (skb : Skb) (n entry : ℕ) (door_bell : Bool) (s u : Tx Skb)
        → Quiet s u
        → IsRoomy s
        → IsTidy s.dirty_tx s
        → n ≤ 17
        → slots_avail s ≡ true
        → s.cur_tx % 256 ≡ entry
        → (u.tx_skb ((s.cur_tx + n) % 256)).len ≢ 0
        → Sends accepted skb s (publish dma_map skb n entry door_bell u).1
    unfolding publish slots_avail
    publish-Sends skb n entry door_bell s u q roomy h few avail at full =
        let t = (publish dma_map skb n entry door_bell u).1 in
        let last = (entry + n) % 256 in
        let small = few_in_flight s roomy avail in
        let before = in_flight s.cur_tx s.dirty_tx in
        let more : in_flight ((s.cur_tx + (n + 1)) % 2 ^ 32) s.dirty_tx ≡ before + (n + 1) =
          in_flight_add s.cur_tx s.dirty_tx (n + 1) roomy.cur_word roomy.dirty_word
            (omega (arith, few, small)) in
        let full_at : (u.tx_skb last).len ≢ 0 =
          subst (λ i. (u.tx_skb i).len ≢ 0) (omega (arith, at)) full in
        let other : (i : ℕ) → last ≢ i → skb_at t i ≡ skb_at s i =
          λ i ne. ground (arith, ne, q.skbs i) in
        record {
          tidy = record {
            free = λ i k lo hi at'.
                let lo' : before + (n + 1) ≤ k = omega (arith, lo, more, q.cur, q.dirty) in
                other i (omega (arith, at, at', lo', hi, q.dirty))
                ∙ h.free i k (omega (arith, lo')) hi (omega (arith, at', q.dirty));
            mapped = λ i e. ground (arith, full_at, q.mapped i, e);
          };
          in_order =
              rw (q.dirty, q.cur)
                (ap (packets t.tx_skb s.dirty_tx) (omega (arith, more))
                  ∙ packets-push t.tx_skb s.tx_skb skb before n s.dirty_tx last
                      (omega (arith, few, small)) (omega (arith, at, roomy.dirty_word))
                      (ground arith) other h.free);
          none_consumed = q.consumed;
          drops = q.kfreed ∙ sym (append-nil s.kfreed);
        }

    -- From where the linear part of the packet is mapped.
    fragments-Sends :
        (opts head : ℕ × ℕ) (frags : List (ℕ × ℕ)) (door_bell : Bool) (mapping : ℕ) (skb : Skb)
        (s : Tx Skb)
        → AllPositive (head ∷ frags)
        → length frags ≤ 17
        → IsRoomy s
        → IsTidy s.dirty_tx s
        → slots_avail s ≡ true
        → let entry = s.cur_tx % 256 in
          let t = map_entry opts head.0 entry false mapping s in
          let (ok, u) = xmit_frags dma_map opts frags 0 entry t in
          Quiet s u
          × (ok ≡ can_map dma_map frags)
          × (ok ≡ true
              → Sends accepted skb s (publish dma_map skb (length frags) entry door_bell u).1)
          × (skb_at u entry ≡ none)
    fragments-Sends opts head frags door_bell mapping skb s pos few roomy h avail =
        let entry = s.cur_tx % 256 in
        let t = map_entry opts head.0 entry false mapping s in
        let small = few_in_flight s roomy avail in
        let ahead : (i k : ℕ) → k ≤ 17 → (s.cur_tx + k) % 256 ≡ i → skb_at s i ≡ none = λ i k le at.
          h.free i (in_flight s.cur_tx s.dirty_tx + k) (omega arith) (omega (arith, le, small))
            (omega (arith, at, roomy.dirty_word)) in
        let first =
          map_entry-Quiet opts head.0 entry false mapping s h.mapped
            (ahead entry 0 (omega arith) (omega arith)) in
        let (later, good, last) =
          xmit_frags-Quiet dma_map opts frags 0 entry t pos.1 (omega (arith, few)) (omega arith)
            (λ i k le at. first.skbs i ∙ ahead i k (omega (arith, le, few)) at) first.mapped
            (λ e. pos.0 (sym (map_entry-len opts head.0 entry false mapping s) ∙ e)) in
        let quiet = Quiet-trans first later in
        let u = (xmit_frags dma_map opts frags 0 entry t).1 in
        (
          quiet,
          good,
          λ ok.
              publish-Sends skb (length frags) entry door_bell s u quiet roomy h few avail refl
                (subst (λ i. (u.tx_skb i).len ≢ 0) (omega arith) (last ok)),
          quiet.skbs entry ∙ ahead entry 0 (omega arith) (omega arith),
        )

    -- Where both counters are 32-bit numbers, at most 256 descriptors are in flight, the queue
    -- runs only while a packet with the most fragments fits, no entry outside of the window from
    -- `dirty_tx` to `cur_tx` has a packet and none without a length has one: sending a packet of
    -- at most 17 fragments, none of whose pieces is empty, keeps the last two. It answers
    -- NETDEV_TX_BUSY and leaves the packets alone if there is no room; it frees the packet, and
    -- only this one, if the offload or the mapping of any piece fails; and else this packet is the
    -- last of those that wait in the ring.
    pub start_xmit-Sends :
        (options : Option (ℕ × ℕ)) (head : ℕ × ℕ) (frags : List (ℕ × ℕ)) (door_bell : Bool)
        (skb : Skb) (s : Tx Skb)
        → AllPositive (head ∷ frags)
        → length frags ≤ 17
        → IsRoomy s
        → IsTidy s.dirty_tx s
        → let (r, t) = start_xmit dma_map options head frags door_bell skb s in
          let v = verdict (slots_avail s) options (can_map dma_map (head ∷ frags)) in
          (r ≡ answer v) × Sends v skb s t
    unfolding start_xmit tx_map
    start_xmit-Sends options head frags door_bell skb s pos few roomy h =
        elim (Bool-cases (slots_avail s)) [
          | inl avail ↦ elim (Option-cases options) [
            | inl no_opts ↦
                rw (avail, no_opts, start_xmit)
                  (refl, drop-Sends skb (s.tx_dropped + 1) (Quiet-refl s h.mapped) h)
            | inr (opts, some_opts) ↦ elim (Option-cases (dma_map head.1)) [
              | inl error ↦
                  rw (avail, some_opts, error, start_xmit, can_map)
                    (refl, drop-Sends skb (s.tx_dropped + 1) (Quiet-refl s h.mapped) h)
              | inr (mapping, ok) ↦
                  let (quiet, good, sends, cleared) =
                    fragments-Sends opts head frags door_bell mapping skb s pos few roomy h avail in
                  elim (Bool-cases (can_map dma_map frags)) [
                    | inl all ↦
                        rw (avail, some_opts, ok, good ∙ all, all, start_xmit, can_map)
                          (refl, sends (good ∙ all))
                    | inr some_failed ↦
                        rw
                          (
                            avail,
                            some_opts,
                            ok,
                            good ∙ some_failed,
                            some_failed,
                            start_xmit,
                            can_map,
                          )
                          (
                            refl,
                            drop-Sends skb _
                                (Quiet-trans quiet
                                  (unmap-Quiet (s.cur_tx % 256) _ quiet.mapped cleared))
                                h,
                          )
                  ]
            ]
          ]
          | inr full ↦
              rw (full, start_xmit)
                (
                  refl,
                  record {
                    tidy = record { free = h.free; mapped = h.mapped };
                    in_order = sym (append-nil (in_ring s));
                    none_consumed = refl;
                    drops = sym (append-nil s.kfreed);
                  },
                )
        ]
