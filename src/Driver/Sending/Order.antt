-- ===== src/Driver/Sending/Order.antt =====
-- The Tx ring is a queue: packets are freed in the order in which they were accepted.
use cros_rt.Base.{
  true_ne_false, true, false, ℕ, ◌+◌, ◌-◌, ◌≤◌, ◌≡◌, refl, ap, sym, ◌∙◌, none, some, List, [], ◌∷◌,
  ◌++◌, append_assoc, append-nil, arith, inl, inr, length, Bool-cases,
}
use cros_rt.Driver.Tx.{Tx, start_xmit, rtl_tx, slots_avail}
use cros_rt.Driver.Tx.Counters.{in_flight}
use cros_rt.Driver.Tx.Room.{IsRoomy, start_xmit-IsRoomy}
use cros_rt.Driver.Tx.Freed.{rtl_tx-IsRoomy}
use cros_rt.Driver.Tx.Packets.{skb_at, packets, in_ring, packets-append, packets-none, IsTidy}
use cros_rt.Driver.Tx.Consumed.{rtl_tx-Frees, clear-consumed}
use cros_rt.Driver.Tx.Sent.{AllPositive}
use cros_rt.Driver.Tx.Fifo.{start_xmit-Sends}
use cros_rt.Driver.Reset.{
  Device, tx_timeout, rtl_task, tx_clear, reset_work, cleanup_rings, init_ring_indexes,
  is_reset_due, wake_queue,
}
use cros_rt.Driver.Reset.Fresh.{reset-IsFresh}
use cros_rt.Driver.Sending.{
  TxDesc, Packet, Event, send, hardware, clean, timeout, task, with_tx, step, adds, drops, run,
}

module _ {Skb : Type 0} where
  -- At most 17 fragments, and no piece is empty.
  abbrev pub IsPlain : Event Skb → Type 0
  IsPlain (send p) = (length p.frags ≤ 17) × AllPositive (p.head ∷ p.frags)
  IsPlain _ = Unit

  abbrev pub AllPlain : List (Event Skb) → Type 0
  AllPlain [] = Unit
  AllPlain (e ∷ l) = IsPlain e × AllPlain l

  pub record IsSending (t : Tx Skb) : Type 0 where
    pub roomy : IsRoomy t
    pub tidy : IsTidy t.dirty_tx t

  -- From `s` to `t` these packets were accepted and dropped.
  pub record Follows (s t : Tx Skb) (accepted dropped : List Skb) : Type 0 where
    pub sending : IsSending t
    pub in_order : t.consumed ++ in_ring t ≡ s.consumed ++ (in_ring s ++ accepted)
    pub freed : t.kfreed ≡ s.kfreed ++ dropped

  Follows-none :
      {s t : Tx Skb}
      → IsSending t
      → t.consumed ++ in_ring t ≡ s.consumed ++ in_ring s
      → t.kfreed ≡ s.kfreed
      → Follows s t [] []
  Follows-none {s} {t} sending same kept = record {
    sending = sending;
    in_order = same ∙ ap (λ l. s.consumed ++ l) (sym (append-nil (in_ring s)));
    freed = kept ∙ sym (append-nil s.kfreed);
  }

  Follows-trans :
      {s t u : Tx Skb} {a d b e : List Skb}
      → Follows s t a d
      → Follows t u b e
      → Follows s u (a ++ b) (d ++ e)
  Follows-trans {s} {t} {u} {a} {d} {b} {e} p q = record {
    sending = q.sending;
    in_order =
        q.in_order
        ∙ sym (append_assoc t.consumed (in_ring t) b)
        ∙ ap (λ l. l ++ b) p.in_order
        ∙ append_assoc s.consumed (in_ring s ++ a) b
        ∙ ap (λ l. s.consumed ++ l) (append_assoc (in_ring s) a b);
    freed = q.freed ∙ ap (λ l. l ++ e) p.freed ∙ append_assoc s.kfreed d e;
  }

  send-Follows :
      (p : Packet Skb) (s : Device Skb)
      → IsPlain (send p)
      → IsSending s.tx
      → Follows s.tx
          (start_xmit p.dma_map p.options p.head p.frags p.door_bell p.skb s.tx).1
          (adds (send p) s)
          (drops (send p) s)
  send-Follows p s (few, pos) h =
      let sends =
        (start_xmit-Sends p.dma_map p.options p.head p.frags p.door_bell p.skb s.tx pos few h.roomy
          h.tidy).1 in
      record {
        sending = record {
          roomy =
              (start_xmit-IsRoomy p.dma_map p.options p.head p.frags p.door_bell p.skb s.tx few
                h.roomy).0;
          tidy = sends.tidy;
        };
        in_order = rw sends.none_consumed (ap (λ l. s.tx.consumed ++ l) sends.in_order);
        freed = sends.drops;
      }

  hardware-Follows :
      (desc : ℕ → TxDesc) (s : Tx Skb) → IsSending s → Follows s (record s { desc = desc }) [] []
  unfolding slots_avail
  hardware-Follows desc s h =
      Follows-none
        (record {
          roomy = record {
            cur_word = h.roomy.cur_word;
            dirty_word = h.roomy.dirty_word;
            bounded = h.roomy.bounded;
            fits = h.roomy.fits;
          };
          tidy = record { free = h.tidy.free; mapped = h.tidy.mapped };
        })
        refl refl

  clean-Follows :
      (s : Tx Skb) → IsSending s → (t : Tx Skb) × (rtl_tx 257 s ≡ some t) × Follows s t [] []
  clean-Follows s h =
      let (t, ends, roomy, fewer, wakes) =
        rtl_tx-IsRoomy 257 s h.roomy (omega (arith, h.roomy.bounded)) in
      let frees = rtl_tx-Frees 257 s t h.roomy h.tidy ends in
      (
        t,
        ends,
        Follows-none (record { roomy = roomy; tidy = frees.tidy }) frees.in_line frees.no_drop,
      )

  -- Clearing the whole ring frees what waits in it.
  tx_clear-consumed :
      (s : Tx Skb)
      → IsSending s
      → ((tx_clear s).consumed ≡ s.consumed ++ in_ring s)
        × ((i : ℕ) → ((tx_clear s).tx_skb i).len ≡ 0 → skb_at (tx_clear s) i ≡ none)
        × ((tx_clear s).kfreed ≡ s.kfreed)
  unfolding tx_clear
  tx_clear-consumed s h =
      let n = in_flight s.cur_tx s.dirty_tx in
      let (consumed, mapped, no_drop) =
        clear-consumed 256 s.dirty_tx s (omega arith) h.tidy.mapped in
      let whole : 256 ≡ n + (256 - n) = omega (arith, h.roomy.bounded) in
      let all : packets s.tx_skb s.dirty_tx 256 ≡ in_ring s =
        ap (packets s.tx_skb s.dirty_tx) whole
        ∙ packets-append s.tx_skb n (256 - n) s.dirty_tx
        ∙ ap (λ l. in_ring s ++ l)
            (packets-none s.tx_skb (256 - n) (s.dirty_tx + n) (λ i k lt at.
              h.tidy.free i (n + k) (omega arith) (omega (arith, lt)) (omega (arith, at))))
        ∙ append-nil (in_ring s) in
      (consumed ∙ ap (λ l. s.consumed ++ l) all, mapped, no_drop)

  reset-Follows :
      (s : Device Skb)
      → IsSending s.tx
      → Follows s.tx (wake_queue (reset_work (record s { reset_pending = false }))).tx [] []
  unfolding reset_work cleanup_rings init_ring_indexes slots_avail
  reset-Follows s h =
      let stopped : Tx Skb = record (s.tx) { queue_stopped = true } in
      let fresh = reset-IsFresh s in
      let (consumed, mapped, no_drop) = tx_clear-consumed stopped (record {
        roomy = record {
          cur_word = h.roomy.cur_word;
          dirty_word = h.roomy.dirty_word;
          bounded = h.roomy.bounded;
          fits = λ runs. absurd (true_ne_false runs);
        };
        tidy = record { free = h.tidy.free; mapped = h.tidy.mapped };
      }) in
      Follows-none
        (record {
          roomy = fresh.roomy;
          tidy = record {
            free = λ i k lo hi at. mapped i (fresh.tx_empty i (omega (arith, hi, at)));
            mapped = mapped;
          };
        })
        (append-nil (tx_clear stopped).consumed ∙ consumed) no_drop

  task-Follows : (s : Device Skb) → IsSending s.tx → Follows s.tx (rtl_task s).tx [] []
  unfolding rtl_task
  task-Follows s h = elim (Bool-cases (is_reset_due s)) [
    | inl due ↦ rw (due, rtl_task) (reset-Follows s h)
    | inr idle ↦ rw (idle, rtl_task) (Follows-none h refl refl)
  ]

  step-Follows :
      (e : Event Skb) (s : Device Skb)
      → IsPlain e
      → IsSending s.tx
      → (t : Device Skb) × (step e s ≡ some t) × Follows s.tx t.tx (adds e s) (drops e s)
  unfolding step tx_timeout
  step-Follows (send p) s plain h = (_, refl, send-Follows p s plain h)
  step-Follows (hardware desc) s plain h = (_, refl, hardware-Follows desc s.tx h)
  step-Follows clean s plain h =
      let (t, ends, follows) = clean-Follows s.tx h in (with_tx s t, rw (ends, step) refl, follows)
  step-Follows timeout s plain h = (_, refl, Follows-none h refl refl)
  step-Follows task s plain h = (_, refl, task-Follows s h)

  -- The Tx ring is a queue that loses and doubles no packet. From a ring as `rtl8169_start_xmit`
  -- needs it, over any sequence of calls of `rtl8169_start_xmit`, with packets of at most 17
  -- fragments of which no piece is empty, `rtl_tx`, `rtl8169_tx_timeout` and `rtl_task`, and
  -- whatever the hardware does to the descriptors meanwhile: the run ends, the ring is as before,
  -- the packets freed as sent followed by those in the ring are the ones before followed by those
  -- that were accepted, in this order, and the packets freed as dropped are the ones before and
  -- those that were dropped.
  pub run-Follows :
      (l : List (Event Skb)) (s : Device Skb)
      → AllPlain l
      → IsSending s.tx
      → (t : Device Skb) × (accepted : List Skb) × (dropped : List Skb) × (run l s
          ≡ some (t, accepted, dropped))
        × Follows s.tx t.tx accepted dropped
  unfolding run
  run-Follows [] s plain h = (s, [], [], refl, Follows-none h refl refl)
  run-Follows (e ∷ l) s plain h =
      let (t, one, first) = step-Follows e s plain.0 h in
      let (u, accepted, dropped, all, later) = run-Follows l t plain.1 first.sending in
      (
        u,
        adds e s ++ accepted,
        drops e s ++ dropped,
        rw (one, all, run) refl,
        Follows-trans first later,
      )
