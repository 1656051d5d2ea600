-- ===== src/Driver/Rings/Closed.antt =====
-- What `rtl8169_close` leaves behind.
use cros_rt.Base.{
  ◌||◌, ◌≤◌, ℕ, ◌+◌, ◌≡◌, refl, ap, sym, ◌∙◌, inl, inr, Bool, true, false, Bool-cases, arith, done,
  done-injective, true_ne_false, subst, Outcome,
}
use cros_rt.Driver.SkbQueue.{SkbQueue}
use cros_rt.Driver.Pq.{Pq}
use cros_rt.Driver.Rx.{num_rx_desc}
use cros_rt.Driver.Rings.{Held, OpenAnswers, rtl_open, rtl_close}
use cros_rt.Driver.Rings.Clear.{rx_clear-IsCleared}
use cros_rt.Driver.Rings.Opened.{FirmwareEnds, IsClosed, IsOpen, Ends, queues_taken, rtl_open-Ends}

module _ (pages mappings : ℕ) where
  rtl_close-IsClosed :
      (s : Held)
      → IsOpen pages mappings s
      → IsClosed pages mappings (rtl_close s) × ((rtl_close s).queues ≡ s.queues)
  unfolding rtl_close
  rtl_close-IsClosed s o =
      let c = rx_clear-IsCleared num_rx_desc pages mappings s.bufs (omega arith) o.filled in
      (
        record {
          no_tx_ring = refl;
          no_rx_ring = refl;
          no_buffer = c.empty;
          pages_freed = c.pages_freed;
          mappings_freed = c.mappings_freed;
          no_irq = refl;
          no_phy = refl;
          down = refl;
        },
        refl,
      )

  both_rings :
      {Skb : Type 0} (api : SkbQueue Skb) (memory : Pq api.Head) (a : OpenAnswers) (s t : Held)
      → rtl_open api memory a s ≡ done (true, t)
      → queues_taken a ≡ 2
  unfolding rtl_open
  both_rings api memory a s t h = elim (Bool-cases a.tx_ring) [
    | inr no_tx ↦ absurd (refused (rw no_tx at h))
    | inl tx ↦ elim (Bool-cases a.rx_ring) [
      | inr no_rx ↦ absurd (refused (rw (tx, no_rx) at h))
      | inl rx ↦ rw (tx, rx) refl
    ]
  ]
    where
      refused : {u : Held} → ◌≡◌ {A = Outcome (Bool × Held)} (done (false, u)) (done (true, t)) → ⊥
      refused e = true_ne_false (sym (ap (λ r. r.0) (done-injective e)))

  -- Opening a closed device, with memory for the two queues and room for 101 queues in that for
  -- `pq`, and closing it again gives back everything but the two queues and the firmware: if
  -- `rtl_open` returns 0, then after `rtl8169_close` the device is closed, with two more queues
  -- allocated than before, and it holds firmware if it had it before or there was some to load.
  pub rtl_close-open :
      {Skb : Type 0} (api : SkbQueue Skb) (memory : Pq api.Head) (a : OpenAnswers) (s t : Held)
      → IsClosed pages mappings s
      → a.pq ≡ true
      → 101 ≤ a.room
      → a.non_rt ≡ true
      → rtl_open api memory a s ≡ done (true, t)
      → IsClosed pages mappings (rtl_close t)
        × ((rtl_close t).queues ≡ s.queues + 2)
        × ((rtl_close t).firmware ≡ (s.firmware || a.firmware))
  unfolding rtl_close
  rtl_close-open api memory a s t c pq room non_rt h =
      let (ok, u, run, ends, taken, firmware) =
        rtl_open-Ends pages mappings api memory a s c pq room non_rt in
      let same = done-injective (sym run ∙ h) in
      let opened : IsOpen pages mappings t = subst (λ r. Ends pages mappings r.0 r.1) same ends in
      let (closed, kept) = rtl_close-IsClosed t opened in
      (
        closed,
        kept
            ∙ sym (ap (λ r. r.1.queues) same)
            ∙ taken
            ∙ ap (λ k. s.queues + k) (both_rings api memory a s t h),
        subst (λ r. FirmwareEnds s.firmware a.firmware r.0 r.1) same firmware,
      )
