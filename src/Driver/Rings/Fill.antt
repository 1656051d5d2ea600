-- ===== src/Driver/Rings/Fill.antt =====
-- Filling the receive ring.
use cros_rt.Base.{
  ℕ, zero, suc, ◌+◌, ◌-◌, ◌≡◌, refl, ap, inl, inr, Bool, true, false, Option, none, some, ◌==◌,
  Bool-cases, Option-cases, arith, subst,
}
use cros_rt.Driver.Rx.{mark_to_asic, num_rx_desc}
use cros_rt.Driver.Rings.{
  RxBufs, put_at, free_page, alloc_rx_data, mark_ring_end, fill_from, rx_fill,
}
use cros_rt.Driver.Rings.Clear.{IsFilled, IsCleared, rx_clear-IsCleared}

-- The ring after `rtl8169_rx_fill`: all of it is filled and its last entry is marked, or none is
-- and none of the entries that were filled is left to the hardware.
pub data FillResult (pages mappings : ℕ) : Bool → RxBufs → Type 0 where
  all_filled :
      {s : RxBufs}
      → IsFilled num_rx_desc pages mappings s
      → (s.desc (num_rx_desc - 1)).ring_end ≡ true
      → FillResult pages mappings true s
  all_cleared :
      {s : RxBufs} (n : ℕ) → IsCleared n pages mappings s → FillResult pages mappings false s

mark_ring_end-IsFilled :
    (pages mappings : ℕ) (s : RxBufs)
    → IsFilled num_rx_desc pages mappings s
    → FillResult pages mappings true (mark_ring_end s)
unfolding mark_ring_end
mark_ring_end-IsFilled pages mappings s f =
    all_filled
      (record {
        held = f.held;
        owned = λ i lo. ground (arith, f.owned i, f.owned 255);
        none_above = f.none_above;
        pages_held = f.pages_held;
        mappings_held = f.mappings_held;
      })
      refl

module _ (page mapping : ℕ → Option ℕ) (pages mappings : ℕ) where
  -- One more entry is filled.
  IsFilled-entry :
      (i data_page dma : ℕ) (s : RxBufs)
      → IsFilled i pages mappings s
      → let t = (alloc_rx_data (some data_page) (some dma) i s).1 in
        IsFilled
          (i + 1)
          pages
          mappings
          (record t { databuff = put_at t.databuff i (some data_page) })
  unfolding alloc_rx_data mark_to_asic
  IsFilled-entry i data_page dma s f = record {
    held = λ j lo. elim (Bool-cases (i == j)) [
      | inl here ↦ (data_page, rw here refl)
      | inr there ↦ rw there (f.held j (ground arith))
    ];
    owned = λ j lo. ground (arith, f.owned j);
    none_above = λ j hi. ground (arith, f.none_above j);
    pages_held = omega (arith, f.pages_held);
    mappings_held = omega (arith, f.mappings_held);
  }

  -- A page that cannot be mapped is freed at once.
  IsFilled-failed :
      (i data_page : ℕ) (s : RxBufs)
      → IsFilled i pages mappings s
      → IsFilled i pages mappings (alloc_rx_data (some data_page) none i s).1
  unfolding alloc_rx_data free_page
  IsFilled-failed i data_page s f = record {
    held = f.held;
    owned = f.owned;
    none_above = f.none_above;
    pages_held = omega (arith, f.pages_held);
    mappings_held = f.mappings_held;
  }

  -- What the next round does, by the answers that it gets.
  no_page_left :
      (i : ℕ) (s : RxBufs) → page i ≡ none → alloc_rx_data (page i) (mapping i) i s ≡ (none, s)
  unfolding alloc_rx_data
  no_page_left i s e = rw e refl

  not_mapped :
      (i data_page : ℕ) (s : RxBufs)
      → page i ≡ some data_page
      → mapping i ≡ none
      → alloc_rx_data (page i) (mapping i) i s ≡ (none, (alloc_rx_data (some data_page) none i s).1)
  unfolding alloc_rx_data
  not_mapped i data_page s e f = rw (e, f) refl

  taken :
      (i data_page dma : ℕ) (s : RxBufs)
      → page i ≡ some data_page
      → mapping i ≡ some dma
      → alloc_rx_data (page i) (mapping i) i s
        ≡ (some data_page, (alloc_rx_data (some data_page) (some dma) i s).1)
  unfolding alloc_rx_data
  taken i data_page dma s e f = rw (e, f) refl

  fill_from-FillResult :
      (n i : ℕ) (s : RxBufs)
      → i + n ≡ num_rx_desc
      → IsFilled i pages mappings s
      → let r = fill_from page mapping n i s in FillResult pages mappings r.0 r.1
  unfolding fill_from
  fill_from-FillResult zero i s e f =
      mark_ring_end-IsFilled pages mappings s
        (subst (λ k. IsFilled k pages mappings s) (omega arith) f)
  fill_from-FillResult (suc n) i s e f = elim (Option-cases (page i)) [
    | inl no_page ↦
        let run = no_page_left i s no_page in
        rw (ap (λ r. r.0) run, fill_from, ap (λ r. r.1) run)
          (all_cleared i (rx_clear-IsCleared i pages mappings s (omega arith) f))
    | inr (data_page, got) ↦ elim (Option-cases (mapping i)) [
      | inl no_mapping ↦
          let run = not_mapped i data_page s got no_mapping in
          rw (ap (λ r. r.0) run, fill_from, ap (λ r. r.1) run)
            (all_cleared i (
              rx_clear-IsCleared i pages mappings _ (omega arith)
                (IsFilled-failed i data_page s f)))
      | inr (dma, mapped) ↦
          let run = taken i data_page dma s got mapped in
          rw (ap (λ r. r.0) run, fill_from, ap (λ r. r.1) run)
            (fill_from-FillResult n (i + 1) _ (omega arith) (IsFilled-entry i data_page dma s f))
    ]
  ]

  -- `rtl8169_rx_fill` on a ring without buffers fills all of it or none: it returns 0 with a page
  -- for each of the 256 descriptors, all of them the hardware's, and the mark of the end on the
  -- last; or it returns an error with every page and mapping that it took given back, no buffer
  -- left in the ring, and none of the descriptors that it had filled left to the hardware.
  pub rx_fill-FillResult :
      (s : RxBufs)
      → ((i : ℕ) → s.databuff i ≡ none)
      → s.pages ≡ pages
      → s.mappings ≡ mappings
      → let r = rx_fill page mapping s in FillResult pages mappings r.0 r.1
  unfolding rx_fill
  rx_fill-FillResult s empty p m = fill_from-FillResult num_rx_desc 0 s refl (record {
    held = λ i lo. absurd (omega arith);
    owned = λ i lo. absurd (omega arith);
    none_above = λ i hi. empty i;
    pages_held = omega (arith, p);
    mappings_held = omega (arith, m);
  })
