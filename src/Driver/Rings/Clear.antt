-- ===== src/Driver/Rings/Clear.antt =====
-- Clearing the receive ring.
use cros_rt.Base.{
  ℕ, zero, suc, ◌+◌, ◌-◌, ◌≤◌, ◌<◌, ◌≡◌, inl, inr, true, false, none, some, ◌==◌, Bool-cases, arith,
  ltb, subst,
}
use cros_rt.Driver.Rx.{num_rx_desc}
use cros_rt.Driver.Rings.{RxBufs, free_page, clear_entry, clear_from, rx_clear}

-- The entries below `i` hold a page and belong to the hardware; `n` pages and mappings are held for
-- them besides the ones before.
pub record IsFilled (n : ℕ) (pages mappings : ℕ) (s : RxBufs) : Type 0 where
  pub held : (i : ℕ) → i < n → (p : ℕ) × (s.databuff i ≡ some p)
  pub owned : (i : ℕ) → i < n → (s.desc i).own ≡ true
  pub none_above : (i : ℕ) → n ≤ i → s.databuff i ≡ none
  pub pages_held : s.pages ≡ pages + n
  pub mappings_held : s.mappings ≡ mappings + n

-- From index `i` to `n` the entries hold a page, and there are as many more pages and mappings.
record Clearing (i n pages mappings : ℕ) (s : RxBufs) : Type 0 where
  held : (j : ℕ) → i ≤ j → j < n → (p : ℕ) × (s.databuff j ≡ some p)
  cleared : (j : ℕ) → j < i → s.databuff j ≡ none
  disowned : (j : ℕ) → j < i → (s.desc j).own ≡ false
  above : (j : ℕ) → n ≤ j → s.databuff j ≡ none
  order : i ≤ n
  pages_held : s.pages ≡ pages + (n - i)
  mappings_held : s.mappings ≡ mappings + (n - i)

-- Nothing is held, and the hardware has none of the first `n` descriptors.
pub record IsCleared (n pages mappings : ℕ) (s : RxBufs) : Type 0 where
  pub empty : (j : ℕ) → s.databuff j ≡ none
  pub disowned : (j : ℕ) → j < n → (s.desc j).own ≡ false
  pub pages_freed : s.pages ≡ pages
  pub mappings_freed : s.mappings ≡ mappings

Clearing-entry :
    (i n pages mappings : ℕ) (s : RxBufs)
    → i < n
    → Clearing i n pages mappings s
    → Clearing (i + 1) n pages mappings (clear_entry i s)
unfolding clear_entry free_page
Clearing-entry i n pages mappings s below c = record {
  held = λ j lo hi.
      let apart : (i == j) ≡ false = ground arith in rw apart (c.held j (omega arith) hi);
  cleared = λ j lo. ground (arith, c.cleared j);
  disowned = λ j lo. ground (arith, c.disowned j);
  above = λ j hi. ground (arith, c.above j);
  order = omega arith;
  pages_held = omega (arith, c.pages_held);
  mappings_held = omega (arith, c.mappings_held);
}

Clearing-finished :
    (n pages mappings : ℕ) (s : RxBufs)
    → Clearing n n pages mappings s
    → IsCleared n pages mappings s
Clearing-finished n pages mappings s c = record {
  empty = λ j. elim (Bool-cases (ltb j n)) [
    | inl below ↦ c.cleared j (ground arith)
    | inr above ↦ c.above j (ground arith)
  ];
  disowned = c.disowned;
  pages_freed = omega (arith, c.pages_held);
  mappings_freed = omega (arith, c.mappings_held);
}

clear_from-IsCleared :
    (rounds i n pages mappings : ℕ) (s : RxBufs)
    → n ≤ i + rounds
    → Clearing i n pages mappings s
    → IsCleared n pages mappings (clear_from rounds i s)
unfolding clear_from
clear_from-IsCleared zero i n pages mappings s enough c =
    let at : i ≡ n = omega (arith, c.order) in
    Clearing-finished n pages mappings s (subst (λ k. Clearing k n pages mappings s) at c)
clear_from-IsCleared (suc rounds) i n pages mappings s enough c = elim (Bool-cases (i == n)) [
  | inl end ↦
      let at : i ≡ n = ground arith in
      rw (c.above i (omega arith), clear_from)
        (Clearing-finished n pages mappings s (subst (λ k. Clearing k n pages mappings s) at c))
  | inr more ↦
      let below : i < n = ground (arith, c.order) in
      let (data_page, has) = c.held i (omega arith) below in
      rw (has, clear_from)
        (clear_from-IsCleared rounds (i + 1) n pages mappings (clear_entry i s) (omega arith)
          (Clearing-entry i n pages mappings s below c))
]

-- Clearing a ring whose first `n` entries are filled.
pub rx_clear-IsCleared :
    (n pages mappings : ℕ) (s : RxBufs)
    → n ≤ num_rx_desc
    → IsFilled n pages mappings s
    → IsCleared n pages mappings (rx_clear s)
unfolding rx_clear
rx_clear-IsCleared n pages mappings s le f =
    clear_from-IsCleared num_rx_desc 0 n pages mappings s (omega arith) (record {
      held = λ j lo hi. f.held j hi;
      cleared = λ j lo. absurd (omega arith);
      disowned = λ j lo. absurd (omega arith);
      above = f.none_above;
      order = omega arith;
      pages_held = omega (arith, f.pages_held);
      mappings_held = omega (arith, f.mappings_held);
    })
