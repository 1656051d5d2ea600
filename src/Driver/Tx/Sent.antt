-- ===== src/Driver/Tx/Sent.antt =====
-- What `rtl8169_start_xmit` does with the packet that it is given.
use cros_rt.Base.{
  true_ne_false, ℕ, zero, suc, ◌+◌, ◌-◌, ◌%◌, ◌≤◌, ◌<◌, ◌≡◌, ◌≢◌, refl, ap, sym, ◌∙◌, subst, Option,
  none, some, List, [], ◌∷◌, ◌++◌, append-nil, arith, ◌==◌, Bool, Bool-cases, Option-cases, inl,
  inr, true, false, length, true_ne_false,
}
use cros_rt.Driver.Tx.{
  Tx, unmap_tx_skb, consume_skb, tx_clear_range, tx_map, xmit_frags, num_tx_desc, put,
}
use cros_rt.Driver.Tx.Room.{tx_clear_range-Same}
use cros_rt.Driver.Tx.Packets.{skb_at, packets-none}
use cros_rt.Driver.Tx.Consumed.{clear-consumed, free_entry, free_entry-skb}

abbrev pub AllPositive : List (ℕ × ℕ) → Type 0
AllPositive [] = Unit
AllPositive ((len, addr) ∷ l) = (len ≢ 0) × AllPositive l

-- Whether every piece of a packet can be mapped.
abbrev pub can_map : (ℕ → Option ℕ) → List (ℕ × ℕ) → Bool
can_map dma_map [] = true
can_map dma_map ((len, addr) ∷ l) = elim (dma_map addr) [
  | none ↦ false
  | some mapping ↦ can_map dma_map l
]

module _ {Skb : Type 0} where
  -- No packet comes or goes.
  pub record Quiet (s t : Tx Skb) : Type 0 where
    pub skbs : (i : ℕ) → skb_at t i ≡ skb_at s i
    pub consumed : t.consumed ≡ s.consumed
    pub kfreed : t.kfreed ≡ s.kfreed
    pub cur : t.cur_tx ≡ s.cur_tx
    pub dirty : t.dirty_tx ≡ s.dirty_tx
    pub mapped : (i : ℕ) → (t.tx_skb i).len ≡ 0 → skb_at t i ≡ none

  pub Quiet-refl : (s : Tx Skb) → ((i : ℕ) → (s.tx_skb i).len ≡ 0 → skb_at s i ≡ none) → Quiet s s
  Quiet-refl s h = record {
    skbs = λ i. refl;
    consumed = refl;
    kfreed = refl;
    cur = refl;
    dirty = refl;
    mapped = h;
  }

  pub Quiet-trans : {s t u : Tx Skb} → Quiet s t → Quiet t u → Quiet s u
  Quiet-trans p q = record {
    skbs = λ i. q.skbs i ∙ p.skbs i;
    consumed = q.consumed ∙ p.consumed;
    kfreed = q.kfreed ∙ p.kfreed;
    cur = q.cur ∙ p.cur;
    dirty = q.dirty ∙ p.dirty;
    mapped = q.mapped;
  }

  unmap-skb :
      (entry i : ℕ) (s : Tx Skb)
      → skb_at s entry ≡ none
      → skb_at (unmap_tx_skb entry s) i ≡ skb_at s i
  unfolding unmap_tx_skb
  unmap-skb entry i s free = elim (Bool-cases (entry == i)) [
    | inl here ↦ rw (here, skb_at) (sym free ∙ ap (skb_at s) (ground (arith, here)))
    | inr other ↦ rw (other, skb_at) refl
  ]

  pub unmap-Quiet :
      (entry : ℕ) (s : Tx Skb)
      → ((i : ℕ) → (s.tx_skb i).len ≡ 0 → skb_at s i ≡ none)
      → skb_at s entry ≡ none
      → Quiet s (unmap_tx_skb entry s)
  unfolding unmap_tx_skb
  unmap-Quiet entry s h free = record {
    skbs = λ i. unmap-skb entry i s free;
    consumed = refl;
    kfreed = refl;
    cur = refl;
    dirty = refl;
    mapped = λ i e. ground (arith, h i, e);
  }

  -- Clearing entries that have no packet.
  clear-skbs :
      (n start : ℕ) (s : Tx Skb)
      → ((i k : ℕ) → k < n → (start + k) % 256 ≡ i → skb_at s i ≡ none)
      → (i : ℕ) → skb_at (tx_clear_range start n s) i ≡ skb_at s i
  unfolding tx_clear_range unmap_tx_skb consume_skb
  clear-skbs zero start s free i = refl
  clear-skbs (suc n) start s free i =
      let later : (j k : ℕ) → k < n → (start + 1 + k) % 256 ≡ j → skb_at s j ≡ none =
        λ j k lt at. free j (suc k) (omega (arith, lt)) (omega (arith, at)) in
      elim (Bool-cases ((s.tx_skb (start % 256)).len == 0)) [
        | inl clear ↦ rw clear (clear-skbs n (start + 1) s later i)
        | inr full ↦ rw full (
            clear-skbs n (start + 1) (free_entry (start % 256) s)
              (λ j k lt at. free_entry-skb (start % 256) j s (later j k lt at)) i
            ∙ unmap-skb (start % 256) i s (free (start % 256) 0 (omega arith) (omega arith)))
      ]

  clear-Quiet :
      (n start : ℕ) (s : Tx Skb)
      → n ≤ 256
      → ((i : ℕ) → (s.tx_skb i).len ≡ 0 → skb_at s i ≡ none)
      → ((i k : ℕ) → k < n → (start + k) % 256 ≡ i → skb_at s i ≡ none)
      → Quiet s (tx_clear_range start n s)
  clear-Quiet n start s le h free =
      let (freed, mapped, no_drop) = clear-consumed n start s le h in
      let same = tx_clear_range-Same n start s in
      record {
        skbs = clear-skbs n start s free;
        consumed =
            freed
            ∙ ap (λ l. s.consumed ++ l) (packets-none s.tx_skb n start free)
            ∙ append-nil s.consumed;
        kfreed = no_drop;
        cur = same.cur;
        dirty = same.dirty;
        mapped = mapped;
      }

  -- `tx_map` where the data can be mapped.
  abbrev pub map_entry : ℕ × ℕ → ℕ → ℕ → Bool → ℕ → Tx Skb → Tx Skb
  map_entry opts len entry own mapping s = record s {
    desc = put s.desc entry (record {
      own = own;
      ring_end = entry == num_tx_desc - 1;
      first_frag = false;
      last_frag = false;
      opts1 = opts.0 + len;
      opts2 = opts.1;
      addr = mapping;
    });
    tx_skb = put s.tx_skb entry (record (s.tx_skb entry) { len = len });
  }

  pub map_entry-Quiet :
      (opts : ℕ × ℕ) (len entry : ℕ) (own : Bool) (mapping : ℕ) (s : Tx Skb)
      → ((i : ℕ) → (s.tx_skb i).len ≡ 0 → skb_at s i ≡ none)
      → skb_at s entry ≡ none
      → Quiet s (map_entry opts len entry own mapping s)
  map_entry-Quiet opts len entry own mapping s h free = record {
    skbs = λ i. elim (Bool-cases (entry == i)) [
      | inl here ↦ rw (here, skb_at) (ap (skb_at s) (ground (arith, here)))
      | inr other ↦ rw (other, skb_at) refl
    ];
    consumed = refl;
    kfreed = refl;
    cur = refl;
    dirty = refl;
    mapped = λ i e. ground (arith, h i, e, free);
  }

  pub map_entry-len :
      (opts : ℕ × ℕ) (len entry : ℕ) (own : Bool) (mapping : ℕ) (s : Tx Skb)
      → ((map_entry opts len entry own mapping s).tx_skb entry).len ≡ len
  map_entry-len opts len entry own mapping s = ground arith

  module _ (dma_map : ℕ → Option ℕ) where
    -- The fragments that are left, from `entry` on, which is mapped.
    pub xmit_frags-Quiet :
        (opts : ℕ × ℕ) (frags : List (ℕ × ℕ)) (cur_frag entry : ℕ) (s : Tx Skb)
        → AllPositive frags
        → cur_frag + length frags ≤ 17
        → (s.cur_tx + cur_frag) % 256 ≡ entry
        → ((i k : ℕ) → k ≤ cur_frag + length frags → (s.cur_tx + k) % 256 ≡ i → skb_at s i ≡ none)
        → ((i : ℕ) → (s.tx_skb i).len ≡ 0 → skb_at s i ≡ none)
        → (s.tx_skb entry).len ≢ 0
        → let (ok, t) = xmit_frags dma_map opts frags cur_frag entry s in
          Quiet s t
          × (ok ≡ can_map dma_map frags)
          × (ok ≡ true → (t.tx_skb ((s.cur_tx + (cur_frag + length frags)) % 256)).len ≢ 0)
    unfolding xmit_frags tx_map
    xmit_frags-Quiet opts [] cur_frag entry s pos few at free h full =
        (Quiet-refl s h, refl, λ ok. subst (λ i. (s.tx_skb i).len ≢ 0) (omega (arith, at)) full)
    xmit_frags-Quiet opts ((len, addr) ∷ frags) cur_frag entry s pos few at free h full =
        elim (Option-cases (dma_map addr)) [
          | inl error ↦
              rw (error, xmit_frags, can_map)
                (
                  clear-Quiet cur_frag (s.cur_tx + 1) s (omega (arith, few)) h
                      (λ i k lt at'. free i (suc k) (omega (arith, lt)) (omega (arith, at'))),
                  refl,
                  λ ok. absurd (true_ne_false (sym ok)),
                )
          | inr (mapping, ok) ↦
              let next = (entry + 1) % 256 in
              let t = map_entry opts len next true mapping s in
              let first =
                map_entry-Quiet opts len next true mapping s h
                  (free next (suc cur_frag) (omega (arith, few)) (omega (arith, at))) in
              let (quiet, good, last) =
                xmit_frags-Quiet opts frags (cur_frag + 1) next t pos.1 (omega (arith, few))
                  (omega (arith, at))
                  (λ i k le at'. first.skbs i ∙ free i k (omega (arith, le)) at') first.mapped
                  (λ e. pos.0 (sym (map_entry-len opts len next true mapping s) ∙ e)) in
              rw (ok, xmit_frags, can_map)
                (
                  Quiet-trans first quiet,
                  good,
                  λ ok'.
                      subst
                        (λ i.
                          ((xmit_frags dma_map opts frags (cur_frag + 1) next t).1.tx_skb i).len
                          ≢ 0)
                        (omega arith) (last ok'),
                )
        ]
