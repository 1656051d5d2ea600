-- ===== src/Driver/Reset/Fresh.antt =====
-- What `rtl_task` of r8169_main.c leaves in the rings.
use cros_rt.Base.{
  Option, ℕ, zero, suc, ◌+◌, ◌-◌, ◌%◌, ◌≤◌, ◌<◌, ◌≡◌, refl, ap, sym, ◌∙◌, ◌⊎◌, inl, inr, true,
  false, ◌==◌, if◌then◌else◌, Bool-cases, arith,
}
use cros_rt.Driver.Tx.{consume_skb, Tx, unmap_tx_skb, tx_clear_range, slots_avail}
use cros_rt.Driver.Tx.Counters.{in_flight}
use cros_rt.Driver.Tx.Room.{IsRoomy}
use cros_rt.Driver.Rx.{RxRing, mark_to_asic}
use cros_rt.Driver.Reset.{
  Device, init_ring_indexes, tx_clear, cleanup_rings, all_to_asic, reset_work, wake_queue,
  is_reset_due, rtl_task,
}

module _ {Skb : Type 0} where
  abbrev len_at : Tx Skb → ℕ → ℕ
  len_at s i = (s.tx_skb i).len

  -- An entry that is empty stays so.
  unmap-len :
      (entry i : ℕ) (s : Tx Skb)
      → (entry ≡ i) ⊎ (len_at s i ≡ 0)
      → len_at (unmap_tx_skb entry s) i ≡ 0
  unfolding unmap_tx_skb
  unmap-len entry i s h = ground (arith, h)

  consume-len : (skb : Option Skb) (i : ℕ) (s : Tx Skb) → len_at (consume_skb skb s) i ≡ len_at s i
  unfolding consume_skb
  consume-len skb i s = refl

  round-len :
      (entry i : ℕ) (s : Tx Skb)
      → (entry ≡ i) ⊎ (len_at s i ≡ 0)
      → len_at
          (if len_at s entry == 0
            then s
            else consume_skb ((s.tx_skb entry).skb) (unmap_tx_skb entry s))
          i
        ≡ 0
  round-len entry i s h = elim (Bool-cases (len_at s entry == 0)) [
    | inl clear ↦ rw clear (by_case clear h)
    | inr full ↦ rw full (consume-len _ i _ ∙ unmap-len entry i s h)
  ]
    where
      by_case : (len_at s entry == 0) ≡ true → (entry ≡ i) ⊎ (len_at s i ≡ 0) → len_at s i ≡ 0
      by_case clear (inr e) = e
      by_case clear (inl e) = ap (len_at s) (sym e) ∙ ground (arith, clear)

  clear-len :
      (n start i : ℕ) (s : Tx Skb)
      → ((k : ℕ) × (k < n) × ((start + k) % 256 ≡ i)) ⊎ (len_at s i ≡ 0)
      → len_at (tx_clear_range start n s) i ≡ 0
  unfolding tx_clear_range
  clear-len zero start i s (inl (k, k_lt, at)) = omega (arith, k_lt)
  clear-len zero start i s (inr e) = e
  clear-len (suc n) start i s (inr e) =
      clear-len n (start + 1) i _ (inr (round-len (start % 256) i s (inr e)))
  clear-len (suc n) start i s (inl (zero, k_lt, at)) =
      clear-len n (start + 1) i _ (inr (round-len (start % 256) i s (inl (omega (arith, at)))))
  clear-len (suc n) start i s (inl (suc k, k_lt, at)) =
      clear-len n (start + 1) i _ (inl (k, omega (arith, k_lt), omega (arith, at)))

  tx_clear-len : (s : Tx Skb) (i : ℕ) → i < 256 → len_at (tx_clear s) i ≡ 0
  unfolding tx_clear
  tx_clear-len s i h =
      clear-len 256 s.dirty_tx i s
        (inl ((i + 256 - s.dirty_tx % 256) % 256, omega arith, omega (arith, h)))

all_to_asic-later : (n i : ℕ) (r : RxRing) → n ≤ i → (all_to_asic n r).desc i ≡ r.desc i
unfolding all_to_asic
all_to_asic-later zero i r h = refl
all_to_asic-later (suc n) i r h =
    let other : (n == i) ≡ false = ground (arith, h) in
    rw other (all_to_asic-later n i r (omega (arith, h)))

all_to_asic-desc :
    (n i : ℕ) (r : RxRing) → i < n → (all_to_asic n r).desc i ≡ mark_to_asic (r.desc i)
unfolding all_to_asic
all_to_asic-desc zero i r h = ground (arith, h)
all_to_asic-desc (suc n) i r h = elim (Bool-cases (n == i)) [
  | inl here ↦ rw here (ap mark_to_asic (all_to_asic-later n i r (ground (arith, here))))
  | inr other ↦ rw other (all_to_asic-desc n i r (ground (arith, h, other)))
]

all_to_asic-cur_rx : (n : ℕ) (r : RxRing) → (all_to_asic n r).cur_rx ≡ r.cur_rx
unfolding all_to_asic
all_to_asic-cur_rx zero r = refl
all_to_asic-cur_rx (suc n) r = all_to_asic-cur_rx n r

module _ {Skb : Type 0} where
  -- Nothing is left to send, the indices stand at the start, the queue runs, and the hardware owns
  -- every descriptor for receiving.
  pub record IsFresh (s t : Device Skb) : Type 0 where
    pub nothing_pending : t.reset_pending ≡ false
    pub tx_empty : (i : ℕ) → i < 256 → len_at t.tx i ≡ 0
    pub none_in_flight : in_flight t.tx.cur_tx t.tx.dirty_tx ≡ 0
    pub roomy : IsRoomy t.tx
    pub runs : t.tx.queue_stopped ≡ false
    pub rx_start : t.rx.cur_rx ≡ 0
    pub rx_marked : (i : ℕ) → i < 256 → t.rx.desc i ≡ mark_to_asic (s.rx.desc i)

  pub reset-IsFresh :
      (s : Device Skb) → IsFresh s (wake_queue (reset_work (record s { reset_pending = false })))
  unfolding reset_work cleanup_rings init_ring_indexes slots_avail
  reset-IsFresh s = record {
    nothing_pending = refl;
    tx_empty = tx_clear-len (record (s.tx) { queue_stopped = true });
    none_in_flight = refl;
    roomy = record {
      cur_word = omega arith;
      dirty_word = omega arith;
      bounded = omega arith;
      fits = λ h. refl;
    };
    runs = refl;
    rx_start = all_to_asic-cur_rx 256 _;
    rx_marked = λ i h. all_to_asic-desc 256 i _ h;
  }

  -- When the device runs, its tasks are enabled and a reset is pending, then after `rtl_task` no
  -- reset is pending, every entry of the Tx ring is empty, none is in flight, the counters satisfy
  -- the invariant of the Tx ring and its queue runs, and receiving starts at entry 0 of a ring
  -- whose 256 descriptors are all given back to the hardware. Otherwise `rtl_task` changes
  -- nothing.
  pub rtl_task-IsFresh :
      (s : Device Skb)
      → ((is_reset_due s ≡ true) × IsFresh s (rtl_task s))
        ⊎ ((is_reset_due s ≡ false) × (rtl_task s ≡ s))
  unfolding rtl_task
  rtl_task-IsFresh s = elim (Bool-cases (is_reset_due s)) [
    | inl due ↦ inl (due, rw due (reset-IsFresh s))
    | inr idle ↦ inr (idle, rw idle refl)
  ]
