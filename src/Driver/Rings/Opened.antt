-- ===== src/Driver/Rings/Opened.antt =====
-- What `rtl_open` leaves behind.
use cros_rt.Base.{
  ◌||◌, ◌≤◌, ℕ, ◌+◌, ◌≡◌, refl, inl, inr, Bool, true, false, none, if◌then◌else◌, Bool-cases, arith,
  done,
}
use cros_rt.Driver.SkbQueue.{SkbQueue}
use cros_rt.Driver.Pq.{Pq}
use cros_rt.Driver.Pq.Laws.{init_done}
use cros_rt.Driver.Rx.{num_rx_desc}
use cros_rt.Driver.Rings.{
  RxBufs, Held, OpenAnswers, no_databuff, rx_fill, init_ring, at_free_rx, at_release_fw,
  at_free_irq, open_filled, rtl_open,
}
use cros_rt.Driver.Rings.Fill.{FillResult, all_filled, all_cleared, rx_fill-FillResult}
use cros_rt.Driver.Rings.Clear.{IsFilled, rx_clear-IsCleared}

-- The device is closed, firmware apart: it holds no ring, no buffer, no interrupt and no PHY, and
-- as many pages and mappings as before.
pub record IsClosed (pages mappings : ℕ) (s : Held) : Type 0 where
  pub no_tx_ring : s.tx_ring ≡ false
  pub no_rx_ring : s.rx_ring ≡ false
  pub no_buffer : (i : ℕ) → s.bufs.databuff i ≡ none
  pub pages_freed : s.bufs.pages ≡ pages
  pub mappings_freed : s.bufs.mappings ≡ mappings
  pub no_irq : s.irq ≡ false
  pub no_phy : s.phy ≡ false
  pub down : s.up ≡ false

-- The device is open: it holds both rings, all buffers, the interrupt and the PHY.
pub record IsOpen (pages mappings : ℕ) (s : Held) : Type 0 where
  pub tx_ring : s.tx_ring ≡ true
  pub rx_ring : s.rx_ring ≡ true
  pub filled : IsFilled num_rx_desc pages mappings s.bufs
  pub marked : (s.bufs.desc 255).ring_end ≡ true
  pub irq : s.irq ≡ true
  pub phy : s.phy ≡ true
  pub up : s.up ≡ true

-- By the answer.
abbrev pub Ends : ℕ → ℕ → Bool → Held → Type 0
Ends pages mappings true s = IsOpen pages mappings s
Ends pages mappings false s = IsClosed pages mappings s

-- If it returns 0, firmware is held if it was or could be loaded; else only if it was.
abbrev pub FirmwareEnds : (before loads ok : Bool) → Held → Type 0
FirmwareEnds before loads true s = s.firmware ≡ (before || loads)
FirmwareEnds before loads false s = before ≡ false → s.firmware ≡ false

-- The queues that a call leaves allocated.
abbrev pub queues_taken : OpenAnswers → ℕ
queues_taken a = if a.tx_ring then if a.rx_ring then 2 else 0 else 0

module _ (pages mappings : ℕ) where
  release_fw-IsClosed :
      (s : Held)
      → IsFilled num_rx_desc pages mappings s.bufs
      → s.irq ≡ false
      → s.phy ≡ false
      → s.up ≡ false
      → IsClosed pages mappings (at_release_fw s)
  unfolding at_release_fw
  release_fw-IsClosed s f irq phy up =
      let c = rx_clear-IsCleared num_rx_desc pages mappings s.bufs (omega arith) f in
      record {
        no_tx_ring = refl;
        no_rx_ring = refl;
        no_buffer = c.empty;
        pages_freed = c.pages_freed;
        mappings_freed = c.mappings_freed;
        no_irq = irq;
        no_phy = phy;
        down = up;
      }

  open_filled-Ends :
      (a : OpenAnswers) (s : Held)
      → IsFilled num_rx_desc pages mappings s.bufs
      → (s.bufs.desc 255).ring_end ≡ true
      → s.tx_ring ≡ true
      → s.rx_ring ≡ true
      → s.irq ≡ false
      → s.phy ≡ false
      → s.up ≡ false
      → let r = open_filled a s in Ends pages mappings r.0 r.1
  unfolding open_filled at_free_irq
  open_filled-Ends a s f marked tx rx irq phy up = elim (Bool-cases a.irq) [
    | inr no_irq ↦
        rw (no_irq, open_filled)
          (release_fw-IsClosed (record s { firmware = s.firmware || a.firmware }) f irq phy up)
    | inl got_irq ↦ elim (Bool-cases a.phy) [
      | inr no_phy ↦
          rw (got_irq, no_phy, open_filled)
            (release_fw-IsClosed (record s { firmware = s.firmware || a.firmware; irq = false }) f
              refl phy up)
      | inl got_phy ↦
          rw (got_irq, got_phy, open_filled)
            (record {
              tx_ring = tx;
              rx_ring = rx;
              filled = f;
              marked = marked;
              irq = refl;
              phy = refl;
              up = refl;
            })
    ]
  ]

  open_filled-firmware :
      (a : OpenAnswers) (s : Held)
      → let r = open_filled a s in FirmwareEnds s.firmware a.firmware r.0 r.1
  unfolding open_filled at_free_irq at_release_fw
  open_filled-firmware a s = elim (Bool-cases a.irq) [
    | inr no_irq ↦ rw (no_irq, open_filled) (λ e. refl)
    | inl got_irq ↦ elim (Bool-cases a.phy) [
      | inr no_phy ↦ rw (got_irq, no_phy, open_filled) (λ e. refl)
      | inl got_phy ↦ rw (got_irq, got_phy, open_filled) refl
    ]
  ]

  open_filled-queues : (a : OpenAnswers) (s : Held) → (open_filled a s).1.queues ≡ s.queues
  unfolding open_filled at_free_irq at_release_fw
  open_filled-queues a s = elim (Bool-cases a.irq) [
    | inr no_irq ↦ rw (no_irq, open_filled) refl
    | inl got_irq ↦ elim (Bool-cases a.phy) [
      | inr no_phy ↦ rw (got_irq, no_phy, open_filled) refl
      | inl got_phy ↦ rw (got_irq, got_phy, open_filled) refl
    ]
  ]

  -- With both rings allocated and the receive ring filled or not.
  abbrev with_rings : Held → RxBufs → Held
  with_rings s bufs = record s {
    tx_ring = true;
    rx_ring = true;
    bufs = bufs;
    queues = s.queues + 2;
  }

  abbrev after_fill : OpenAnswers → Held → Bool → Bool × Held
  after_fill a s b = if b then open_filled a s else (false, at_free_rx s)

  after_fill-Ends :
      (a : OpenAnswers) (s : Held) {b : Bool} {bufs : RxBufs}
      → IsClosed pages mappings s
      → FillResult pages mappings b bufs
      → let r = after_fill a (with_rings s bufs) b in
        Ends pages mappings r.0 r.1
        × (r.1.queues ≡ s.queues + 2)
        × FirmwareEnds s.firmware a.firmware r.0 r.1
  after_fill-Ends a s {bufs = bufs} c (all_filled f marked) = (
    open_filled-Ends a (with_rings s bufs) f marked refl refl c.no_irq c.no_phy c.down,
    open_filled-queues a (with_rings s bufs),
    open_filled-firmware a (with_rings s bufs),
  )
  after_fill-Ends a s c (all_cleared n e) = (
    record {
      no_tx_ring = refl;
      no_rx_ring = refl;
      no_buffer = e.empty;
      pages_freed = e.pages_freed;
      mappings_freed = e.mappings_freed;
      no_irq = c.no_irq;
      no_phy = c.no_phy;
      down = c.down;
    },
    refl,
    λ e. e,
  )

  -- On a closed device, with memory for the two queues, and the one for `pq` with room for 101
  -- queues as `priority_queue_init` needs, `rtl_open` ends open or closed: if it returns 0 the
  -- device holds both rings, all buffers, the interrupt and the PHY, and firmware if it had it or
  -- there is some; on each of its error paths everything that it took is given back, firmware too,
  -- but for the two queues.
  pub rtl_open-Ends :
      {Skb : Type 0} (api : SkbQueue Skb) (memory : Pq api.Head) (a : OpenAnswers) (s : Held)
      → IsClosed pages mappings s
      → a.pq ≡ true
      → 101 ≤ a.room
      → a.non_rt ≡ true
      → (ok : Bool) × (t : Held) × (rtl_open api memory a s ≡ done (ok, t))
        × Ends pages mappings ok t
        × (t.queues ≡ s.queues + queues_taken a)
        × FirmwareEnds s.firmware a.firmware ok t
  unfolding rtl_open init_ring
  rtl_open-Ends api memory a s c pq room non_rt = elim (Bool-cases a.tx_ring) [
    | inr no_tx ↦ (false, s, rw no_tx refl, c, rw no_tx (omega arith), λ e. e)
    | inl tx ↦ elim (Bool-cases a.rx_ring) [
      | inr no_rx ↦ (
        false,
        record s { tx_ring = false },
        rw (tx, no_rx) refl,
        record {
          no_tx_ring = refl;
          no_rx_ring = c.no_rx_ring;
          no_buffer = c.no_buffer;
          pages_freed = c.pages_freed;
          mappings_freed = c.mappings_freed;
          no_irq = c.no_irq;
          no_phy = c.no_phy;
          down = c.down;
        },
        rw (tx, no_rx) (omega arith),
        λ e. e,
      )
      | inl rx ↦
          let r = rx_fill a.page a.mapping (no_databuff s.bufs) in
          let filled =
            rx_fill-FillResult a.page a.mapping pages mappings (no_databuff s.bufs) (λ i. refl)
              c.pages_freed c.mappings_freed in
          let (queues, inited) = init_done api a.room memory room in
          let (ends, taken, firmware) = after_fill-Ends a s c filled in
          (
            (after_fill a (with_rings s r.1) r.0).0,
            (after_fill a (with_rings s r.1) r.0).1,
            rw (tx, rx, pq, non_rt, inited) refl,
            ends,
            rw (tx, rx) taken,
            firmware,
          )
    ]
  ]
