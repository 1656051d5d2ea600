-- ===== src/Driver/Rings.antt =====
-- The memory behind the rings, r8169_main.c: `rtl8169_alloc_rx_data`, `rtl8169_rx_fill`,
-- `rtl8169_rx_clear`, `rtl8169_init_ring`, and `rtl_open` and `rtl8169_close` with what they take
-- and give back. What allocation, DMA mapping and the other subsystems answer are arguments; power
-- management and the registers of the chip are left out.

pub mod Clear
pub mod Fill
pub mod Opened
pub mod Closed
use cros_rt.Base.{
  ℕ, zero, suc, ◌+◌, ◌-◌, Bool, true, false, not, ◌||◌, Option, none, some, ◌==◌, if◌then◌else◌,
  Outcome, done, fault, ◌>>=◌,
}
use cros_rt.Driver.SkbQueue.{SkbQueue}
use cros_rt.Driver.Pq.{Pq, priority_queue_init}
use cros_rt.Driver.Rx.{RxDesc, mark_to_asic, num_rx_desc}

-- `Rx_databuff`, the addresses in the descriptors and the descriptors, with the pages and the DMA
-- mappings that are held.
pub record RxBufs : Type 0 where
  pub databuff : ℕ → Option ℕ
  pub addr : ℕ → ℕ
  pub desc : ℕ → RxDesc
  pub pages : ℕ
  pub mappings : ℕ

abbrev pub put_at : {A : Type 0} → (ℕ → A) → ℕ → A → ℕ → A
put_at f i a j = if i == j then a else f j

-- `opts1 = 0`
abbrev pub no_opts1 : RxDesc → RxDesc
no_opts1 d = record {
  own = false;
  ring_end = false;
  first_frag = false;
  last_frag = false;
  rx_res = false;
  rx_rwt = false;
  rx_runt = false;
  rx_crc = false;
  len = 0;
  opts2 = d.opts2;
}

unfoldable pub free_page : RxBufs → RxBufs
free_page s = record s { pages = s.pages - 1 }

-- The page, if any, and its DMA address, if it can be mapped, for descriptor `i`.
unfoldable pub alloc_rx_data : Option ℕ → Option ℕ → ℕ → RxBufs → Option ℕ × RxBufs
unfolding free_page mark_to_asic
alloc_rx_data none mapping i s = (none, s)
alloc_rx_data (some data_page) none i s = (none, free_page (record s { pages = s.pages + 1 }))
alloc_rx_data (some data_page) (some mapping) i s = (
  some data_page,
  record s {
    pages = s.pages + 1;
    mappings = s.mappings + 1;
    addr = put_at s.addr i mapping;
    desc = put_at s.desc i (mark_to_asic (s.desc i));
  },
)

-- The body of the loop of `rtl8169_rx_clear`.
unfoldable pub clear_entry : ℕ → RxBufs → RxBufs
unfolding free_page
clear_entry i s = free_page (record s {
  mappings = s.mappings - 1;
  databuff = put_at s.databuff i none;
  addr = put_at s.addr i 0;
  desc = put_at s.desc i (no_opts1 (s.desc i));
})

-- The loop from index `i`, with `n` indices left.
unfoldable pub clear_from : ℕ → ℕ → RxBufs → RxBufs
unfolding clear_entry
clear_from zero i s = s
clear_from (suc n) i s = elim (s.databuff i) [
  | none ↦ s
  | some data_page ↦ clear_from n (i + 1) (clear_entry i s)
]

unfoldable pub rx_clear : RxBufs → RxBufs
unfolding clear_from
rx_clear s = clear_from num_rx_desc 0 s

unfoldable pub mark_ring_end : RxBufs → RxBufs
mark_ring_end s = record s {
  desc = put_at s.desc (num_rx_desc - 1) (record (s.desc (num_rx_desc - 1)) { ring_end = true });
}

module _ (page mapping : ℕ → Option ℕ) where
  -- `false` stands for -ENOMEM.
  unfoldable pub fill_from : ℕ → ℕ → RxBufs → Bool × RxBufs
  fill_from zero i s = (true, mark_ring_end s)
  fill_from (suc n) i s = elim (alloc_rx_data (page i) (mapping i) i s).0 [
    | none ↦ (false, rx_clear (alloc_rx_data (page i) (mapping i) i s).1)
    | some data_page ↦
        let t = (alloc_rx_data (page i) (mapping i) i s).1 in
        fill_from n (i + 1) (record t { databuff = put_at t.databuff i (some data_page) })
  ]

  unfoldable pub rx_fill : RxBufs → Bool × RxBufs
  rx_fill s = fill_from num_rx_desc 0 s

-- What the driver holds between `rtl_open` and `rtl8169_close`: the two rings, the buffers, the
-- queues that `rtl8169_init_ring` allocates, counted as long as they are not freed, firmware, the
-- interrupt, the PHY, and whether the device is up.
pub record Held : Type 0 where
  pub tx_ring : Bool
  pub rx_ring : Bool
  pub bufs : RxBufs
  pub queues : ℕ
  pub firmware : Bool
  pub irq : Bool
  pub phy : Bool
  pub up : Bool

-- Whether each step that may fail succeeds; `room` is how many queues the memory for `pq` has room
-- for, which is more than the 100 asked for where `kmalloc` rounds the size up, and `firmware`
-- whether there is firmware to load.
pub record OpenAnswers : Type 0 where
  pub tx_ring : Bool
  pub rx_ring : Bool
  pub pq : Bool
  pub room : ℕ
  pub non_rt : Bool
  pub firmware : Bool
  pub page : ℕ → Option ℕ
  pub mapping : ℕ → Option ℕ
  pub irq : Bool
  pub phy : Bool

-- `memset(tp->Rx_databuff, 0, ...)`
abbrev pub no_databuff : RxBufs → RxBufs
no_databuff s = record s { databuff = λ i. none }

module _ {Skb : Type 0} (api : SkbQueue Skb) (memory : Pq api.Head) where
  -- A queue that is not allocated is written to through a null pointer. `memory` is what the memory
  -- for `pq` holds at first; what the two queues hold then is not kept here.
  unfoldable pub init_ring : OpenAnswers → Held → Outcome (Bool × Held)
  unfolding priority_queue_init
  init_ring a s =
      if a.non_rt
      then if a.pq
        then (priority_queue_init api a.room memory >>= λ pq.
            let (filled, bufs) = rx_fill a.page a.mapping (no_databuff s.bufs) in
            done (filled, record s { bufs = bufs; queues = s.queues + 2 }))
        else fault
      else fault

-- The labels of `rtl_open`, each falling through to the next.
abbrev pub at_free_tx : Held → Held
at_free_tx s = record s { tx_ring = false }

abbrev pub at_free_rx : Held → Held
at_free_rx s = at_free_tx (record s { rx_ring = false })

unfoldable pub at_release_fw : Held → Held
at_release_fw s = at_free_rx (record s { firmware = false; bufs = rx_clear s.bufs })

unfoldable pub at_free_irq : Held → Held
unfolding at_release_fw
at_free_irq s = at_release_fw (record s { irq = false })

-- `rtl_open` after `rtl8169_init_ring`; the answer is whether it returns 0.
unfoldable pub open_filled : OpenAnswers → Held → Bool × Held
unfolding at_release_fw at_free_irq
open_filled a s =
    let t = record s { firmware = s.firmware || a.firmware } in
    if not a.irq
    then (false, at_release_fw t)
    else if not a.phy
    then (false, at_free_irq (record t { irq = true }))
    else (true, record t { irq = true; phy = true; up = true })

module _ {Skb : Type 0} (api : SkbQueue Skb) (memory : Pq api.Head) where
  unfoldable pub rtl_open : OpenAnswers → Held → Outcome (Bool × Held)
  unfolding init_ring open_filled
  rtl_open a s =
      if not a.tx_ring
      then done (false, s)
      else if not a.rx_ring
      then done (false, at_free_tx (record s { tx_ring = true }))
      else (init_ring api memory a (record s { tx_ring = true; rx_ring = true }) >>= λ r.
          done (if r.0 then open_filled a r.1 else (false, at_free_rx r.1)))

unfoldable pub rtl_close : Held → Held
rtl_close s = record s {
  up = false;
  bufs = rx_clear s.bufs;
  irq = false;
  phy = false;
  rx_ring = false;
  tx_ring = false;
}
