-- ===== src/Driver/Reset.antt =====
-- Resetting the rings, r8169_main.c: `rtl8169_init_ring_indexes`, `rtl8169_tx_clear`, the part of
-- `rtl8169_cleanup` that concerns the rings, `rtl_reset_work` and `rtl_task`. NAPI and the chip's
-- registers, which a reset turns off and on again, are left out.
pub mod Fresh
use cros_rt.Base.{ℕ, zero, suc, ◌-◌, Bool, true, false, ◌&&◌, ◌==◌, if◌then◌else◌}
use cros_rt.Driver.Tx.{Tx, num_tx_desc, tx_clear_range}
use cros_rt.Driver.Rx.{RxRing, mark_to_asic, num_rx_desc}

-- The rings with `netif_running` and the two flags of `wk.flags`.
pub record Device (Skb : Type 0) : Type 0 where
  pub tx : Tx Skb
  pub rx : RxRing
  pub running : Bool
  pub task_enabled : Bool
  pub reset_pending : Bool

-- The loop over the descriptors below `n`; each is marked for itself, so the order does not matter.
unfoldable pub all_to_asic : ℕ → RxRing → RxRing
all_to_asic zero r = r
all_to_asic (suc n) r =
    let later = all_to_asic n r in
    record later { desc = λ i. if n == i then mark_to_asic (later.desc i) else later.desc i }

module _ {Skb : Type 0} where
  unfoldable pub init_ring_indexes : Device Skb → Device Skb
  init_ring_indexes s = record s {
    tx = record (s.tx) { dirty_tx = 0; cur_tx = 0 };
    rx = record (s.rx) { cur_rx = 0 };
  }

  unfoldable pub tx_clear : Tx Skb → Tx Skb
  tx_clear s = tx_clear_range s.dirty_tx num_tx_desc s

  -- From `no_reset:` on.
  unfoldable pub cleanup_rings : Device Skb → Device Skb
  unfolding tx_clear init_ring_indexes
  cleanup_rings s = init_ring_indexes (record s { tx = tx_clear s.tx })

  unfoldable pub reset_work : Device Skb → Device Skb
  unfolding cleanup_rings
  reset_work s =
      let t = cleanup_rings (record s { tx = record (s.tx) { queue_stopped = true } }) in
      record t { rx = all_to_asic num_rx_desc t.rx }

  abbrev pub wake_queue : Device Skb → Device Skb
  wake_queue s = record s { tx = record (s.tx) { queue_stopped = false } }

  abbrev pub is_reset_due : Device Skb → Bool
  is_reset_due s = s.running && (s.task_enabled && s.reset_pending)

  unfoldable pub rtl_task : Device Skb → Device Skb
  unfolding reset_work
  rtl_task s =
      if is_reset_due s then wake_queue (reset_work (record s { reset_pending = false })) else s

  -- `rtl_schedule_task(tp, RTL_FLAG_TASK_RESET_PENDING)`; the work is queued elsewhere.
  unfoldable pub schedule_reset : Device Skb → Device Skb
  schedule_reset s = record s { reset_pending = true }

  unfoldable pub tx_timeout : Device Skb → Device Skb
  unfolding schedule_reset
  tx_timeout s = schedule_reset s
