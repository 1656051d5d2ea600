-- ===== src/Driver/Interrupt.antt =====
-- The driver's interrupt and its poll function, `rtl8169_interrupt` and `rtl8169_poll` of
-- r8169_main.c, with the masking of its interrupts. `rtl_tx` and `rtl_rx` come before what is
-- modelled of the poll function; their work is an argument. The messages for `top_half` are left
-- out.
pub mod Armed
use cros_rt.Base.{
  ℕ, ◌+◌, Bool, true, false, not, ◌||◌, ◌&&◌, Option, none, some, ltb, if◌then◌else◌,
}
use cros_rt.Net.Instance.{Inst, Config, napi_schedule_prep, napi_enqueue, napi_complete_done}

-- The status word by the tests that the handler makes of it.
pub record Events : Type 0 where
  pub all_ones : Bool
  pub wanted : Bool
  pub sys_err : Bool
  pub link_chg : Bool
  pub rx_fifo_over : Bool

pub data IrqReturn : Type 0 where
  irq_none irq_handled : IrqReturn

-- The instance, whether the chip's interrupts are enabled, and what else the handler starts.
pub record Irq (G : Type 0) : Type 0 where
  pub napi : Inst G
  pub irq_enabled : Bool
  pub reset_pending : Bool
  pub queue_stopped : Bool
  pub phy_interrupts : ℕ
  pub acked : ℕ

module _ {G : Type 0} where
  abbrev ack : Irq G → IrqReturn × Irq G
  ack s = (irq_handled, record s { acked = s.acked + 1 })

  abbrev pub link_changed : Events → Irq G → Irq G
  link_changed e s = if e.link_chg then record s { phy_interrupts = s.phy_interrupts + 1 } else s

  -- `version_11` tells whether the chip is RTL_GIGA_MAC_VER_11.
  abbrev pub fifo_over : Bool → Events → Irq G → Irq G
  fifo_over version_11 e s =
      if e.rx_fifo_over && version_11
      then record s { queue_stopped = true; reset_pending = true }
      else s

  -- `if (napi_schedule_prep(...)) { rtl_irq_disable(tp); __napi_schedule(...); }`
  unfoldable pub schedule_poll : Irq G → Irq G
  unfolding napi_schedule_prep napi_enqueue
  schedule_poll s =
      let (prepared, n) = napi_schedule_prep s.napi in
      if prepared
      then record s { napi = napi_enqueue n; irq_enabled = false }
      else record s { napi = n }

  unfoldable pub interrupt : Bool → Events → Irq G → IrqReturn × Irq G
  unfolding schedule_poll
  interrupt version_11 e s =
      if e.all_ones || not e.wanted
      then (irq_none, s)
      else if e.sys_err
      then ack (record s { reset_pending = true })
      else ack (schedule_poll (fifo_over version_11 e (link_changed e s)))

  module _ (held : G → Bool) (gro_flush : Bool → G → G) (gro_normal_list : G → G) where
    unfoldable pub poll_done : Config → (budget work_done : ℕ) → Irq G → Irq G
    unfolding napi_complete_done
    poll_done c budget work_done s =
        let (ok, n) = napi_complete_done held gro_flush gro_normal_list c work_done s.napi in
        if ltb work_done budget
        then record s { napi = n; irq_enabled = if ok then true else s.irq_enabled }
        else s
