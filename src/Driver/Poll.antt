-- ===== src/Driver/Poll.antt =====
-- The driver's poll function as a whole, `rtl8169_poll` of r8169_main.c: it frees what was sent,
-- receives up to its budget, and ends the poll if less than the budget was there.
pub mod Drained
use cros_rt.Base.{ℕ, Bool, Option, none, some}
use cros_rt.Driver.SkbQueue.{SkbQueue}
use cros_rt.Driver.Tx.{Tx, rtl_tx}
use cros_rt.Driver.Rx.{RxRing, RxStats, RxConfig, Sink, rtl_rx}
use cros_rt.Driver.Interrupt.{Irq, poll_done}
use cros_rt.Net.Instance.{Config}
use cros_rt.Sched.Task.{Task}

-- The parts of `struct rtl8169_private` that it reaches. The GRO state stands in the NAPI instance.
pub record Nic (Skb Head G D : Type 0) : Type 0 where
  pub tx : Tx Skb
  pub ring : RxRing
  pub non_rt : Head
  pub knonrtd : Task D
  pub stats : RxStats
  pub irq : Irq G

module _ {Skb Head G D : Type 0} where
  abbrev pub sink_of : Nic Skb Head G D → Sink Head G D
  sink_of s = record {
    non_rt = s.non_rt;
    knonrtd = s.knonrtd;
    gro = s.irq.napi.gro;
    stats = s.stats;
  }

  abbrev pub with_sink : Nic Skb Head G D → RxRing → Sink Head G D → Nic Skb Head G D
  with_sink s r k = record s {
    ring = r;
    non_rt = k.non_rt;
    knonrtd = k.knonrtd;
    stats = k.stats;
    irq = record (s.irq) { napi = record (s.irq.napi) { gro = k.gro } };
  }

module _ {Skb G D : Type 0} (api : SkbQueue Skb) (gro_receive : G → Skb → G) (dest_port : Skb → ℕ)
    (is_multicast : Skb → Bool) (c : RxConfig) (alloc_skb : ℕ → ℕ → Option Skb) (held : G → Bool)
    (gro_flush : Bool → G → G) (gro_normal_list : G → G) (config : Config) where
  open api use {Head}

  -- From `rtl_rx` on.
  unfoldable pub receive_and_end : ℕ → Nic Skb Head G D → ℕ × Nic Skb Head G D
  unfolding rtl_rx poll_done
  receive_and_end budget s =
      let (work_done, r, k) =
        rtl_rx api gro_receive dest_port is_multicast c alloc_skb budget s.ring (sink_of s) in
      let t = with_sink s r k in
      (
        work_done,
        record t { irq = poll_done held gro_flush gro_normal_list config budget work_done t.irq },
      )

  -- `fuel` bounds the loop of `rtl_tx`.
  unfoldable pub poll : (fuel budget : ℕ) → Nic Skb Head G D → Option (ℕ × Nic Skb Head G D)
  unfolding rtl_tx receive_and_end
  poll fuel budget s = elim (rtl_tx fuel s.tx) [
    | none ↦ none
    | some t ↦ some (receive_and_end budget (record s { tx = t }))
  ]
