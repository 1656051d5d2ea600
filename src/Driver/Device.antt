-- ===== src/Driver/Device.antt =====
-- The driver's state as the handlers reach it, and the part of `rtl_init_one` of r8169_main.c that
-- sets the function pointers of its NAPI instance.
use cros_rt.Base.{ℕ, suc, Bool, Option, none, some, Outcome, done, fault, ◌>>=◌}
use cros_rt.Base.Int.{ℤ, pos}
use cros_rt.Driver.SkbQueue.{SkbQueue}
use cros_rt.Driver.Ports.{Ports, set_port_priority, remove_port_priority}
use cros_rt.Driver.Pq.{Pq}
use cros_rt.Driver.RtPoll.{Rt, rt_poll}
use cros_rt.Driver.NonRt.{NonRt, non_rt_poll, non_rt_pl_poll}
use cros_rt.Net.Glue.{
  Napi, netif_napi_add_port_priority, netif_napi_add_remove_port_priority, netif_napi_add_rt_poll,
  netif_napi_add_non_rt_poll, netif_napi_add_non_rt_pl_poll, netif_napi_add_highest_prio,
}

-- The static variables, the queues of `struct rtl8169_private` and the GRO state.
pub record Device (Head G : Type 0) : Type 0 where
  pub ports : Ports
  pub pq : Pq Head
  pub highest_pri : ℕ
  pub non_rt : Head
  pub gro : G

module _ {Head G : Type 0} where
  abbrev pub rt_part : Device Head G → Rt Head G
  rt_part d = record {
    pq = d.pq;
    highest_pri = d.highest_pri;
    in_use = d.ports.in_use;
    gro = d.gro;
  }

  abbrev pub with_rt : Device Head G → Rt Head G → Device Head G
  with_rt d s = record d { pq = s.pq; highest_pri = s.highest_pri; gro = s.gro }

  abbrev pub after_rt : Device Head G → Option (Rt Head G × ℕ) → Outcome (Device Head G × ℤ)
  after_rt d none = fault
  after_rt d (some (s, ret)) = done (with_rt d s, pos ret)

  abbrev pub non_rt_part : Device Head G → NonRt Head G
  non_rt_part d = record { non_rt = d.non_rt; gro = d.gro }

  abbrev pub with_non_rt : Device Head G → NonRt Head G → Device Head G
  with_non_rt d s = record d { non_rt = s.non_rt; gro = s.gro }

  abbrev pub after_non_rt : Device Head G → Option (NonRt Head G) → Outcome (Device Head G)
  after_non_rt d none = fault
  after_non_rt d (some s) = done (with_non_rt d s)

  abbrev pub with_ports : Device Head G → Outcome Ports → Outcome (Device Head G)
  with_ports d o = o >>= λ s. done (record d { ports = s })

module _ {Skb G : Type 0} (api : SkbQueue Skb) (gro_receive : G → Skb → G) (hash : ℤ → ℕ)
    (allocated : Bool) (elapsed_ms : ℤ) where
  open api use {Head, skb_queue_len}

  abbrev pub device_set : ℤ → ℤ → Device Head G → Outcome (Device Head G)
  device_set priority port d = with_ports d (set_port_priority hash allocated priority port d.ports)

  abbrev pub device_remove : ℤ → Device Head G → Outcome (Device Head G)
  device_remove port d = with_ports d (remove_port_priority hash port d.ports)

  -- The loops take one round more than there are packets.
  abbrev pub device_rt_poll : Device Head G → Outcome (Device Head G × ℤ)
  device_rt_poll d =
      after_rt d (rt_poll api gro_receive (suc (skb_queue_len (d.pq d.highest_pri))) (rt_part d))

  abbrev pub device_non_rt_poll : Device Head G → Outcome (Device Head G)
  device_non_rt_poll d =
      after_non_rt d (non_rt_poll api gro_receive (suc (skb_queue_len d.non_rt)) (non_rt_part d))

  abbrev pub device_non_rt_pl_poll : ℤ → ℤ → Device Head G → Outcome (Device Head G)
  device_non_rt_pl_poll period util d =
      non_rt_pl_poll api gro_receive period util elapsed_ms (non_rt_part d) >>= λ r.
      done (with_non_rt d r.0)

  -- `highest_prio` of r8169_main.c
  abbrev pub highest_prio : Device Head G → ℤ
  highest_prio d = pos d.highest_pri

  -- The calls of `rtl_init_one` after `netif_napi_add`.
  unfoldable pub set_pointers : Napi (Device Head G) → Napi (Device Head G)
  set_pointers n = netif_napi_add_highest_prio highest_prio (
      netif_napi_add_non_rt_pl_poll device_non_rt_pl_poll (
        netif_napi_add_non_rt_poll device_non_rt_poll (
          netif_napi_add_rt_poll device_rt_poll (
            netif_napi_add_remove_port_priority device_remove
              (netif_napi_add_port_priority device_set n)))))
