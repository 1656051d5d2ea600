-- ===== src/System/Wakeups.antt =====
-- Packets that arrive while the background server sleeps, or is about to: `rtl_rx` wakes knonrtd only
-- if its state is not TASK_RUNNING, and non_rt_bg.c sets the state after it has polled.
use cros_rt.Base.{ℕ, ◌<◌, ◌^◌, ◌≡◌, Bool, false, Option, List, is_nil, Outcome}
use cros_rt.Base.Int.{ℤ}
use cros_rt.Driver.SkbQueue.{SkbQueue}
use cros_rt.Driver.NonRt.{NonRt}
use cros_rt.Driver.Device.{Device}
use cros_rt.Driver.Rx.{RxConfig}
use cros_rt.Driver.Rx.Selector.{keep, arrivals, is_selected}
use cros_rt.Net.Glue.{NapiHash}
use cros_rt.System.{System, background, step}

module _ {Skb G D : Type 0} (api : SkbQueue Skb) (gro_receive : G → Skb → G) (dest_port : Skb → ℕ)
    (is_multicast : Skb → Bool) (c : RxConfig) (table : Bool → ℤ → NapiHash (Device api.Head G))
    (alloc_skb : ℕ → ℕ → Option Skb) (budget : ℕ) (s : System api.Head G D)
    (word : s.ring.cur_rx < 2 ^ 32)
    (some_selected : is_nil (keep (is_selected dest_port c) (arrivals c alloc_skb budget s.ring))
      ≡ false) where
  abbrev come : List Skb
  come = arrivals c alloc_skb budget s.ring

  abbrev selected : List Skb
  selected = keep (is_selected dest_port c) come

  abbrev step_background : System api.Head G D → Outcome (System api.Head G D)
  step_background = step api gro_receive dest_port is_multicast c table background
