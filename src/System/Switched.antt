-- ===== src/System/Switched.antt =====
-- The receive path with the parameter krtd_on of r8169_main.c, which is set while it runs, and the
-- pointer through which rtl_rx wakes knonrtd. The thread that the pointer leads to does not exit.
use cros_rt.Base.{
  ℕ, ◌≡◌, Bool, true, false, Option, none, some, List, [], ◌∷◌, Outcome, done, ◌>>=◌,
}
use cros_rt.Base.Int.{ℤ}
use cros_rt.Driver.SkbQueue.{SkbQueue}
use cros_rt.Driver.Device.{Device}
use cros_rt.Driver.Rx.{RxConfig}
use cros_rt.Driver.Rx.Pointer.{Switch, krtd_on_set, rtl_rx_pointer}
use cros_rt.Net.Glue.{NapiHash}
use cros_rt.System.{System, Event, receive, step, sink_of, with_sink}
use cros_rt.System.Safe.{IsAllowed}

pub record Switched (Head G D : Type 0) : Type 0 where
  pub system : System Head G D
  pub switch : Switch

-- An event, or a write to krtd_on with what is read and whether `pid_task` finds knonrtd.
pub data Act (Skb D : Type 0) : Type 0 where
  event : Event Skb D → Act Skb D
  set_krtd_on : Option Bool → Bool → Act Skb D

-- Whoever sets krtd_on has set the number of a thread that is there.
abbrev pub IsPermitted : {Skb D : Type 0} → Act Skb D → Type 0
IsPermitted (event e) = IsAllowed e
IsPermitted (set_krtd_on (some true) finds) = finds ≡ true
IsPermitted (set_krtd_on (some false) finds) = Unit
IsPermitted (set_krtd_on none finds) = Unit

abbrev pub AllPermitted : {Skb D : Type 0} → List (Act Skb D) → Type 0
AllPermitted [] = Unit
AllPermitted (a ∷ l) = IsPermitted a × AllPermitted l

module _ {Skb G D : Type 0} (api : SkbQueue Skb) (gro_receive : G → Skb → G) (dest_port : Skb → ℕ)
    (is_multicast : Skb → Bool) (c : RxConfig)
    (table : Bool → ℤ → NapiHash (Device api.Head G)) where
  open api use {Head}

  abbrev config : Switched Head G D → RxConfig
  config w = record c { krtd_on = w.switch.krtd_on }

  unfoldable pub take_act : Act Skb D → Switched Head G D → Outcome (Switched Head G D)
  unfolding rtl_rx_pointer krtd_on_set step
  take_act (set_krtd_on parsed finds) w =
      done (record w { switch = krtd_on_set parsed finds w.switch })
  take_act (event (receive alloc_skb budget)) w =
      rtl_rx_pointer api gro_receive dest_port is_multicast (config w) w.switch.is_found alloc_skb
        budget w.system.ring (sink_of api gro_receive dest_port is_multicast (config w) w.system)
      >>= λ r. done (record w {
        system = with_sink api gro_receive dest_port is_multicast (config w) w.system r.1 r.2;
      })
  take_act (event e) w =
      step api gro_receive dest_port is_multicast (config w) table e w.system >>= λ s.
      done (record w { system = s })

  unfoldable pub take_acts : List (Act Skb D) → Switched Head G D → Outcome (Switched Head G D)
  take_acts [] w = done w
  take_acts (a ∷ l) w = take_act a w >>= λ v. take_acts l v

  -- If krtd_on is set the pointer leads to knonrtd.
  abbrev pub IsWired : Switched Head G D → Type 0
  IsWired w = w.switch.krtd_on ≡ true → w.switch.is_found ≡ true
