-- ===== src/System.antt =====
-- The receive path as a whole: the driver with its ring, the RT handler, the non-RT handler and the
-- system calls over one state, r8169_main.c, net/core/dev.c and ros2_framework together. What happens
-- is a sequence of events in any order: each is a call that runs with interrupts off or under its
-- lock, or a step of a thread between two such calls. krtd_on has one value here and the pointer
-- knonrtd of r8169_main.c leads to its thread; Switched sets both while the path runs.
pub mod Packets
pub mod Safe
pub mod Steps
pub mod Others
pub mod Laws
pub mod Order
pub mod Wakeups
pub mod Switched
use cros_rt.Base.{
  ℕ, Bool, true, List, [], ◌∷◌, ◌++◌, Option, if◌then◌else◌, Outcome, done, fault, ◌>>=◌,
}
use cros_rt.Base.Int.{ℤ, pos}
use cros_rt.Driver.SkbQueue.{SkbQueue}
use cros_rt.Driver.Device.{Device}
use cros_rt.Driver.Rx.{RxDesc, RxRing, RxStats, RxConfig, Sink, rtl_rx}
use cros_rt.Driver.Rx.Selector.{arrivals}
use cros_rt.Sched.Task.{Task, running, interruptible}
use cros_rt.Sched.Setscheduler.{Answers}
use cros_rt.Net.Glue.{NapiHash, net_non_rt_handler_action}
use cros_rt.Framework.Syscalls.{connect_pp_syscall, disconnect_pp_syscall}
use cros_rt.Framework.RtHandler.{is_running, monitor_round, handler_round}
use cros_rt.Framework.NonRt.{server_round}

-- Where `run_non_rt_handler` of non_rt_bg.c stands: before it polls, before it sets its state to
-- sleep, and in `schedule()`.
pub data Place : Type 0 where
  before_poll before_sleep in_schedule : Place

pub record System (Head G D : Type 0) : Type 0 where
  pub device : Device Head G
  pub ring : RxRing
  pub stats : RxStats
  pub krtd : Task D
  pub knonrtd : Task D
  pub place : Place

-- `receive` carries what allocation gives for each frame and the budget, `frames` what the hardware
-- has written to the ring, `server` the milliseconds that the clock sees pass, `connect` whether
-- memory is allocated.
pub data Event (Skb D : Type 0) : Type 0 where
  frames : (ℕ → RxDesc) → Event Skb D
  receive : (ℕ → ℕ → Option Skb) → ℕ → Event Skb D
  monitor : Answers D → Event Skb D
  handler : Answers D → Event Skb D
  background : Event Skb D
  server : (elapsed_ms period util : ℤ) → Event Skb D
  connect : Bool → (priority port : ℤ) → Event Skb D
  disconnect : (port : ℤ) → Event Skb D

-- A step of the background server's thread.
module _ {S D : Type 0} (table : NapiHash S) where
  unfoldable pub background_step : Place → S → Task D → Outcome (S × Task D × Place)
  unfolding net_non_rt_handler_action
  background_step before_poll s current = do
    t ← net_non_rt_handler_action table s
    done (t, current, before_sleep)
  background_step before_sleep s current =
      done (s, record current { state = interruptible }, in_schedule)
  background_step in_schedule s current = done (s, record current { state = running }, before_poll)

module _ {Skb G D : Type 0} (api : SkbQueue Skb) (gro_receive : G → Skb → G) (dest_port : Skb → ℕ)
    (is_multicast : Skb → Bool) (c : RxConfig) where
  open api use {Head}

  abbrev pub sink_of : System Head G D → Sink Head G D
  sink_of s = record {
    non_rt = s.device.non_rt;
    knonrtd = s.knonrtd;
    gro = s.device.gro;
    stats = s.stats;
  }

  abbrev pub with_sink : System Head G D → RxRing → Sink Head G D → System Head G D
  with_sink s r k = record s {
    ring = r;
    stats = k.stats;
    knonrtd = k.knonrtd;
    device = record (s.device) { non_rt = k.non_rt; gro = k.gro };
  }

  abbrev pub with_device : System Head G D → Device Head G → System Head G D
  with_device s d = record s { device = d }

  -- The packets that an event takes from the ring.
  abbrev pub taken : Event Skb D → System Head G D → List Skb
  taken (receive alloc_skb budget) s = arrivals c alloc_skb budget s.ring
  taken _ s = []

  -- `table allocated elapsed_ms` holds the instance whose functions meet these answers.
  module _ (table : Bool → ℤ → NapiHash (Device Head G)) where
    -- A thread that sleeps does nothing.
    unfoldable pub step : Event Skb D → System Head G D → Outcome (System Head G D)
    unfolding rtl_rx monitor_round handler_round background_step server_round connect_pp_syscall
        disconnect_pp_syscall
    step (frames desc) s = done (record s { ring = record (s.ring) { desc = desc } })
    step (receive alloc_skb budget) s =
        let r =
          rtl_rx api gro_receive dest_port is_multicast c alloc_skb budget s.ring (sink_of s) in
        done (with_sink s r.1 r.2)
    step (monitor a) s =
        monitor_round (table true (pos 0)) a s.device s.krtd >>= λ t. done (record s { krtd = t })
    step (handler a) s =
        if is_running s.krtd.state
        then (handler_round (table true (pos 0)) a s.device s.krtd >>= λ r.
            done (record s { device = r.0; krtd = r.1 }))
        else done s
    step background s =
        if is_running s.knonrtd.state
        then (background_step (table true (pos 0)) s.place s.device s.knonrtd >>= λ r.
            done (record s { device = r.0; knonrtd = r.1; place = r.2 }))
        else done s
    step (server elapsed_ms period util) s =
        server_round (table true elapsed_ms) period util s.device >>= λ r. done (with_device s r.0)
    step (connect allocated priority port) s =
        connect_pp_syscall (table allocated (pos 0)) priority port s.device >>= λ r.
        done (with_device s r.0)
    step (disconnect port) s =
        disconnect_pp_syscall (table true (pos 0)) port s.device >>= λ r. done (with_device s r.0)

    unfoldable pub run : List (Event Skb D) → System Head G D → Outcome (System Head G D)
    run [] s = done s
    run (e ∷ l) s = step e s >>= λ t. run l t

    -- The packets that the events of a run take from the ring.
    unfoldable pub taken_by : List (Event Skb D) → System Head G D → List Skb
    taken_by [] s = []
    taken_by (e ∷ l) s = elim (step e s) [ fault ↦ [] | done t ↦ taken e s ++ taken_by l t ]
