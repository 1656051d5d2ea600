-- ===== src/System/Safe.antt =====
-- What holds of the receive path at all times, and what one event may do to it.
use mathlib.Core.List.{Perm}
use cros_rt.Base.{ℕ, ◌≤◌, ◌<◌, ◌*◌, ◌-◌, ◌^◌, ◌≡◌, ◌⊎◌, Bool, List, ◌++◌, some, done, feed}
use cros_rt.Base.Int.{ℤ, pos, negsuc}
use cros_rt.Buckets.{hash_size}
use cros_rt.Driver.SkbQueue.{SkbQueue}
use cros_rt.Driver.Device.{Device, set_pointers}
use cros_rt.Driver.Ports.Laws.{IsWellFormed}
use cros_rt.Driver.RtPoll.Order.{downward}
use cros_rt.Driver.Rx.{RxConfig}
use cros_rt.Sched.Task.{interruptible}
use cros_rt.Sched.Setscheduler.Success.{Agrees}
use cros_rt.Sched.Setscheduler.Laws.{IsConsistent}
use cros_rt.Net.Glue.{Napi, NapiHash, handler_id, napi_by_id}
use cros_rt.System.{System, Event, monitor, handler, server, connect, taken, step}

-- What the events rely on: the kernel lets a thread of its own change priorities, the polling server
-- has a share of 0 to 100 percent of a period whose hundredfold fits an `int`, and no priority that a
-- node names is negative.
abbrev pub IsAllowed : {Skb D : Type 0} → Event Skb D → Type 0
IsAllowed (monitor a) = Agrees a
IsAllowed (handler a) = Agrees a
IsAllowed (server elapsed_ms (pos period) (pos util)) = (util ≤ 100) × (100 * period ≤ 2 ^ 31 - 1)
IsAllowed (server elapsed_ms (pos period) (negsuc util)) = ⊥
IsAllowed (server elapsed_ms (negsuc period) util) = ⊥
IsAllowed (connect allocated (negsuc priority) port) = ⊥
IsAllowed _ = Unit

module _ {Head G D : Type 0} (hash : ℤ → ℕ) (hash_lt : (k : ℤ) → hash k < hash_size) where
  -- The highest priority is 1 to 99; the RT handler has not set its priority yet or runs at one that
  -- is not below it, and sleeps only where it is 1; its task is consistent; the table of ports is well
  -- formed and `cur_rx` a 32-bit number.
  pub record IsSafe (s : System Head G D) : Type 0 where
    pub low : 1 ≤ s.device.highest_pri
    pub high : s.device.highest_pri ≤ 99
    pub urgent : (s.krtd.rt_priority ≡ 0) ⊎ (s.device.highest_pri ≤ s.krtd.rt_priority)
    pub resting : s.krtd.state ≡ interruptible → s.device.highest_pri ≡ 1
    pub consistent : IsConsistent s.krtd
    pub placed : IsWellFormed hash hash_lt s.device.ports
    pub word : s.ring.cur_rx < 2 ^ 32

-- The packets in the queues of the driver.
abbrev pub waiting : {Skb G D : Type 0} (api : SkbQueue Skb) → System api.Head G D → List Skb
waiting api s = api.packets s.device.non_rt ++ downward (λ i. api.packets (s.device.pq i)) 99

-- From `s` to `t` safety is kept, GRO has received the packets of `given` in order, and these and
-- those that then wait are those of `come`, from the ring, and those that waited, each once.
pub record Stepped {Skb G D : Type 0} (api : SkbQueue Skb) (gro_receive : G → Skb → G)
    (hash : ℤ → ℕ) (hash_lt : (k : ℤ) → hash k < hash_size) (come given : List Skb)
    (s t : System api.Head G D) : Type 0 where
  pub safe : IsSafe hash hash_lt t
  pub fed : t.device.gro ≡ feed gro_receive s.device.gro given
  pub kept : Perm (given ++ waiting api t) (come ++ waiting api s)

module _ {Skb G D : Type 0} (api : SkbQueue Skb) (gro_receive : G → Skb → G) (dest_port : Skb → ℕ)
    (is_multicast : Skb → Bool) (c : RxConfig) (hash : ℤ → ℕ)
    (hash_lt : (k : ℤ) → hash k < hash_size) (table : Bool → ℤ → NapiHash (Device api.Head G))
    (n : Napi (Device api.Head G))
    (found : (allocated : Bool) (elapsed_ms : ℤ)
      → napi_by_id handler_id (table allocated elapsed_ms)
        ≡ some (set_pointers api gro_receive hash allocated elapsed_ms n))
    (s : System api.Head G D) (safe : IsSafe hash hash_lt s) where
  abbrev pub Leads : Event Skb D → Type 0
  Leads e =
      (t : System api.Head G D) × (given : List Skb) × (step api gro_receive dest_port is_multicast
          c table e s
        ≡ done t)
      × Stepped api gro_receive hash hash_lt (taken api gro_receive dest_port is_multicast c e s)
          given s t
