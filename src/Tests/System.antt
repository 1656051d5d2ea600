-- ===== src/Tests/System.antt =====
-- The receive path with three waiting messages, two frames in the ring and the handlers.
use mathlib.Core.List.{Perm}
use cros_rt.Base.{
  ℕ, ◌≡◌, refl, sym, inl, inr, Bool, true, false, List, [], ◌∷◌, ◌++◌, none, some, ◌==◌,
  if◌then◌else◌, feed, arith, done, fault,
}
use cros_rt.Base.Int.{ℤ, pos}
use cros_rt.Base.Cint.{ -ℤ-pos}
use cros_rt.Tests.Data.{
  queue, snoc, hash, hash_lt, device, bare_napi, fifo_task, agreeing, agreeing-Agrees,
}
use cros_rt.Tests.Rings.{two_frames, all_on, alloc}
use cros_rt.Driver.Device.{Device, set_pointers}
use cros_rt.Driver.RtPoll.Order.{IsMarked, downward}
use cros_rt.Net.Glue.{
  NapiHash, napi_by_id, find_napi, netif_napi_add_port_priority,
  netif_napi_add_remove_port_priority, netif_napi_add_rt_poll, netif_napi_add_non_rt_poll,
  netif_napi_add_non_rt_pl_poll, netif_napi_add_highest_prio,
}
use cros_rt.Sched.Task.{Task, running, normal_prio, normal_prio_of, class_of}
use cros_rt.Sched.Setscheduler.Laws.{IsConsistent}
use cros_rt.System.{
  Place, before_sleep, in_schedule, sink_of, System, Event, receive, monitor, handler, background,
  server, connect, disconnect, run, taken_by,
}
use cros_rt.System.Safe.{IsSafe, waiting}
use cros_rt.Driver.Rx.{bad_frame, fragmented_frame}
use cros_rt.Driver.Rx.Pointer.{rtl_rx_pointer, rtl_rx_pointer-null}
use cros_rt.System.Laws.{AllAllowed, run-Perm}
use cros_rt.System.Switched.{Switched, Act, event, set_krtd_on}
use cros_rt.System.Order.{rounds, rounds-order}

abbrev Dev : Type 0
Dev = Device (List ℕ) (List ℕ)

abbrev Sys : Type 0
Sys = System (List ℕ) (List ℕ) ℕ

abbrev tables : Bool → ℤ → NapiHash Dev
tables allocated elapsed_ms i =
    if i == 1 then set_pointers queue snoc hash allocated elapsed_ms bare_napi ∷ [] else []

tables_found :
    (allocated : Bool) (elapsed_ms : ℤ)
    → napi_by_id 257 (tables allocated elapsed_ms)
      ≡ some (set_pointers queue snoc hash allocated elapsed_ms bare_napi)
unfolding napi_by_id find_napi set_pointers netif_napi_add_port_priority
    netif_napi_add_remove_port_priority netif_napi_add_rt_poll netif_napi_add_non_rt_poll
    netif_napi_add_non_rt_pl_poll netif_napi_add_highest_prio
tables_found allocated elapsed_ms = refl

-- The RT handler at priority 3.
abbrev urgent_task : Task ℕ
urgent_task = record fifo_task {
  state = running;
  rt_priority = 3;
  normal_prio = pos 96;
  prio = pos 96;
}

urgent_task-IsConsistent : IsConsistent urgent_task
unfolding normal_prio normal_prio_of class_of
urgent_task-IsConsistent = record {
  rt_range = λ rt. (omega arith, omega arith);
  not_rt = λ other. ground (arith, other);
  stored = sym (-ℤ-pos 99 3 (omega arith));
  class = refl;
}

abbrev start : Place → Task ℕ → Sys
start place knonrtd = record {
  device = device;
  ring = two_frames;
  stats = record {
    rx_errors = 0;
    rx_length_errors = 0;
    rx_crc_errors = 0;
    rx_dropped = 0;
    multicast = 0;
    rx_packets = 0;
  };
  krtd = urgent_task;
  knonrtd = knonrtd;
  place = place;
}

-- The non-RT handler sleeps.
abbrev begin : Sys
begin = start in_schedule fifo_task

begin-IsSafe : IsSafe hash hash_lt begin
begin-IsSafe = record {
  low = omega arith;
  high = omega arith;
  urgent = inr (omega arith);
  resting = λ e. ground arith;
  consistent = urgent_task-IsConsistent;
  placed = λ b. tt;
  word = omega arith;
}

abbrev port_of_packet : ℕ → ℕ
port_of_packet skb = skb

abbrev no_multicast : ℕ → Bool
no_multicast skb = false

-- A frame arrives, both handlers get turns, a node connects a port and the server runs.
abbrev story : List (Event ℕ ℕ)
story =
    receive alloc 64
    ∷ background
    ∷ connect true (pos 20) (pos 7411)
    ∷ background
    ∷ handler agreeing
    ∷ monitor agreeing
    ∷ disconnect (pos 7411)
    ∷ server (pos 1) (pos 100) (pos 50)
    ∷ []

story-AllAllowed : AllAllowed story
story-AllAllowed = (
  tt,
  (tt, (tt, (tt, (agreeing-Agrees, (agreeing-Agrees, (tt, ((omega arith, omega arith), tt))))))),
)

-- krtd_on is off and the pointer NULL at first; it is set and cleared while frames arrive.
abbrev unset : Switched (List ℕ) (List ℕ) ℕ
unset = record { system = begin; switch = record { krtd_on = false; is_found = false } }

abbrev switching : List (Act ℕ ℕ)
switching =
    event (receive alloc 1)
    ∷ set_krtd_on (some true) true
    ∷ event (receive alloc 64)
    ∷ event background
    ∷ event (connect true (pos 20) (pos 7411))
    ∷ event background
    ∷ event (handler agreeing)
    ∷ event (monitor agreeing)
    ∷ set_krtd_on none false
    ∷ event (server (pos 1) (pos 100) (pos 50))
    ∷ set_krtd_on (some false) false
    ∷ event (receive alloc 64)
    ∷ []

run-Perm_example :
    (t : Sys) × (given : List ℕ) × (run queue snoc port_of_packet no_multicast all_on tables story
        begin
      ≡ done t)
    × (t.device.gro ≡ feed snoc [] given)
    × Perm (given ++ waiting queue t) (
        taken_by queue snoc port_of_packet no_multicast all_on tables story begin
        ++ waiting queue begin)
run-Perm_example =
    run-Perm queue snoc port_of_packet no_multicast all_on hash hash_lt tables bare_napi
      tables_found story begin begin-IsSafe story-AllAllowed

begin-IsMarked :
    IsMarked queue snoc
      (record { pq = device.pq; highest_pri = 3; in_use = device.ports.in_use; gro = [] })
begin-IsMarked = record { positive = omega arith; covered = λ i lo hi free. ground arith }

rounds-order_example :
    (t : Sys) × (run queue snoc port_of_packet no_multicast all_on tables
        (rounds (agreeing ∷ agreeing ∷ agreeing ∷ []))
        begin
      ≡ done t)
    × (t.device.gro ≡ feed snoc [] (downward (λ i. queue.packets (device.pq i)) 3))
rounds-order_example =
    rounds-order queue snoc port_of_packet no_multicast all_on hash hash_lt tables bare_napi
      tables_found (agreeing ∷ agreeing ∷ agreeing ∷ []) begin
      (agreeing-Agrees, (agreeing-Agrees, (agreeing-Agrees, tt))) begin-IsSafe begin-IsMarked
      (inl refl) (omega arith)

-- The non-RT handler has polled.
abbrev polled : Sys
polled = start before_sleep urgent_task

-- With krtd_on set and no thread found, a message faults.
null_pointer :
    rtl_rx_pointer queue snoc port_of_packet no_multicast all_on false
      (λ entry size. some 7778)
      2
      two_frames
      (sink_of queue snoc port_of_packet no_multicast all_on begin)
    ≡ fault
unfolding bad_frame fragmented_frame
null_pointer =
    rtl_rx_pointer-null queue snoc port_of_packet no_multicast all_on false
      (λ entry size. some 7778) refl 2 two_frames _ refl
