-- ===== src/Tests/Framework.antt =====
-- The system calls and the handlers on a device with three waiting messages.
use cros_rt.Base.{
  ℕ, ◌≡◌, ◌≤◌, ◌↔◌, refl, true, false, List, [], ◌∷◌, some, done, fault, arith, if◌then◌else◌, ◌==◌,
  ltb,
}
use cros_rt.Base.Int.{pos, negsuc}
use cros_rt.Tests.Data.{
  fifo_task-IsConsistent, agreeing-Agrees, queue, snoc, hash, hash_lt, device, bare_napi, fifo_task,
  agreeing,
}
use cros_rt.Driver.Ports.Laws.{IsWellFormed}
use cros_rt.Driver.Device.{Device, set_pointers}
use cros_rt.Net.Glue.{
  Napi, NapiHash, napi_by_id, find_napi, netif_napi_add_port_priority,
  netif_napi_add_remove_port_priority, netif_napi_add_rt_poll, netif_napi_add_non_rt_poll,
  netif_napi_add_non_rt_pl_poll, netif_napi_add_highest_prio,
}
use cros_rt.Sched.Task.{Task, running, interruptible, fifo}
use cros_rt.Framework.Syscalls.{connect_pp_syscall, disconnect_pp_syscall}
use cros_rt.Framework.Syscalls.Laws.{connect_pp_syscall-fault, disconnect-connect}
use cros_rt.Framework.RtHandler.{monitor_round, handler_round}
use cros_rt.Framework.RtHandler.Laws.{monitor_round_lem, handler_round_lem}
use cros_rt.Framework.Threads.{task_ptr, stop_live, stop_live-StopsThreads}
use cros_rt.Framework.RtHandler.Init.{Steps, Loaded, rt_handler_init_lem}
use cros_rt.Framework.NonRt.Init.{ServerLoaded, server_init_lem}

abbrev Dev : Type 0
Dev = Device (List ℕ) (List ℕ)

abbrev ready : Napi Dev
ready = set_pointers queue snoc hash true (pos 1) bare_napi

abbrev table : NapiHash Dev
table i = if i == 1 then ready ∷ [] else []

ready_found : napi_by_id 257 table ≡ some ready
unfolding napi_by_id find_napi set_pointers netif_napi_add_port_priority
    netif_napi_add_remove_port_priority netif_napi_add_rt_poll netif_napi_add_non_rt_poll
    netif_napi_add_non_rt_pl_poll netif_napi_add_highest_prio
ready_found = refl

device-IsWellFormed : IsWellFormed hash hash_lt device.ports
device-IsWellFormed = λ b. tt

connect_pp_syscall-fault_example :
    (connect_pp_syscall table (negsuc 0) (pos 7411) device ≡ fault)
    ↔ ((true ≡ true) × (true ≡ true) × (true ≡ true))
connect_pp_syscall-fault_example =
    connect_pp_syscall-fault queue snoc hash hash_lt true (pos 1) table bare_napi ready_found
      (negsuc 0) (pos 7411) device

disconnect-connect_example :
    (e f : Dev) × (connect_pp_syscall table (pos 20) (pos 7411) device ≡ done (e, pos 0))
    × (disconnect_pp_syscall table (pos 7411) e ≡ done (f, pos 0))
    × (f ≡ record device { ports = record (device.ports) { in_use = f.ports.in_use } })
disconnect-connect_example =
    disconnect-connect queue snoc hash hash_lt true (pos 1) table bare_napi ready_found 20
      (pos 7411) device refl refl device-IsWellFormed

monitor_round_lem_example :
    (u : Task ℕ) × (monitor_round table agreeing device fifo_task ≡ done u)
    × (u.rt_priority ≡ 3)
    × (u.state ≡ running)
monitor_round_lem_example =
    monitor_round_lem queue snoc hash true (pos 1) table bare_napi ready_found agreeing
      agreeing-Agrees fifo_task fifo_task-IsConsistent device (omega arith) (omega arith)

handler_round_lem_example :
    (e : Dev) × (u : Task ℕ) × (handler_round table agreeing device fifo_task ≡ done (e, u))
    × (e.gro ≡ 10 ∷ 11 ∷ [])
    × (1 ≤ e.highest_pri)
    × (e.highest_pri ≤ 3)
    × (u.policy ≡ fifo)
    × (u.rt_priority ≡ e.highest_pri)
    × (u.state ≡ (if ltb e.highest_pri 2 then interruptible else interruptible))
handler_round_lem_example =
    handler_round_lem queue snoc hash true (pos 1) table bare_napi ready_found agreeing
      agreeing-Agrees fifo_task fifo_task-IsConsistent device (omega arith) (omega arith)

-- The last step, pinning kmond, fails.
abbrev kmond_unpinned : Steps
kmond_unpinned = record {
  krtd = task_ptr;
  kmond = task_ptr;
  fifo_set = true;
  krtd_pinned = true;
  kmond_pinned = false;
}

rt_handler_init_lem_example : Loaded stop_live kmond_unpinned
rt_handler_init_lem_example = rt_handler_init_lem stop_live stop_live-StopsThreads kmond_unpinned

server_init_lem_example : ServerLoaded stop_live task_ptr false true
server_init_lem_example = server_init_lem stop_live stop_live-StopsThreads task_ptr false true
