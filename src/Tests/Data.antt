-- ===== src/Tests/Data.antt =====
-- Queues of numbers, a device with three waiting messages, and a task under SCHED_FIFO.
use cros_rt.Base.{
  sym, ℕ, ◌<◌, refl, true, false, ◌||◌, List, [], ◌∷◌, ◌++◌, none, ◌==◌, if◌then◌else◌, arith,
}
use cros_rt.Base.Int.{ℤ, pos}
use cros_rt.Buckets.{hash_size}
use cros_rt.Driver.SkbQueue.{SkbQueue, list_queue}
use cros_rt.Driver.Ports.{Ports}
use cros_rt.Driver.RtPoll.{Rt}
use cros_rt.Driver.Device.{Device}
use cros_rt.Net.Glue.{Napi}
use cros_rt.Base.Cint.{ -ℤ-pos}
use cros_rt.Sched.Setscheduler.Success.{Agrees}
use cros_rt.Sched.Setscheduler.Laws.{IsConsistent}
use cros_rt.Sched.Task.{normal_prio, normal_prio_of, class_of, Task, interruptible, fifo, rt_class}
use cros_rt.Sched.Setscheduler.{Answers}

abbrev pub queue : SkbQueue ℕ
queue = list_queue ℕ

abbrev pub snoc : List ℕ → ℕ → List ℕ
snoc g x = g ++ x ∷ []

abbrev pub hash : ℤ → ℕ
hash k = 0

pub hash_lt : (k : ℤ) → hash k < hash_size
hash_lt k = omega arith

abbrev pub no_ports : Ports
no_ports = record { table = λ b. []; in_use = λ i. false }

-- Packets 10 and 11 at priority 3, and 12 at priority 1.
abbrev pub three_packets : ℕ → List ℕ
three_packets i = if i == 3 then 10 ∷ 11 ∷ [] else if i == 1 then 12 ∷ [] else []

abbrev pub three_messages : Rt (List ℕ) (List ℕ)
three_messages = record {
  pq = three_packets;
  highest_pri = 3;
  in_use = λ i. i == 3 || i == 1;
  gro = [];
}

abbrev pub device : Device (List ℕ) (List ℕ)
device = record {
  ports = record { table = λ b. []; in_use = λ i. i == 3 || i == 1 };
  pq = three_packets;
  highest_pri = 3;
  non_rt = 20 ∷ 21 ∷ [];
  gro = [];
}

abbrev pub bare_napi : Napi (Device (List ℕ) (List ℕ))
bare_napi = record {
  napi_id = 257;
  set_port_priority = none;
  remove_port_priority = none;
  rt_poll = none;
  non_rt_poll = none;
  non_rt_pl_poll = none;
  highest_prio = none;
}

abbrev pub fifo_task : Task ℕ
fifo_task = record {
  state = interruptible;
  policy = fifo;
  rt_priority = 2;
  static_prio = pos 120;
  normal_prio = pos 97;
  prio = pos 97;
  sched_class = rt_class;
  sched_reset_on_fork = false;
  dl = 0;
}

-- A privileged caller whom nothing stops, and one without CAP_SYS_NICE.
abbrev pub agreeing : Answers ℕ
agreeing = record {
  capable = true;
  rlimit_rtprio = 0;
  can_nice = λ n. true;
  same_owner = true;
  security = 0;
  uclamp = 0;
  is_stop = false;
  checkparam_dl = λ d. true;
  dl_changed = false;
  dl_overflow = false;
  no_rt_runtime = false;
  dl_denied = false;
  pi_top = none;
}

abbrev pub unprivileged : Answers ℕ
unprivileged = record agreeing { capable = false; rlimit_rtprio = 10 }

pub fifo_task-IsConsistent : IsConsistent fifo_task
unfolding normal_prio normal_prio_of class_of
fifo_task-IsConsistent = record {
  rt_range = λ rt. (omega arith, omega arith);
  not_rt = λ other. ground (arith, other);
  stored = sym (-ℤ-pos 99 2 (omega arith));
  class = refl;
}

pub agreeing-Agrees : Agrees agreeing
agreeing-Agrees = record {
  privileged = refl;
  permitted = refl;
  no_stop = refl;
  runtime = refl;
  no_overflow = refl;
}
