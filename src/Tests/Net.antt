-- ===== src/Tests/Net.antt =====
-- The network core and the softirqs on concrete inputs.
use cros_rt.Base.{
  List, ◌+◌, ◌&&◌, ℕ, ◌≡◌, refl, Bool, true, false, ◌||◌, [], ◌∷◌, none, some, arith, if◌then◌else◌,
  ◌==◌,
}
use cros_rt.Base.Int.{pos, eqb_ℤ}
use cros_rt.Tests.Data.{fifo_task}
use cros_rt.Buckets.{Table, hash_size}
use cros_rt.Net.Tids.{TidEntry, Tasks, wake_up_by_priority}
use cros_rt.Net.Tids.Laws.{listed_from, wake, wake_up_by_priority_lem}
use cros_rt.Net.Instance.{Word, Inst, Config, napi_schedule_prep, completed_word}
use cros_rt.Net.Instance.Bits.{encode, prep_word, complete_word, and_bit, or_bit, word-encode}
use cros_rt.Net.Instance.Steps.{Sys, event, after, here, on_event}
use cros_rt.Net.Instance.Served.{IsOwned, Steps-IsOwned}
use cros_rt.Net.RxAction.{Softnet, net_rx_action}
use cros_rt.Net.RxAction.Laws.{IsRun, HasEnded, GoesOn, net_rx_action-IsRun}
use cros_rt.Softirq.{Cpu, raise_softirq_irqoff, do_softirq, irq_exit}
use cros_rt.Driver.Interrupt.{Events, Irq, interrupt}
use cros_rt.Driver.Interrupt.Armed.{IsArmed, IsQueued, interrupt-IsArmed}
use cros_rt.Softirq.Passes.{Served}
use cros_rt.Softirq.Laws.{NetRxLeft, do_softirq-Served, do_softirq-NetRxLeft}

abbrev no_tids : Table TidEntry
no_tids b = []

abbrev one_tid : Table TidEntry
one_tid b = if b == 0 then record { tid = pos 41; priority = pos 20 } ∷ [] else []

abbrev one_task : Tasks ℕ
one_task k = if eqb_ℤ k (pos 41) then some fifo_task else none

wake_up_by_priority_lem_example :
    wake_up_by_priority (pos 20) (pos 99) one_tid one_task (pos 41) ≡ (
      if listed_from (pos 20) (pos 41) one_tid hash_size 0
      then wake (some fifo_task)
      else some fifo_task)
wake_up_by_priority_lem_example =
    wake_up_by_priority_lem (pos 20) (pos 99) one_tid one_task (pos 41)

abbrev idle_word : Word
idle_word = record {
  sched = false;
  missed = false;
  disable = false;
  npsvc = false;
  listed = true;
  no_busy_poll = false;
  in_busy_poll = false;
  prefer_busy_poll = false;
  threaded = false;
  sched_threaded = false;
}

abbrev idle_sys : Sys ℕ
idle_sys = record {
  napi = record {
    state = idle_word;
    on_list = false;
    net_rx_raised = false;
    thread = none;
    gro = 0;
    defer_hard_irqs_count = 0;
    timer = none;
  };
  polling = false;
  taken = false;
  unserved = false;
}

abbrev plain : Config
plain = record { weight = 64; gro_flush_timeout = 0; napi_defer_hard_irqs = 0; threaded = false }

abbrev held : ℕ → Bool
held g = false

abbrev flush : Bool → ℕ → ℕ
flush old g = g

abbrev deliver : ℕ → ℕ
deliver g = g

idle_sys-IsOwned : IsOwned idle_sys
idle_sys-IsOwned = record {
  one_owner = refl;
  waiting = λ w. ground (arith, w);
  netpoll = refl;
  no_busy_poll = refl;
  not_threaded = refl;
}

abbrev two_events : Sys ℕ
two_events = on_event held flush deliver plain (on_event held flush deliver plain idle_sys)

Steps-IsOwned_example : IsOwned two_events
Steps-IsOwned_example =
    Steps-IsOwned held flush deliver plain refl idle_sys two_events idle_sys-IsOwned
      (after (after here event) event)

abbrev two_instances : Softnet ℕ
two_instances = record {
  poll_list = 1 ∷ 2 ∷ [];
  time_squeeze = 0;
  net_rx_pending = false;
  rps_ipi_waiting = false;
  env = 0;
}

-- Each poll uses its weight of 64 and asks for another.
abbrev poll_full : ℕ → Softnet ℕ → ℕ × Bool × Softnet ℕ
poll_full n sd = (64, true, sd)

net_rx_action-IsRun_example :
    (polled left : List ℕ) × IsRun poll_full
      (λ nr. false)
      polled
      left
      (1 ∷ 2 ∷ [])
      []
      (record two_instances { poll_list = [] })
      (net_rx_action poll_full (λ nr. false) (pos 64) two_instances)
    × HasEnded poll_full
        (λ nr. false)
        polled
        left
        0
        (pos 64)
        (record two_instances { poll_list = [] })
    × GoesOn poll_full (λ nr. false) polled 0 (pos 64) (record two_instances { poll_list = [] })
net_rx_action-IsRun_example = net_rx_action-IsRun poll_full (λ nr. false) (pos 64) two_instances

-- NET_TX and NET_RX are pending, ksoftirqd sleeps; NET_TX raises TASKLET.
abbrev busy_cpu : Cpu ℕ ℕ
busy_cpu = record {
  pending = λ i. i == 2 || i == 3;
  kstat = λ i. 0;
  ksoftirqd = some fifo_task;
  env = 0;
}

abbrev act : ℕ → ℕ → (ℕ → Bool) × ℕ
act nr env = ((λ i. nr == 2 && i == 6), env + 1)

do_softirq-Served_example : Served act busy_cpu (do_softirq act 0 false (λ m. true) busy_cpu)
do_softirq-Served_example = do_softirq-Served act 0 false (λ m. true) busy_cpu

do_softirq-NetRxLeft_example : NetRxLeft act busy_cpu (do_softirq act 1 false (λ m. true) busy_cpu)
do_softirq-NetRxLeft_example = do_softirq-NetRxLeft act (λ m. true) busy_cpu

abbrev raised : Cpu ℕ ℕ
raised = raise_softirq_irqoff true 3 busy_cpu

abbrev out : Cpu ℕ ℕ
out = irq_exit act false false 1 false (λ m. true) raised

-- A receive interrupt of an idle instance, and the end of a poll that found less than its weight.
abbrev rx_event : Events
rx_event = record {
  all_ones = false;
  wanted = true;
  sys_err = false;
  link_chg = false;
  rx_fifo_over = false;
}

abbrev quiet_chip : Irq ℕ
quiet_chip = record {
  napi = idle_sys.napi;
  irq_enabled = true;
  reset_pending = false;
  queue_stopped = false;
  phy_interrupts = 0;
  acked = 0;
}

interrupt-IsArmed_example :
    (IsArmed quiet_chip → IsArmed (interrupt false rx_event quiet_chip).1)
    × (quiet_chip.irq_enabled ≡ true
        → (interrupt false rx_event quiet_chip).1.irq_enabled ≡ false
        → IsQueued (interrupt false rx_event quiet_chip).1.napi)
    × (quiet_chip.napi.state.sched ≡ false
        → (interrupt false rx_event quiet_chip).1.napi.state.sched ≡ true
        → IsQueued (interrupt false rx_event quiet_chip).1.napi)
interrupt-IsArmed_example = interrupt-IsArmed false rx_event quiet_chip

abbrev busy_chip : Irq ℕ
busy_chip = (interrupt false rx_event quiet_chip).1

-- An instance that is being polled when the next event comes.
abbrev busy_inst : Inst ℕ
busy_inst = record idle_sys.napi { state = record idle_word { sched = true } }

word-encode_example :
    (prep_word (encode busy_inst.state)
      ≡ ((napi_schedule_prep busy_inst).0, encode (napi_schedule_prep busy_inst).1.state))
    × (complete_word (encode busy_inst.state) ≡ encode (completed_word busy_inst.state))
word-encode_example = word-encode busy_inst

busy_word : prep_word 17 ≡ (false, 19)
unfolding prep_word and_bit or_bit
busy_word = refl
