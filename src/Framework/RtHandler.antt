-- ===== src/Framework/RtHandler.antt =====
-- ros2_framework/rt_handler.c: the monitor thread kmond, which raises the RT handler to the priority
-- of the most urgent message, and the RT handler thread krtd, which serves the messages. A round is
-- one pass of a thread's loop; between rounds a thread may sleep and the device may change, so each
-- round takes the device as it then is. `a` holds the scheduler's answers of the round.
pub mod Init
pub mod Tasks
pub mod Laws
use cros_rt.Base.{
  ℕ, ◌-◌, ◌^◌, Bool, true, false, not, List, [], ◌∷◌, ltb, if◌then◌else◌, Outcome, done, ◌>>=◌,
}
use cros_rt.Base.Int.{ℤ, pos, negsuc, ltb_ℤ}
use cros_rt.Sched.Task.{Task, TaskState, running, interruptible, fifo, wake_up_process}
use cros_rt.Sched.Setscheduler.{Answers, known, sched_setscheduler}
use cros_rt.Net.Glue.{NapiHash, net_rt_handler_action, get_highest_prio}

-- An `int` stored in the u32 field `sched_priority`.
abbrev pub to_u32 : ℤ → ℕ
to_u32 (pos n) = n
to_u32 (negsuc n) = 2 ^ 32 - n - 1

abbrev pub is_running : TaskState → Bool
is_running running = true
is_running _ = false

-- What a round meets: the device, the scheduler's answers, and whether the thread is then told to
-- stop.
pub record Round (S D : Type 0) : Type 0 where
  pub answers : Answers D
  pub device : S
  pub should_stop : Bool

module _ {S D : Type 0} (table : NapiHash S) where
  -- `sched_setscheduler(t, SCHED_FIFO, &param)`; its result is not looked at.
  abbrev pub set_fifo : Answers D → ℤ → Task D → Task D
  set_fifo a priority t = (sched_setscheduler a (known fifo) false (to_u32 priority) t).1

  -- The body of `run_monitor` up to where the thread sleeps, and krtd after it.
  unfoldable pub monitor_round : Answers D → S → Task D → Outcome (Task D)
  unfolding get_highest_prio wake_up_process sched_setscheduler
  monitor_round a s krtd = do
    msg_priority ← get_highest_prio table s
    let raised =
        if ltb_ℤ (pos krtd.rt_priority) msg_priority then set_fifo a msg_priority krtd else krtd
    done (if not (is_running raised.state) then (wake_up_process raised).1 else raised)

  -- The body of `run_rt_handler`: the device and the thread, asleep if its priority is below 2.
  unfoldable pub handler_round : Answers D → S → Task D → Outcome (S × Task D)
  unfolding net_rt_handler_action get_highest_prio sched_setscheduler
  handler_round a s current = do
    action ← net_rt_handler_action table s
    cur_priority ← get_highest_prio table action.0
    let set = set_fifo a cur_priority current
    done (action.0, (if ltb set.rt_priority 2 then record set { state = interruptible } else set))

  -- `run_monitor` over the rounds that it has made so far.
  unfoldable pub run_monitor : List (Round S D) → Task D → Outcome (Task D)
  unfolding monitor_round
  run_monitor [] krtd = done krtd
  run_monitor (r ∷ later) krtd = monitor_round r.answers r.device krtd >>= λ t. elim r.should_stop [
    | true ↦ done t
    | false ↦ run_monitor later t
  ]

  -- `run_rt_handler` while no other thread changes the device: it wakes up running.
  unfoldable pub run_rt_handler : List (Answers D × Bool) → S → Task D → Outcome (S × Task D)
  unfolding handler_round
  run_rt_handler [] s t = done (s, t)
  run_rt_handler ((a, should_stop) ∷ later) s t = handler_round a s t >>= λ r. elim should_stop [
    | true ↦ done (r.0, record (r.1) { state = running })
    | false ↦ run_rt_handler later r.0 (record (r.1) { state = running })
  ]
