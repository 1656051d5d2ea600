-- ===== src/Framework/RtHandler/Laws.antt =====
-- A round of the monitor, and a round of the RT handler, over the driver.
use mathlib.Core.Path.{ap₂}
use cros_rt.Base.{
  sym, done-injective, subst, ℕ, suc, ◌≤◌, ◌<◌, ◌≡◌, refl, ap, ◌∙◌, Bool, false, length, some, ltb,
  arith, if◌then◌else◌, done, Bool-cases, inl, inr, feed,
}
use cros_rt.Base.Int.{ℤ, pos}
use cros_rt.Driver.SkbQueue.{SkbQueue}
use cros_rt.Driver.Ports.Next.{get_next_highest_priority-IsHighest}
use cros_rt.Driver.RtPoll.{Rt, rt_poll}
use cros_rt.Driver.RtPoll.Drain.{queued}
use cros_rt.Driver.RtPoll.Laws.{Polled, next_of, rt_poll-Polled}
use cros_rt.Driver.Device.{Device, set_pointers, rt_part, with_rt, after_rt, device_rt_poll}
use cros_rt.Sched.Task.{Task, running, interruptible, fifo, state_match, wake_up_process}
use cros_rt.Sched.Setscheduler.{Answers}
use cros_rt.Sched.Setscheduler.Success.{Agrees, sched_setscheduler_succeeds}
use cros_rt.Sched.Setscheduler.Laws.{
  sched_setscheduler-IsConsistent, IsConsistent, IsFifo, sched_setscheduler-IsFifo,
  sched_setscheduler-state,
}
use cros_rt.Net.Glue.{
  Napi, NapiHash, handler_id, napi_by_id, net_rt_handler_action, get_highest_prio,
  netif_napi_add_port_priority, netif_napi_add_remove_port_priority, netif_napi_add_rt_poll,
  netif_napi_add_non_rt_poll, netif_napi_add_non_rt_pl_poll, netif_napi_add_highest_prio,
}
use cros_rt.Framework.RtHandler.{set_fifo, monitor_round, handler_round}
use cros_rt.Framework.RtHandler.Tasks.{
  woken, woken-state, ltb_pos, at_rest, at_rest_same, at_rest-IsConsistent, woken-IsConsistent,
}

next_of_range :
    (in_use : ℕ → Bool) (h : ℕ) → 1 ≤ h → (1 ≤ next_of in_use h) × (next_of in_use h ≤ h)
next_of_range in_use h lo =
    let found = get_next_highest_priority-IsHighest in_use h lo in
    ground (arith, found.positive, found.lower)

module _ {Skb G D : Type 0} (api : SkbQueue Skb) (gro_receive : G → Skb → G) (hash : ℤ → ℕ)
    (allocated : Bool) (elapsed_ms : ℤ) (table : NapiHash (Device api.Head G))
    (n : Napi (Device api.Head G))
    (found : napi_by_id handler_id table
      ≡ some (set_pointers api gro_receive hash allocated elapsed_ms n))
    (a : Answers D) (agrees : Agrees a) (t : Task D) (consistent : IsConsistent t) where
  abbrev Dev : Type 0
  Dev = Device api.Head G

  highest_found : (d : Dev) → get_highest_prio table d ≡ done (pos d.highest_pri)
  unfolding get_highest_prio set_pointers netif_napi_add_highest_prio
  highest_found d = rw (found, get_highest_prio) refl

  action_found :
      (d : Dev)
      → net_rt_handler_action table d ≡ device_rt_poll api gro_receive hash allocated elapsed_ms d
  unfolding net_rt_handler_action set_pointers netif_napi_add_rt_poll netif_napi_add_port_priority
      netif_napi_add_remove_port_priority netif_napi_add_non_rt_poll netif_napi_add_non_rt_pl_poll
      netif_napi_add_highest_prio
  action_found d = rw (found, net_rt_handler_action) refl

  poll_found :
      (d : Dev) (s : Rt api.Head G) (ret : ℕ)
      → rt_poll api gro_receive (suc (api.skb_queue_len (d.pq d.highest_pri))) (rt_part d)
        ≡ some (s, ret)
      → net_rt_handler_action table d ≡ done (with_rt d s, pos ret)
  poll_found d s ret e = action_found d ∙ ap (after_rt d) e

  -- The thread after `set_fifo` at a priority of 1 to 99.
  set_fifo-IsFifo :
      (priority : ℕ)
      → 1 ≤ priority
      → priority ≤ 99
      → IsFifo a false priority t (set_fifo table a (pos priority) t)
  set_fifo-IsFifo priority lo hi =
      sched_setscheduler-IsFifo a false priority t consistent
        (sched_setscheduler_succeeds a agrees false priority t lo hi)

  set_fifo-IsConsistent : (priority : ℕ) → IsConsistent (set_fifo table a (pos priority) t)
  set_fifo-IsConsistent priority =
      sched_setscheduler-IsConsistent a false priority t fifo consistent

  -- Whatever priorities it meets, a round of the monitor keeps the handler's task consistent.
  pub monitor_round-IsConsistent :
      (d : Dev) (u : Task D) → monitor_round table a d t ≡ done u → IsConsistent u
  unfolding monitor_round wake_up_process
  monitor_round-IsConsistent d u e = elim (Bool-cases (ltb t.rt_priority d.highest_pri)) [
    | inl raise ↦
        subst IsConsistent
          (done-injective (
            sym
              (rw (highest_found d, monitor_round, ltb_pos t.rt_priority d.highest_pri, raise) refl)
            ∙ e))
          (woken-IsConsistent _ (set_fifo-IsConsistent d.highest_pri))
    | inr keep ↦
        subst IsConsistent
          (done-injective (
            sym
              (rw (highest_found d, monitor_round, ltb_pos t.rt_priority d.highest_pri, keep) refl)
            ∙ e))
          (woken-IsConsistent t consistent)
  ]

  -- With the driver's pointers set, a caller that is privileged and to whom nothing in the kernel
  -- objects, a handler's task that is consistent, and a highest priority of the driver of 1 to 99:
  -- a round of the monitor ends; the handler then has the larger of its own priority and the
  -- driver's highest, and it runs if it was asleep, and else has the state it had.
  pub monitor_round_lem :
      (d : Dev)
      → 1 ≤ d.highest_pri
      → d.highest_pri ≤ 99
      → (u : Task D) × (monitor_round table a d t ≡ done u)
        × (u.rt_priority
            ≡ (if ltb t.rt_priority d.highest_pri then d.highest_pri else t.rt_priority))
        × (u.state ≡ (if state_match t.state then running else t.state))
  unfolding monitor_round wake_up_process
  monitor_round_lem d lo hi = elim (Bool-cases (ltb t.rt_priority d.highest_pri)) [
    | inl raise ↦
        let f = set_fifo-IsFifo d.highest_pri lo hi in
        let raised = set_fifo table a (pos d.highest_pri) t in
        let w = woken-state raised in
        let same = sched_setscheduler-state a false d.highest_pri t fifo in
        (
          woken raised,
          rw (highest_found d, monitor_round, ltb_pos t.rt_priority d.highest_pri, raise) refl,
          rw raise (w.1 ∙ f.rt_priority),
          w.0 ∙ ap (λ x. if state_match x then running else x) same,
        )
    | inr keep ↦
        let w = woken-state t in
        (
          woken t,
          rw (highest_found d, monitor_round, ltb_pos t.rt_priority d.highest_pri, keep) refl,
          rw keep w.1,
          w.0,
        )
  ]

  -- A round of the handler is a call of `rt_poll` on the driver, and a change of the thread.
  pub handler_round-Polled :
      (d : Dev)
      → 1 ≤ d.highest_pri
      → d.highest_pri ≤ 99
      → (s : Rt api.Head G) × (u : Task D) × (handler_round table a d t ≡ done (with_rt d s, u))
        × Polled api gro_receive (rt_part d) s
        × (1 ≤ s.highest_pri)
        × (s.highest_pri ≤ d.highest_pri)
        × IsConsistent u
        × (u.policy ≡ fifo)
        × (u.rt_priority ≡ s.highest_pri)
        × (u.state ≡ (if ltb s.highest_pri 2 then interruptible else t.state))
  unfolding handler_round
  handler_round-Polled d lo hi =
      let fuel = suc (api.skb_queue_len (d.pq d.highest_pri)) in
      let enough : length (queued api gro_receive (rt_part d)) < fuel =
        omega (arith, api.len_packets (d.pq d.highest_pri)) in
      let (s, run, polled) = rt_poll-Polled api gro_receive fuel (rt_part d) enough in
      let (low, high) = next_of_range d.ports.in_use d.highest_pri lo in
      let e_low : 1 ≤ s.highest_pri = rw polled.highest low in
      let e_high : s.highest_pri ≤ d.highest_pri = rw polled.highest high in
      let f = set_fifo-IsFifo s.highest_pri e_low (omega (arith, e_high, hi)) in
      let set = set_fifo table a (pos s.highest_pri) t in
      let (same_policy, same_priority, resting) = at_rest_same set in
      let same = sched_setscheduler-state a false s.highest_pri t fifo in
      (
        s,
        at_rest set,
        rw (poll_found d s _ run, handler_round, highest_found (with_rt d s)) refl,
        polled,
        e_low,
        e_high,
        at_rest-IsConsistent set (set_fifo-IsConsistent s.highest_pri),
        same_policy ∙ f.policy,
        same_priority ∙ f.rt_priority,
        resting ∙ ap₂ (λ i x. if ltb i 2 then interruptible else x) f.rt_priority same,
      )

  -- With the driver's pointers set, a caller that is privileged and to whom nothing in the kernel
  -- objects, a handler's task that is consistent, and a highest priority of the driver of 1 to 99:
  -- a round of the handler ends; GRO has received the packets of the highest priority in order;
  -- the driver's highest priority is still 1 or more and has not risen; the handler then runs
  -- under SCHED_FIFO at exactly that priority; and it sleeps if that priority is 1, and else has
  -- the state it had.
  pub handler_round_lem :
      (d : Dev)
      → 1 ≤ d.highest_pri
      → d.highest_pri ≤ 99
      → (e : Dev) × (u : Task D) × (handler_round table a d t ≡ done (e, u))
        × (e.gro ≡ feed gro_receive d.gro (api.packets (d.pq d.highest_pri)))
        × (1 ≤ e.highest_pri)
        × (e.highest_pri ≤ d.highest_pri)
        × (u.policy ≡ fifo)
        × (u.rt_priority ≡ e.highest_pri)
        × (u.state ≡ (if ltb e.highest_pri 2 then interruptible else t.state))
  handler_round_lem d lo hi =
      let (s, u, run, polled, low, high, consistent_after, policy, priority, state) =
        handler_round-Polled d lo hi in
      (with_rt d s, u, run, polled.fed, low, high, policy, priority, state)
