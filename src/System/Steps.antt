-- ===== src/System/Steps.antt =====
-- The events of receiving and of the RT handler, one by one.
use mathlib.Core.List.Perm
use cros_rt.Base.{
  ℕ, ◌≤◌, ◌<◌, ◌≡◌, refl, sym, ap, ◌∙◌, inl, inr, Bool, true, [], Option, some, if◌then◌else◌, ltb,
  arith, Bool-cases,
}
use cros_rt.Base.Int.{ℤ, pos}
use cros_rt.Buckets.{hash_size}
use cros_rt.Driver.SkbQueue.{SkbQueue}
use cros_rt.Driver.Device.{Device, set_pointers, with_rt}
use cros_rt.Driver.RtPoll.Order.{downward}
use cros_rt.Driver.Rx.{RxConfig}
use cros_rt.Driver.Rx.Selector.{keep, arrivals, is_default, is_selected, rtl_rx-Received}
use cros_rt.Sched.Task.{
  TaskState, running, interruptible, uninterruptible, killable, waking, other, state_match,
}
use cros_rt.Sched.Setscheduler.{Answers}
use cros_rt.Sched.Setscheduler.Success.{Agrees}
use cros_rt.Net.Glue.{Napi, NapiHash, handler_id, napi_by_id}
use cros_rt.Framework.RtHandler.{is_running}
use cros_rt.Framework.RtHandler.Laws.{
  handler_round-Polled, monitor_round_lem, monitor_round-IsConsistent,
}
use cros_rt.System.{System, Event, receive, monitor, handler, step, sink_of, with_sink}
use cros_rt.System.Safe.{IsSafe, Stepped, Leads}
use cros_rt.System.Packets.{swap_front, keep-Perm, downward-Perm, split-Perm}

never_interruptible : (x : TaskState) → (if state_match x then running else x) ≡ interruptible → ⊥
never_interruptible running e = cc
never_interruptible interruptible e = cc
never_interruptible uninterruptible e = cc
never_interruptible killable e = cc
never_interruptible waking e = cc
never_interruptible other e = cc

not_asleep : (x : TaskState) → is_running x ≡ true → x ≡ interruptible → ⊥
not_asleep x r e = cc (ap is_running e)

module _ {Skb G D : Type 0} (api : SkbQueue Skb) (gro_receive : G → Skb → G) (dest_port : Skb → ℕ)
    (is_multicast : Skb → Bool) (c : RxConfig) (hash : ℤ → ℕ)
    (hash_lt : (k : ℤ) → hash k < hash_size) (table : Bool → ℤ → NapiHash (Device api.Head G))
    (n : Napi (Device api.Head G))
    (found : (allocated : Bool) (elapsed_ms : ℤ)
      → napi_by_id handler_id (table allocated elapsed_ms)
        ≡ some (set_pointers api gro_receive hash allocated elapsed_ms n))
    (s : System api.Head G D) (safe : IsSafe hash hash_lt s) where
  abbrev pub To : Event Skb D → Type 0
  To e = Leads api gro_receive dest_port is_multicast c hash hash_lt table n found s safe e

  pub receive-Leads : (alloc_skb : ℕ → ℕ → Option Skb) (budget : ℕ) → To (receive alloc_skb budget)
  unfolding step
  receive-Leads alloc_skb budget =
      let (count, r, u, run, ring, given) =
        rtl_rx-Received api gro_receive dest_port is_multicast c alloc_skb budget s.ring
          (sink_of api gro_receive dest_port is_multicast c s) safe.word in
      let come = arrivals c alloc_skb budget s.ring in
      (
        with_sink api gro_receive dest_port is_multicast c s r u,
        keep (is_default dest_port c) come,
        rw (run, step) refl,
        record {
          safe = record {
            low = safe.low;
            high = safe.high;
            urgent = safe.urgent;
            resting = safe.resting;
            consistent = safe.consistent;
            placed = safe.placed;
            word = omega (arith, ring.moved);
          };
          fed = given.gro;
          kept = rw given.queued (
              split-Perm (keep (is_default dest_port c) come) (keep (is_selected dest_port c) come)
                come (api.packets s.device.non_rt) _ (keep-Perm (is_selected dest_port c) come));
        },
      )

  pub monitor-Leads : (a : Answers D) → Agrees a → To (monitor a)
  unfolding step
  monitor-Leads a agrees =
      let t = table true (pos 0) in
      let (u, run, priority, state) =
        monitor_round_lem api gro_receive hash true (pos 0) t n (found true (pos 0)) a agrees s.krtd
          safe.consistent s.device safe.low safe.high in
      (
        record s { krtd = u },
        [],
        rw (run, step) refl,
        record {
          safe = record {
            low = safe.low;
            high = safe.high;
            urgent = inr (ground arith);
            resting = λ e. absurd (never_interruptible s.krtd.state (sym state ∙ e));
            consistent =
                monitor_round-IsConsistent api gro_receive hash true (pos 0) t n
                  (found true (pos 0)) a agrees s.krtd safe.consistent s.device u run;
            placed = safe.placed;
            word = safe.word;
          };
          fed = refl;
          kept = Perm.refl _;
        },
      )

  pub handler-Leads : (a : Answers D) → Agrees a → To (handler a)
  unfolding step
  handler-Leads a agrees = elim (Bool-cases (is_running s.krtd.state)) [
    | inr asleep ↦ (s, [], rw (asleep, step) refl, still safe)
    | inl awake ↦
        let (r, u, run, polled, low, high, consistent, policy, priority, state) =
          handler_round-Polled api gro_receive hash true (pos 0) (table true (pos 0)) n
            (found true (pos 0)) a agrees s.krtd safe.consistent s.device safe.low safe.high in
        (
          record s { device = with_rt s.device r; krtd = u },
          api.packets (s.device.pq s.device.highest_pri),
          rw (awake, run, step) refl,
          record {
            safe = record {
              low = low;
              high = omega (arith, high, safe.high);
              urgent = inr (omega (arith, priority));
              resting = λ e. rests r.highest_pri awake (sym state ∙ e) low;
              consistent = consistent;
              placed = safe.placed;
              word = safe.word;
            };
            fed = polled.fed;
            kept =
                Perm.trans
                  (swap_front (api.packets (s.device.pq s.device.highest_pri))
                    (api.packets s.device.non_rt) (downward (λ i. api.packets (r.pq i)) 99))
                  (Perm.append_left (api.packets s.device.non_rt) (
                    downward-Perm (λ i. api.packets (s.device.pq i)) (λ i. api.packets (r.pq i))
                      s.device.highest_pri 99 safe.low safe.high polled.emptied
                      (λ i apart. ap api.packets (polled.others i apart))));
          },
        )
  ]
    where
      still : IsSafe hash hash_lt s → Stepped api gro_receive hash hash_lt [] [] s s
      still ok = record { safe = ok; fed = refl; kept = Perm.refl _ }

      rests :
          (h : ℕ)
          → is_running s.krtd.state ≡ true
          → (if ltb h 2 then interruptible else s.krtd.state) ≡ interruptible
          → 1 ≤ h
          → h ≡ 1
      rests h awake e low = elim (Bool-cases (ltb h 2)) [
        | inl small ↦ ground arith
        | inr large ↦ absurd (not_asleep s.krtd.state awake (rw large at e))
      ]
