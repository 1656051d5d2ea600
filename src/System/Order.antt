-- ===== src/System/Order.antt =====
-- The monitor and the RT handler taking turns: rounds of kmond and krtd of rt_handler.c.
use cros_rt.Base.{
  ℕ, ◌≤◌, ◌<◌, ◌≡◌, refl, ap, sym, ◌∙◌, ◌⊎◌, inl, inr, Bool, true, List, [], ◌∷◌, some, length, ltb,
  arith, if◌then◌else◌, Bool-cases, done, feed, feed-append,
}
use cros_rt.Base.Int.{ℤ, pos}
use cros_rt.Buckets.{hash_size}
use cros_rt.Driver.SkbQueue.{SkbQueue}
use cros_rt.Driver.Device.{Device, set_pointers, rt_part, with_rt}
use cros_rt.Driver.RtPoll.{Rt}
use cros_rt.Driver.RtPoll.Laws.{Polled}
use cros_rt.Driver.RtPoll.Order.{
  contents, downward, IsMarked, IsMarked-step, rest_after, downward_step,
}
use cros_rt.Driver.Rx.{RxConfig}
use cros_rt.Driver.Rx.Wakeup.{IsWakeable}
use cros_rt.Sched.Task.{Task, TaskState, running, interruptible, state_match}
use cros_rt.Sched.Setscheduler.{Answers}
use cros_rt.Sched.Setscheduler.Success.{Agrees}
use cros_rt.Net.Glue.{Napi, NapiHash, handler_id, napi_by_id}
use cros_rt.Framework.RtHandler.{is_running}
use cros_rt.Framework.RtHandler.Laws.{handler_round-Polled, monitor_round_lem}
use cros_rt.System.{System, Event, monitor, handler, step, run}
use cros_rt.System.Safe.{IsSafe}
use cros_rt.System.Laws.{step-IsSafe}

-- A round of the monitor and one of the handler for each set of the scheduler's answers.
unfoldable pub rounds : {Skb D : Type 0} → List (Answers D) → List (Event Skb D)
rounds [] = []
rounds (a ∷ l) = monitor a ∷ handler a ∷ rounds l

abbrev pub AllAgree : {D : Type 0} → List (Answers D) → Type 0
AllAgree [] = Unit
AllAgree (a ∷ l) = Agrees a × AllAgree l

awake : (x : TaskState) → IsWakeable x → (if state_match x then running else x) ≡ running
awake x (inl e) = rw e refl
awake x (inr e) = rw e refl

resting-IsWakeable :
    (h : ℕ) (x y : TaskState)
    → x ≡ running
    → y ≡ (if ltb h 2 then interruptible else x)
    → IsWakeable y
resting-IsWakeable h x y r e = elim (Bool-cases (ltb h 2)) [
  | inl small ↦ inr (rw small at e)
  | inr large ↦ inl ((rw large at e) ∙ r)
]

-- The marks seen through the whole state.
IsMarked-after :
    {Skb G : Type 0} (api : SkbQueue Skb) (gro_receive : G → Skb → G) (d : Device api.Head G)
    (r : Rt api.Head G)
    → Polled api gro_receive (rt_part d) r
    → IsMarked api gro_receive r
    → IsMarked api gro_receive (rt_part (with_rt d r))
IsMarked-after api gro_receive d r p m = record {
  positive = m.positive;
  covered = λ i lo hi free. m.covered i lo hi (ap (λ f. f i) p.same_in_use ∙ free);
}

module _ {Skb G D : Type 0} (api : SkbQueue Skb) (gro_receive : G → Skb → G) (dest_port : Skb → ℕ)
    (is_multicast : Skb → Bool) (c : RxConfig) (hash : ℤ → ℕ)
    (hash_lt : (k : ℤ) → hash k < hash_size) (table : Bool → ℤ → NapiHash (Device api.Head G))
    (n : Napi (Device api.Head G))
    (found : (allocated : Bool) (elapsed_ms : ℤ)
      → napi_by_id handler_id (table allocated elapsed_ms)
        ≡ some (set_pointers api gro_receive hash allocated elapsed_ms n)) where
  abbrev Does : Event Skb D → System api.Head G D → System api.Head G D → Type 0
  Does e s t = step api gro_receive dest_port is_multicast c table e s ≡ done t

  abbrev Marked : System api.Head G D → Type 0
  Marked s = IsMarked api gro_receive (rt_part s.device)

  monitor_wakes :
      (a : Answers D) (s : System api.Head G D)
      → Agrees a
      → IsSafe hash hash_lt s
      → IsWakeable s.krtd.state
      → (u : Task D) × Does (monitor a) s (record s { krtd = u }) × (u.state ≡ running)
  unfolding step
  monitor_wakes a s agrees safe wakeable =
      let (u, runs, priority, state) =
        monitor_round_lem api gro_receive hash true (pos 0) (table true (pos 0)) n
          (found true (pos 0)) a agrees s.krtd safe.consistent s.device safe.low safe.high in
      (u, rw (runs, step) refl, state ∙ awake s.krtd.state wakeable)

  handler_serves :
      (a : Answers D) (s : System api.Head G D)
      → Agrees a
      → IsSafe hash hash_lt s
      → s.krtd.state ≡ running
      → (r : Rt api.Head G) × (u : Task D) × Does
          (handler a)
          s
          (record s { device = with_rt s.device r; krtd = u })
        × Polled api gro_receive (rt_part s.device) r
        × IsWakeable u.state
  unfolding step
  handler_serves a s agrees safe up =
      let (r, u, runs, polled, low, high, consistent, policy, priority, state) =
        handler_round-Polled api gro_receive hash true (pos 0) (table true (pos 0)) n
          (found true (pos 0)) a agrees s.krtd safe.consistent s.device safe.low safe.high in
      let awake_now : is_running s.krtd.state ≡ true = ap is_running up in
      (
        r,
        u,
        rw (awake_now, runs, step) refl,
        polled,
        resting-IsWakeable r.highest_pri s.krtd.state u.state up state,
      )

  -- The packets of the priority queues, from the highest priority down.
  abbrev in_order : System api.Head G D → List Skb
  in_order s = downward (contents api gro_receive (rt_part s.device)) s.device.highest_pri

  rounds-feed :
      (l : List (Answers D)) (s : System api.Head G D)
      → AllAgree l
      → IsSafe hash hash_lt s
      → Marked s
      → IsWakeable s.krtd.state
      → (s.device.highest_pri ≤ length l) ⊎ (in_order s ≡ [])
      → (t : System api.Head G D) × (run api gro_receive dest_port is_multicast c table (rounds l) s
          ≡ done t)
        × (t.device.gro ≡ feed gro_receive s.device.gro (in_order s))
        × IsWakeable t.krtd.state
  unfolding run rounds
  rounds-feed [] s agree safe m w (inl le) = absurd (omega (arith, safe.low))
  rounds-feed [] s agree safe m w (inr nothing) = (s, refl, rw nothing refl, w)
  rounds-feed (a ∷ l) s agree safe m w d =
      let (u, woke, up) = monitor_wakes a s agree.0 safe w in
      let s1 = record s { krtd = u } in
      let safe1 =
        step-IsSafe api gro_receive dest_port is_multicast c hash hash_lt table n found (monitor a)
          s s1 safe agree.0 woke in
      let (r, v, served, p, w2) = handler_serves a s1 agree.0 safe1 up in
      let s2 = record s { device = with_rt s.device r; krtd = v } in
      let safe2 =
        step-IsSafe api gro_receive dest_port is_multicast c hash hash_lt table n found (handler a)
          s1 s2 safe1 agree.0 served in
      let m2 =
        IsMarked-after api gro_receive s.device r p (IsMarked-step api gro_receive _ r m p) in
      let (t, runs, fed, w3) =
        rounds-feed l s2 agree.1 safe2 m2 w2
          (rest_after api gro_receive (rt_part s.device) r m p (length l) d) in
      (
        t,
        rw (woke, served, run) runs,
        fed
            ∙ ap (λ g. feed gro_receive g (in_order s2)) p.fed
            ∙ sym (
                feed-append gro_receive s.device.gro
                  (api.packets (s.device.pq s.device.highest_pri)) (in_order s2))
            ∙ ap (feed gro_receive s.device.gro)
                (sym (downward_step api gro_receive (rt_part s.device) r m p)),
        w3,
      )

  -- The RT handler serves strictly by priority. With the driver's pointers set, in a safe state whose
  -- highest priority is at least 1 and whose marks cover the queues with
  -- packets below the highest priority, with the RT handler running or asleep and nothing in the
  -- kernel that objects: as many rounds of the monitor and the handler in turn as the highest priority
  -- end, and GRO has received the packets of the highest priority, then those of the next lower, and
  -- so on down to priority 1, each queue's packets in their order.
  pub rounds-order :
      (l : List (Answers D)) (s : System api.Head G D)
      → AllAgree l
      → IsSafe hash hash_lt s
      → IsMarked api gro_receive (rt_part s.device)
      → IsWakeable s.krtd.state
      → s.device.highest_pri ≤ length l
      → (t : System api.Head G D) × (run api gro_receive dest_port is_multicast c table (rounds l) s
          ≡ done t)
        × (t.device.gro
            ≡ feed gro_receive s.device.gro
                (downward (λ i. api.packets (s.device.pq i)) s.device.highest_pri))
  rounds-order l s agree safe m w le =
      let (t, runs, fed, w') = rounds-feed l s agree safe m w (inl le) in (t, runs, fed)
