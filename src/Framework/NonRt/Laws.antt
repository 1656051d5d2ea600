-- ===== src/Framework/NonRt/Laws.antt =====
-- What a round of the non-RT handlers does to the driver.
use cros_rt.Base.{
  ◌/◌, ℕ, suc, ◌+◌, ◌*◌, ◌-◌, ◌^◌, ◌≤◌, ◌<◌, ◌≡◌, refl, ap, ◌∙◌, Bool, [], some, length, take, drop,
  feed, done, ◌>>=◌, arith,
}
use cros_rt.Base.Int.{ℤ, pos, pos_part}
use cros_rt.Base.Cint.{quot_int}
use cros_rt.Driver.SkbQueue.{SkbQueue}
use cros_rt.Driver.NonRt.{NonRt}
use cros_rt.Driver.NonRt.Laws.{non_rt_poll-all, non_rt_pl_poll-served}
use cros_rt.Driver.Device.{
  Device, set_pointers, non_rt_part, with_non_rt, after_non_rt, device_non_rt_poll,
  device_non_rt_pl_poll,
}
use cros_rt.Sched.Task.{Task, interruptible}
use cros_rt.Net.Glue.{
  Napi, NapiHash, handler_id, napi_by_id, net_non_rt_handler_action, net_non_rt_pl_handler_action,
  netif_napi_add_port_priority, netif_napi_add_remove_port_priority, netif_napi_add_rt_poll,
  netif_napi_add_non_rt_poll, netif_napi_add_non_rt_pl_poll, netif_napi_add_highest_prio,
}
use cros_rt.Framework.NonRtPl.{process-sleep_time}
use cros_rt.Framework.NonRt.{background_round, server_round}

module _ {Skb G : Type 0} (api : SkbQueue Skb) (gro_receive : G → Skb → G) (hash : ℤ → ℕ)
    (allocated : Bool) (elapsed_ms : ℤ) (table : NapiHash (Device api.Head G))
    (n : Napi (Device api.Head G))
    (found : napi_by_id handler_id table
      ≡ some (set_pointers api gro_receive hash allocated elapsed_ms n)) where
  abbrev Dev : Type 0
  Dev = Device api.Head G

  background_found :
      (d : Dev)
      → net_non_rt_handler_action table d
        ≡ device_non_rt_poll api gro_receive hash allocated elapsed_ms d
  unfolding net_non_rt_handler_action set_pointers netif_napi_add_rt_poll
      netif_napi_add_port_priority netif_napi_add_remove_port_priority netif_napi_add_non_rt_poll
      netif_napi_add_non_rt_pl_poll netif_napi_add_highest_prio
  background_found d = rw (found, net_non_rt_handler_action) refl

  server_found :
      (period util : ℤ) (d : Dev)
      → net_non_rt_pl_handler_action table period util d
        ≡ device_non_rt_pl_poll api gro_receive hash allocated elapsed_ms period util d
  unfolding net_non_rt_pl_handler_action set_pointers netif_napi_add_rt_poll
      netif_napi_add_port_priority netif_napi_add_remove_port_priority netif_napi_add_non_rt_poll
      netif_napi_add_non_rt_pl_poll netif_napi_add_highest_prio
  server_found period util d = rw (found, net_non_rt_pl_handler_action) refl

  -- The driver's part of a round of the background server.
  pub background_action :
      (d : Dev)
      → (s : NonRt api.Head G) × (net_non_rt_handler_action table d ≡ done (with_non_rt d s))
        × (s.gro ≡ feed gro_receive d.gro (api.packets d.non_rt))
        × (api.packets s.non_rt ≡ [])
  background_action d =
      let fuel = suc (api.skb_queue_len d.non_rt) in
      let enough : length (api.packets d.non_rt) < fuel = omega (arith, api.len_packets d.non_rt) in
      let (s, run, fed, empty) = non_rt_poll-all api gro_receive fuel (non_rt_part d) enough in
      (s, background_found d ∙ ap (after_non_rt d) run, fed, empty)

  -- With the driver's pointers set, a round of the background server ends with its thread asleep:
  -- GRO has received all the non-RT packets in order, none waits, and the priority queues are as they
  -- were.
  pub background_round_lem :
      {D : Type 0} (d : Dev) (t : Task D)
      → (e : Dev) × (background_round table d t ≡ done (e, record t { state = interruptible }))
        × (e.gro ≡ feed gro_receive d.gro (api.packets d.non_rt))
        × (api.packets e.non_rt ≡ [])
        × (e.pq ≡ d.pq)
  unfolding background_round
  background_round_lem d t =
      let (s, polled, fed, empty) = background_action d in
      (with_non_rt d s, rw (polled, background_round) refl, fed, empty, refl)

  -- The same with the driver's part of the state named.
  pub server_round-served :
      (period util : ℕ) (d : Dev)
      → util ≤ 100
      → 100 * period ≤ 2 ^ 31 - 1
      → (work sleep : ℕ) × (s : NonRt api.Head G) × (server_round table (pos period) (pos util) d
          ≡ done (with_non_rt d s, pos sleep))
        × (s.gro
            ≡ feed gro_receive d.gro
                (take (pos_part (quot_int (pos work) 2)) (api.packets d.non_rt)))
        × (api.packets s.non_rt ≡ drop (pos_part (quot_int (pos work) 2)) (api.packets d.non_rt))
        × (work + sleep ≤ period)
        × (period ≤ work + sleep + 1)
        × (work ≡ util * period / 100)
  unfolding server_round
  server_round-served period util d share small =
      let (work, sleep, working, sleeping, within, nearly, share_of) =
        process-sleep_time period util share small in
      let (s, delay, run, fed, left, pause) =
        non_rt_pl_poll-served api gro_receive (pos period) (pos util) elapsed_ms (pos work)
          (non_rt_part d) working in
      let polled : net_non_rt_pl_handler_action table (pos period) (pos util) d
          ≡ done (with_non_rt d s) =
        server_found (pos period) (pos util) d
        ∙ ap (λ o. o >>= λ r. done (with_non_rt d r.0)) run in
      (
        work,
        sleep,
        s,
        rw (polled, sleeping, server_round) refl,
        fed,
        left,
        within,
        nearly,
        share_of,
      )
