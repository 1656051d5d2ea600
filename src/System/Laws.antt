-- ===== src/System/Laws.antt =====
-- The receive path over any sequence of events.
use mathlib.Core.List.{Perm}
use mathlib.Core.List.Perm
use cros_rt.Base.{
  ℕ, ◌<◌, ◌≡◌, refl, ◌∙◌, Bool, List, [], ◌∷◌, ◌++◌, some, done, done-injective, subst, feed,
  feed-append, ap, sym,
}
use cros_rt.Base.Int.{ℤ, pos, negsuc}
use cros_rt.Buckets.{hash_size}
use cros_rt.Driver.SkbQueue.{SkbQueue}
use cros_rt.Driver.Device.{Device, set_pointers}
use cros_rt.Driver.Rx.{RxConfig}
use cros_rt.Net.Glue.{Napi, NapiHash, handler_id, napi_by_id}
use cros_rt.System.{
  System, Event, frames, receive, monitor, handler, background, server, connect, disconnect, step,
  run, taken_by,
}
use cros_rt.System.Safe.{IsAllowed, IsSafe, waiting, Stepped, Leads}
use cros_rt.System.Packets.{runs-Perm}
use cros_rt.System.Steps.{receive-Leads, monitor-Leads, handler-Leads}
use cros_rt.System.Others.{
  frames-Leads, background-Leads, server-Leads, connect-Leads, disconnect-Leads,
}

abbrev pub AllAllowed : {Skb D : Type 0} → List (Event Skb D) → Type 0
AllAllowed [] = Unit
AllAllowed (e ∷ l) = IsAllowed e × AllAllowed l

module _ {Skb G D : Type 0} (api : SkbQueue Skb) (gro_receive : G → Skb → G) (dest_port : Skb → ℕ)
    (is_multicast : Skb → Bool) (c : RxConfig) (hash : ℤ → ℕ)
    (hash_lt : (k : ℤ) → hash k < hash_size) (table : Bool → ℤ → NapiHash (Device api.Head G))
    (n : Napi (Device api.Head G))
    (found : (allocated : Bool) (elapsed_ms : ℤ)
      → napi_by_id handler_id (table allocated elapsed_ms)
        ≡ some (set_pointers api gro_receive hash allocated elapsed_ms n)) where
  pub step-Leads :
      (e : Event Skb D) (s : System api.Head G D) (safe : IsSafe hash hash_lt s)
      → IsAllowed e
      → Leads api gro_receive dest_port is_multicast c hash hash_lt table n found s safe e
  step-Leads (frames desc) s safe ok =
      frames-Leads api gro_receive dest_port is_multicast c hash hash_lt table n found s safe desc
  step-Leads (receive alloc_skb budget) s safe ok =
      receive-Leads api gro_receive dest_port is_multicast c hash hash_lt table n found s safe
        alloc_skb budget
  step-Leads (monitor a) s safe ok =
      monitor-Leads api gro_receive dest_port is_multicast c hash hash_lt table n found s safe a ok
  step-Leads (handler a) s safe ok =
      handler-Leads api gro_receive dest_port is_multicast c hash hash_lt table n found s safe a ok
  step-Leads background s safe ok =
      background-Leads api gro_receive dest_port is_multicast c hash hash_lt table n found s safe
  step-Leads (server elapsed_ms (pos period) (pos util)) s safe ok =
      server-Leads api gro_receive dest_port is_multicast c hash hash_lt table n found s safe
        elapsed_ms period util ok.0 ok.1
  step-Leads (server elapsed_ms (pos period) (negsuc util)) s safe ok = absurd ok
  step-Leads (server elapsed_ms (negsuc period) util) s safe ok = absurd ok
  step-Leads (connect allocated (pos priority) port) s safe ok =
      connect-Leads api gro_receive dest_port is_multicast c hash hash_lt table n found s safe
        allocated priority port
  step-Leads (connect allocated (negsuc priority) port) s safe ok = absurd ok
  step-Leads (disconnect port) s safe ok =
      disconnect-Leads api gro_receive dest_port is_multicast c hash hash_lt table n found s safe
        port

  pub step-IsSafe :
      (e : Event Skb D) (s t : System api.Head G D)
      → IsSafe hash hash_lt s
      → IsAllowed e
      → step api gro_receive dest_port is_multicast c table e s ≡ done t
      → IsSafe hash hash_lt t
  step-IsSafe e s t safe ok h =
      let (u, given, stepped, p) = step-Leads e s safe ok in
      subst (IsSafe hash hash_lt) (done-injective (sym stepped ∙ h)) p.safe

  pub run-Stepped :
      (l : List (Event Skb D)) (s : System api.Head G D)
      → IsSafe hash hash_lt s
      → AllAllowed l
      → (t : System api.Head G D) × (given : List Skb) × (run api gro_receive dest_port is_multicast
            c table l s
          ≡ done t)
        × Stepped api gro_receive hash hash_lt
            (taken_by api gro_receive dest_port is_multicast c table l s)
            given
            s
            t
  unfolding run taken_by
  run-Stepped [] s safe ok =
      (s, [], refl, record { safe = safe; fed = refl; kept = Perm.refl (waiting api s) })
  run-Stepped (e ∷ l) s safe ok =
      let (t, given, stepped, p) = step-Leads e s safe ok.0 in
      let (u, given', runs, q) = run-Stepped l t p.safe ok.1 in
      (
        u,
        given ++ given',
        rw (stepped, run) runs,
        rw (stepped, taken_by)
            (record {
              safe = q.safe;
              fed =
                  q.fed
                  ∙ ap (λ g. feed gro_receive g given') p.fed
                  ∙ sym (feed-append gro_receive s.device.gro given given');
              kept =
                  runs-Perm given given' (waiting api t) (waiting api u) (waiting api s) _ _ p.kept
                    q.kept;
            }),
      )

  -- No packet is lost or doubled between the ring and GRO. With the driver's pointers set, from a safe
  -- state and over any sequence of events where each round of kmond and krtd meets a kernel that lets it
  -- set priorities, each round of the polling server has a share of 0 to 100 percent and a period whose
  -- hundredfold fits an `int`, and no port is connected at a negative priority: the run ends, GRO has
  -- received some packets in order, and these with the packets that then wait in the queues are those
  -- that the ring gave with those that waited before, each as often.
  pub run-Perm :
      (l : List (Event Skb D)) (s : System api.Head G D)
      → IsSafe hash hash_lt s
      → AllAllowed l
      → (t : System api.Head G D) × (given : List Skb) × (run api gro_receive dest_port is_multicast
            c table l s
          ≡ done t)
        × (t.device.gro ≡ feed gro_receive s.device.gro given)
        × Perm
            (given ++ waiting api t)
            (taken_by api gro_receive dest_port is_multicast c table l s ++ waiting api s)
  run-Perm l s safe ok =
      let (t, given, runs, p) = run-Stepped l s safe ok in (t, given, runs, p.fed, p.kept)
