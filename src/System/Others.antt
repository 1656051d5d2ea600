-- ===== src/System/Others.antt =====
-- The events of the non-RT handlers and of the system calls, one by one.
use mathlib.Core.List.Perm
use cros_rt.Base.{
  append-nil, ℕ, ◌≤◌, ◌<◌, ◌*◌, ◌-◌, ◌^◌, ◌≡◌, refl, sym, ap, ◌∙◌, inl, inr, Bool, true, List, [],
  ◌++◌, some, append_assoc, append-nil, take, take-append-drop, feed, Bool-cases,
}
use cros_rt.Base.Int.{ℤ, pos, pos_part}
use cros_rt.Base.Cint.{quot_int}
use cros_rt.Buckets.{hash_size}
use cros_rt.Driver.SkbQueue.{SkbQueue}
use cros_rt.Driver.NonRt.{NonRt}
use cros_rt.Driver.Device.{with_non_rt, Device, set_pointers}
use cros_rt.Driver.Ports.{Ports}
use cros_rt.Driver.Ports.Laws.{IsWellFormed}
use cros_rt.Driver.RtPoll.Order.{downward}
use cros_rt.Driver.Rx.{RxDesc, RxConfig}
use cros_rt.Sched.Task.{running, interruptible}
use cros_rt.Net.Glue.{Napi, NapiHash, handler_id, napi_by_id}
use cros_rt.Framework.RtHandler.{is_running}
use cros_rt.Framework.NonRt.Laws.{background_action, server_round-served}
use cros_rt.Framework.Syscalls.Laws.{connect_pp_syscall-ports, disconnect_pp_syscall-ports}
use cros_rt.System.{
  Place, before_poll, before_sleep, in_schedule, System, Event, frames, background, server, connect,
  disconnect, background_step, step,
}
use cros_rt.System.Safe.{IsSafe, Stepped, Leads}
use cros_rt.System.Packets.{Perm_of_eq}

module _ {Skb G D : Type 0} (api : SkbQueue Skb) (gro_receive : G → Skb → G) (dest_port : Skb → ℕ)
    (is_multicast : Skb → Bool) (c : RxConfig) (hash : ℤ → ℕ)
    (hash_lt : (k : ℤ) → hash k < hash_size) (table : Bool → ℤ → NapiHash (Device api.Head G))
    (n : Napi (Device api.Head G))
    (found : (allocated : Bool) (elapsed_ms : ℤ)
      → napi_by_id handler_id (table allocated elapsed_ms)
        ≡ some (set_pointers api gro_receive hash allocated elapsed_ms n))
    (s : System api.Head G D) (safe : IsSafe hash hash_lt s) where
  abbrev pub To : Event Skb D → Type 0
  To e = Leads api gro_receive dest_port is_multicast c hash hash_lt table n found s safe e

  -- A change of what waits for the non-RT handler.
  non_rt-Stepped :
      (r : NonRt api.Head G) (t : System api.Head G D) (given : List Skb)
      → t.device ≡ with_non_rt s.device r
      → t.krtd ≡ s.krtd
      → t.ring ≡ s.ring
      → r.gro ≡ feed gro_receive s.device.gro given
      → given ++ api.packets r.non_rt ≡ api.packets s.device.non_rt
      → Stepped api gro_receive hash hash_lt [] given s t
  non_rt-Stepped r t given device krtd ring fed split = record {
    safe = record {
      low = rw device safe.low;
      high = rw device safe.high;
      urgent = rw (device, krtd) safe.urgent;
      resting = rw (device, krtd) safe.resting;
      consistent = rw krtd safe.consistent;
      placed = rw device safe.placed;
      word = rw ring safe.word;
    };
    fed = rw device fed;
    kept = rw device (
        Perm_of_eq (
          sym (append_assoc given (api.packets r.non_rt) _)
          ∙ ap (λ l. l ++ downward (λ i. api.packets (s.device.pq i)) 99) split));
  }

  -- A change of the ports and of the threads, if any.
  ports-Stepped :
      (p : Ports) (t : System api.Head G D)
      → IsWellFormed hash hash_lt p
      → t.device ≡ record s.device { ports = p }
      → t.krtd ≡ s.krtd
      → t.ring.cur_rx ≡ s.ring.cur_rx
      → Stepped api gro_receive hash hash_lt [] [] s t
  ports-Stepped p t placed device krtd cur_rx = record {
    safe = record {
      low = rw device safe.low;
      high = rw device safe.high;
      urgent = rw (device, krtd) safe.urgent;
      resting = rw (device, krtd) safe.resting;
      consistent = rw krtd safe.consistent;
      placed = rw device placed;
      word = rw cur_rx safe.word;
    };
    fed = rw device refl;
    kept = rw device (Perm.refl _);
  }

  pub frames-Leads : (desc : ℕ → RxDesc) → To (frames desc)
  unfolding step
  frames-Leads desc =
      let t = record s { ring = record (s.ring) { desc = desc } } in
      (t, [], refl, ports-Stepped s.device.ports t safe.placed refl refl refl)

  pub background-Leads : To background
  unfolding step background_step
  background-Leads = elim (Bool-cases (is_running s.knonrtd.state)) [
    | inr asleep ↦
        (s, [], rw (asleep, step) refl, ports-Stepped s.device.ports s safe.placed refl refl refl)
    | inl awake ↦ by_place awake s.place refl
  ]
    where
      by_place : is_running s.knonrtd.state ≡ true → (p : Place) → s.place ≡ p → To background
      by_place awake before_poll e =
          let (r, run, fed, none_left) =
            background_action api gro_receive hash true (pos 0) (table true (pos 0)) n
              (found true (pos 0)) s.device in
          let t = record s { device = with_non_rt s.device r; place = before_sleep } in
          (
            t,
            api.packets s.device.non_rt,
            rw (awake, e, background_step, run, step) refl,
            non_rt-Stepped r t _ refl refl refl fed
                (rw none_left (append-nil (api.packets s.device.non_rt))),
          )
      by_place awake before_sleep e =
          let t = record s {
            knonrtd = record (s.knonrtd) { state = interruptible };
            place = in_schedule;
          } in
          (
            t,
            [],
            rw (awake, e, background_step, step) refl,
            ports-Stepped s.device.ports t safe.placed refl refl refl,
          )
      by_place awake in_schedule e =
          let t = record s {
            knonrtd = record (s.knonrtd) { state = running };
            place = before_poll;
          } in
          (
            t,
            [],
            rw (awake, e, background_step, step) refl,
            ports-Stepped s.device.ports t safe.placed refl refl refl,
          )

  pub server-Leads :
      (elapsed_ms : ℤ) (period util : ℕ)
      → util ≤ 100
      → 100 * period ≤ 2 ^ 31 - 1
      → To (server elapsed_ms (pos period) (pos util))
  unfolding step
  server-Leads elapsed_ms period util share small =
      let (work, sleep, r, run, fed, left, within, nearly, share_of) =
        server_round-served api gro_receive hash true elapsed_ms (table true elapsed_ms) n
          (found true elapsed_ms) period util s.device share small in
      let t = record s { device = with_non_rt s.device r } in
      let served : ℕ = pos_part (quot_int (pos work) 2) in
      (
        t,
        take served (api.packets s.device.non_rt),
        rw (run, step) refl,
        non_rt-Stepped r t _ refl refl refl fed
            (rw left (take-append-drop served (api.packets s.device.non_rt))),
      )

  pub connect-Leads :
      (allocated : Bool) (priority : ℕ) (port : ℤ) → To (connect allocated (pos priority) port)
  unfolding step
  connect-Leads allocated priority port =
      let (p, run, placed) =
        connect_pp_syscall-ports api gro_receive hash hash_lt allocated (pos 0)
          (table allocated (pos 0)) n (found allocated (pos 0)) priority port s.device
          safe.placed in
      let t = record s { device = record (s.device) { ports = p } } in
      (t, [], rw (run, step) refl, ports-Stepped p t placed refl refl refl)

  pub disconnect-Leads : (port : ℤ) → To (disconnect port)
  unfolding step
  disconnect-Leads port =
      let (p, run, placed) =
        disconnect_pp_syscall-ports api gro_receive hash hash_lt true (pos 0) (table true (pos 0)) n
          (found true (pos 0)) port s.device safe.placed in
      let t = record s { device = record (s.device) { ports = p } } in
      (t, [], rw (run, step) refl, ports-Stepped p t placed refl refl refl)
