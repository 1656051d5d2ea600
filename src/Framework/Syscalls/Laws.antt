-- ===== src/Framework/Syscalls/Laws.antt =====
-- From a system call through the NAPI instance to the driver's table.
use cros_rt.Base.{
  ℕ, ◌<◌, ◌≡◌, refl, Bool, true, ◌&&◌, some, arith, if◌then◌else◌, done, fault, ◌>>=◌, Bool-cases,
  inl, inr, ◌↔◌,
}
use cros_rt.Base.Int.{ℤ, pos, eqb_ℤ, ltb_ℤ}
use cros_rt.Driver.SkbQueue.{SkbQueue}
use cros_rt.Driver.Ports.{Ports, set_port_priority, get_port_priority, remove_port_priority}
use cros_rt.Driver.Ports.Laws.{
  IsWellFormed, set_any, remove-marks, remove-IsWellFormed, get-set, remove-set, set_total,
  set-fault,
}
use cros_rt.Buckets.{hash_size}
use cros_rt.Driver.Device.{Device, set_pointers}
use cros_rt.Net.Glue.{
  Napi, NapiHash, handler_id, napi_by_id, connect_port_priority, disconnect_port_priority,
  netif_napi_add_port_priority, netif_napi_add_remove_port_priority, netif_napi_add_rt_poll,
  netif_napi_add_non_rt_poll, netif_napi_add_non_rt_pl_poll, netif_napi_add_highest_prio,
}
use cros_rt.Framework.Syscalls.{is_odd, returns_zero, connect_pp_syscall, disconnect_pp_syscall}

module _ {Skb G : Type 0} (api : SkbQueue Skb) (gro_receive : G → Skb → G) (hash : ℤ → ℕ)
    (hash_lt : (k : ℤ) → hash k < hash_size) (allocated : Bool) (elapsed_ms : ℤ)
    (table : NapiHash (Device api.Head G)) (n : Napi (Device api.Head G))
    (found : napi_by_id handler_id table
      ≡ some (set_pointers api gro_receive hash allocated elapsed_ms n)) where
  abbrev Dev : Type 0
  Dev = Device api.Head G

  connect_found :
      (priority port : ℤ) (d : Dev)
      → connect_port_priority table priority port d ≡ (
          set_port_priority hash allocated priority port d.ports >>= λ s.
          done (record d { ports = s }))
  unfolding connect_port_priority set_pointers netif_napi_add_port_priority
      netif_napi_add_remove_port_priority netif_napi_add_rt_poll netif_napi_add_non_rt_poll
      netif_napi_add_non_rt_pl_poll netif_napi_add_highest_prio
  connect_found priority port d = rw (found, connect_port_priority) refl

  disconnect_found :
      (port : ℤ) (d : Dev)
      → disconnect_port_priority table port d
        ≡ (remove_port_priority hash port d.ports >>= λ s. done (record d { ports = s }))
  unfolding disconnect_port_priority set_pointers netif_napi_add_port_priority
      netif_napi_add_remove_port_priority netif_napi_add_rt_poll netif_napi_add_non_rt_poll
      netif_napi_add_non_rt_pl_poll netif_napi_add_highest_prio
  disconnect_found port d = rw (found, disconnect_port_priority) refl

  -- With the driver's pointers set, the call faults exactly if the port is odd and positive, memory is
  -- allocated and the priority is negative: the priority is not checked before it indexes an array.
  pub connect_pp_syscall-fault :
      (priority port : ℤ) (d : Dev)
      → (connect_pp_syscall table priority port d ≡ fault)
        ↔ ((is_odd port ≡ true) × (allocated ≡ true) × (ltb_ℤ priority (pos 0) ≡ true))
  unfolding connect_pp_syscall
  connect_pp_syscall-fault priority port d = elim (Bool-cases (is_odd port)) [
    | inl odd ↦
        let (to, from) = set-fault hash hash_lt allocated priority port d.ports in
        rw (odd, connect_pp_syscall, connect_found priority port d)
          (λ h. let r = to (bind_fault h) in (refl, r.0, r.1), λ h. rw (from (h.1, h.2)) refl)
    | inr even ↦ rw (even, connect_pp_syscall) (λ h. cc, λ h. cc (h.0))
  ]
    where
      bind_fault :
          returns_zero (
              set_port_priority hash allocated priority port d.ports >>= λ s.
              done (record d { ports = s }))
            ≡ fault
          → set_port_priority hash allocated priority port d.ports ≡ fault
      bind_fault h = ground arith

  -- With the driver's pointers set, memory allocated and a priority that is not negative, the call
  -- succeeds and returns 0; afterwards an odd positive port has the priority, and every other port,
  -- and any port if the call named another port, has the priority it had.
  pub connect_pp_syscall-get :
      (priority : ℕ) (port q : ℤ) (d : Dev)
      → allocated ≡ true
      → (e : Dev) × (connect_pp_syscall table (pos priority) port d ≡ done (e, pos 0))
        × (get_port_priority hash q e.ports ≡ (
            if is_odd port && eqb_ℤ port q then pos priority else get_port_priority hash q d.ports))
  unfolding connect_pp_syscall
  connect_pp_syscall-get priority port q d alloc = elim (Bool-cases (is_odd port)) [
    | inl odd ↦
        let (t, e) = set_total hash hash_lt priority port d.ports in
        let e' : set_port_priority hash allocated (pos priority) port d.ports ≡ done t =
          rw alloc e in
        (
          record d { ports = t },
          rw (odd, connect_pp_syscall, connect_found (pos priority) port d, e') refl,
          rw odd (get-set hash hash_lt (pos priority) port q d.ports t e),
        )
    | inr even ↦ (d, rw (even, connect_pp_syscall) refl, rw even refl)
  ]

  -- Either call only changes the table of ports, and keeps each entry in its bucket.
  pub connect_pp_syscall-ports :
      (priority : ℕ) (port : ℤ) (d : Dev)
      → IsWellFormed hash hash_lt d.ports
      → (s : Ports) × (connect_pp_syscall table (pos priority) port d
          ≡ done (record d { ports = s }, pos 0))
        × IsWellFormed hash hash_lt s
  unfolding connect_pp_syscall
  connect_pp_syscall-ports priority port d w = elim (Bool-cases (is_odd port)) [
    | inl odd ↦
        let (s, e, w') = set_any hash hash_lt allocated priority port d.ports w in
        (s, rw (odd, connect_pp_syscall, connect_found (pos priority) port d, e) refl, w')
    | inr even ↦ (d.ports, rw (even, connect_pp_syscall) refl, w)
  ]

  pub disconnect_pp_syscall-ports :
      (port : ℤ) (d : Dev)
      → IsWellFormed hash hash_lt d.ports
      → (s : Ports) × (disconnect_pp_syscall table port d ≡ done (record d { ports = s }, pos 0))
        × IsWellFormed hash hash_lt s
  unfolding disconnect_pp_syscall
  disconnect_pp_syscall-ports port d w =
      let (s, e, marks) = remove-marks hash hash_lt port d.ports w in
      (
        s,
        rw (disconnect_found port d, e, disconnect_pp_syscall) refl,
        remove-IsWellFormed hash hash_lt port d.ports s w e,
      )

  -- With the driver's pointers set, a table where each entry stands in its bucket and memory for one
  -- more entry, connecting an odd positive port at a priority that is not negative and disconnecting
  -- it again restores the table of ports and the rest of the device, but for the marks of priorities
  -- in use.
  pub disconnect-connect :
      (priority : ℕ) (port : ℤ) (d : Dev)
      → allocated ≡ true
      → is_odd port ≡ true
      → IsWellFormed hash hash_lt d.ports
      → (e f : Dev) × (connect_pp_syscall table (pos priority) port d ≡ done (e, pos 0))
        × (disconnect_pp_syscall table port e ≡ done (f, pos 0))
        × (f ≡ record d { ports = record d.ports { in_use = f.ports.in_use } })
  unfolding connect_pp_syscall disconnect_pp_syscall
  disconnect-connect priority port d alloc odd w =
      let (t, e) = set_total hash hash_lt priority port d.ports in
      let e' : set_port_priority hash allocated (pos priority) port d.ports ≡ done t = rw alloc e in
      let back = remove-set hash hash_lt (pos priority) port d.ports t w e in
      (
        record d { ports = t },
        record d { ports = record d.ports { in_use = t.in_use } },
        rw (odd, connect_pp_syscall, connect_found (pos priority) port d, e') refl,
        rw (disconnect_found port (record d { ports = t }), back) refl,
        refl,
      )
