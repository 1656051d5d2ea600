-- ===== src/Net/Ids/Reached.antt =====
-- Which instance the handlers and the system calls reach through number 257.
use cros_rt.Base.{ℕ, ◌≡◌, refl, none, [], done}
use cros_rt.Base.Int.{ℤ, pos, negsuc}
use cros_rt.Net.Glue.{
  Napi, NapiHash, call, napi_by_id, handler_id, connect_port_priority, disconnect_port_priority,
  net_rt_handler_action, net_non_rt_handler_action, net_non_rt_pl_handler_action, get_highest_prio,
}
use cros_rt.Net.Ids.{Registry, Instance}

module _ {S : Type 0} where
  abbrev pub boot : (nr_cpus : ℕ) → Registry S
  boot nr_cpus = record { gen_id = nr_cpus; hash = λ b. [] }

  abbrev pub LeadsNowhere : NapiHash S → Type 0
  LeadsNowhere hash =
      (s : S)
      → (net_rt_handler_action hash s ≡ done (s, negsuc 0))
        × (net_non_rt_handler_action hash s ≡ done s)
        × ((period util : ℤ) → net_non_rt_pl_handler_action hash period util s ≡ done s)
        × (get_highest_prio hash s ≡ done (pos 0))
        × ((priority port : ℤ) → connect_port_priority hash priority port s ≡ done s)
        × ((port : ℤ) → disconnect_port_priority hash port s ≡ done s)

  abbrev pub LeadsTo : Napi S → NapiHash S → Type 0
  LeadsTo n hash =
      (s : S)
      → (net_rt_handler_action hash s ≡ call n.rt_poll (λ f. f s))
        × (net_non_rt_handler_action hash s ≡ call n.non_rt_poll (λ f. f s))
        × ((period util : ℤ)
            → net_non_rt_pl_handler_action hash period util s
              ≡ call n.non_rt_pl_poll (λ f. f period util s))
        × (get_highest_prio hash s ≡ call n.highest_prio (λ f. done (f s)))
        × ((priority port : ℤ)
            → connect_port_priority hash priority port s
              ≡ call n.set_port_priority (λ f. f priority port s))
        × ((port : ℤ)
            → disconnect_port_priority hash port s ≡ call n.remove_port_priority (λ f. f port s))

  pub nowhere : (hash : NapiHash S) → napi_by_id handler_id hash ≡ none → LeadsNowhere hash
  unfolding connect_port_priority disconnect_port_priority net_rt_handler_action
      net_non_rt_handler_action net_non_rt_pl_handler_action get_highest_prio
  nowhere hash h s = (
    rw (h, net_rt_handler_action) refl,
    rw (h, net_non_rt_handler_action) refl,
    λ period util. rw (h, net_non_rt_pl_handler_action) refl,
    rw (h, get_highest_prio) refl,
    λ priority port. rw (h, connect_port_priority) refl,
    λ port. rw (h, disconnect_port_priority) refl,
  )
