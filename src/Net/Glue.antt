-- ===== src/Net/Glue.antt =====
-- How the handlers and the system calls reach the driver, net/core/dev.c: the function pointers
-- that CROS-RT adds to `struct napi_struct` (include/linux/netdevice.h), the functions that set
-- them, `napi_by_id`, and the calls through instance 257. Locks and messages are left out.
use cros_rt.Base.{
  ℕ, ◌%◌, List, [], ◌∷◌, Option, none, some, ◌==◌, if◌then◌else◌, Outcome, done, fault,
}
use cros_rt.Base.Int.{ℤ, pos, negsuc}

-- `struct napi_struct`, the fields of CROS-RT; a pointer that was never set is none. `S` is the
-- state behind the pointers.
pub record Napi (S : Type 0) : Type 0 where
  pub napi_id : ℕ
  pub set_port_priority : Option (ℤ → ℤ → S → Outcome S)
  pub remove_port_priority : Option (ℤ → S → Outcome S)
  pub rt_poll : Option (S → Outcome (S × ℤ))
  pub non_rt_poll : Option (S → Outcome S)
  pub non_rt_pl_poll : Option (ℤ → ℤ → S → Outcome S)
  pub highest_prio : Option (S → ℤ)

-- `napi_hash`, an array of 256 lists.
abbrev pub NapiHash : Type 0 → Type 0
NapiHash S = ℕ → List (Napi S)

abbrev pub handler_id : ℕ
handler_id = 257

-- A call through a pointer that may be null.
abbrev pub call : {A B : Type 0} → Option A → (A → Outcome B) → Outcome B
call none use_it = fault
call (some f) use_it = use_it f

module _ {S : Type 0} where
  unfoldable pub netif_napi_add_port_priority : (ℤ → ℤ → S → Outcome S) → Napi S → Napi S
  netif_napi_add_port_priority f n = record n { set_port_priority = some f }

  unfoldable pub netif_napi_add_remove_port_priority : (ℤ → S → Outcome S) → Napi S → Napi S
  netif_napi_add_remove_port_priority f n = record n { remove_port_priority = some f }

  unfoldable pub netif_napi_add_rt_poll : (S → Outcome (S × ℤ)) → Napi S → Napi S
  netif_napi_add_rt_poll f n = record n { rt_poll = some f }

  unfoldable pub netif_napi_add_non_rt_poll : (S → Outcome S) → Napi S → Napi S
  netif_napi_add_non_rt_poll f n = record n { non_rt_poll = some f }

  unfoldable pub netif_napi_add_non_rt_pl_poll : (ℤ → ℤ → S → Outcome S) → Napi S → Napi S
  netif_napi_add_non_rt_pl_poll f n = record n { non_rt_pl_poll = some f }

  unfoldable pub netif_napi_add_highest_prio : (S → ℤ) → Napi S → Napi S
  netif_napi_add_highest_prio f n = record n { highest_prio = some f }

  unfoldable pub find_napi : ℕ → List (Napi S) → Option (Napi S)
  find_napi id [] = none
  find_napi id (n ∷ l) = if n.napi_id == id then some n else find_napi id l

  unfoldable pub napi_by_id : ℕ → NapiHash S → Option (Napi S)
  unfolding find_napi
  napi_by_id id table = find_napi id (table (id % 256))

  unfoldable pub connect_port_priority : NapiHash S → ℤ → ℤ → S → Outcome S
  unfolding napi_by_id
  connect_port_priority table priority port s = elim (napi_by_id handler_id table) [
    | none ↦ done s
    | some n ↦ call n.set_port_priority (λ f. f priority port s)
  ]

  unfoldable pub disconnect_port_priority : NapiHash S → ℤ → S → Outcome S
  unfolding napi_by_id
  disconnect_port_priority table port s = elim (napi_by_id handler_id table) [
    | none ↦ done s
    | some n ↦ call n.remove_port_priority (λ f. f port s)
  ]

  unfoldable pub net_rt_handler_action : NapiHash S → S → Outcome (S × ℤ)
  unfolding napi_by_id
  net_rt_handler_action table s = elim (napi_by_id handler_id table) [
    | none ↦ done (s, negsuc 0)
    | some n ↦ call n.rt_poll (λ f. f s)
  ]

  unfoldable pub net_non_rt_handler_action : NapiHash S → S → Outcome S
  unfolding napi_by_id
  net_non_rt_handler_action table s = elim (napi_by_id handler_id table) [
    | none ↦ done s
    | some n ↦ call n.non_rt_poll (λ f. f s)
  ]

  unfoldable pub net_non_rt_pl_handler_action : NapiHash S → ℤ → ℤ → S → Outcome S
  unfolding napi_by_id
  net_non_rt_pl_handler_action table period util s = elim (napi_by_id handler_id table) [
    | none ↦ done s
    | some n ↦ call n.non_rt_pl_poll (λ f. f period util s)
  ]

  unfoldable pub get_highest_prio : NapiHash S → S → Outcome ℤ
  unfolding napi_by_id
  get_highest_prio table s = elim (napi_by_id handler_id table) [
    | none ↦ done (pos 0)
    | some n ↦ call n.highest_prio (λ f. done (f s))
  ]
