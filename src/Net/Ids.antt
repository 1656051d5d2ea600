-- ===== src/Net/Ids.antt =====
-- The numbers of NAPI instances, net/core/dev.c: `napi_hash_add`, `napi_hash_del`,
-- `netif_napi_add` and `__netif_napi_del`. CROS-RT reaches the driver through the instance with
-- number 257. MIN_NAPI_ID is a parameter; the lists of the device, the GRO layer and the thread of
-- an instance are left out.
pub mod Fresh
pub mod Added
pub mod Reached
pub mod Reload
pub mod Enough
use cros_rt.Base.{
  ℕ, zero, suc, ◌+◌, ◌%◌, ◌^◌, Bool, true, false, List, [], ◌∷◌, Option, none, some, ltb, ◌==◌,
  if◌then◌else◌,
}
use cros_rt.Buckets.{put_bucket}
use cros_rt.Net.Glue.{Napi, NapiHash, napi_by_id}
use cros_rt.Net.Instance.{Word}

-- `napi_gen_id` and `napi_hash`
pub record Registry (S : Type 0) : Type 0 where
  pub gen_id : ℕ
  pub hash : NapiHash S

-- A `struct napi_struct` with its state word.
pub record Instance (S : Type 0) : Type 0 where
  pub napi : Napi S
  pub state : Word

abbrev pub is_found : {E : Type 0} → Option E → Bool
is_found none = false
is_found (some e) = true

-- The list without the node of the instance with this number.
unfoldable pub unlink : {S : Type 0} → ℕ → List (Napi S) → List (Napi S)
unlink id [] = []
unlink id (n ∷ l) = if n.napi_id == id then l else n ∷ unlink id l

-- `if (unlikely(++napi_gen_id < MIN_NAPI_ID)) napi_gen_id = MIN_NAPI_ID;`
unfoldable pub next_gen : (min_napi_id gen : ℕ) → ℕ
next_gen min_napi_id gen =
    if ltb ((gen + 1) % 2 ^ 32) min_napi_id then min_napi_id else (gen + 1) % 2 ^ 32

module _ {S : Type 0} where
  -- An instance that was never hashed has a number that no list has.
  unfoldable pub napi_hash_del : Napi S → Registry S → Registry S
  unfolding unlink
  napi_hash_del n r =
      let b = n.napi_id % 256 in
      record r { hash = put_bucket r.hash b (unlink n.napi_id (r.hash b)) }

  unfoldable pub netif_napi_del : Instance S → Registry S → Instance S × Registry S
  unfolding napi_hash_del
  netif_napi_del e r =
      if e.state.listed
      then (record e { state = record (e.state) { listed = false } }, napi_hash_del e.napi r)
      else (e, r)

  -- `napi_hash_add` after its loop.
  abbrev pub link_napi : ℕ → Instance S → Registry S → Instance S × Registry S
  link_napi id e r =
      let n = record (e.napi) { napi_id = id } in
      (
        record e { napi = n },
        record { gen_id = id; hash = put_bucket r.hash (id % 256) (n ∷ r.hash (id % 256)) },
      )

  module _ (min_napi_id : ℕ) where
    -- The loop, on fuel.
    unfoldable pub gen_loop : ℕ → ℕ → NapiHash S → Option ℕ
    unfolding next_gen napi_by_id
    gen_loop zero gen hash = none
    gen_loop (suc fuel) gen hash =
        let rest = gen_loop fuel (next_gen min_napi_id gen) hash in
        if is_found (napi_by_id (next_gen min_napi_id gen) hash)
        then rest
        else some (next_gen min_napi_id gen)

    unfoldable pub napi_hash_add : ℕ → Instance S → Registry S → Option (Instance S × Registry S)
    unfolding gen_loop
    napi_hash_add fuel e r =
        if e.state.no_busy_poll then some (e, r) else elim (gen_loop fuel r.gen_id r.hash) [
          | none ↦ none
          | some id ↦ some (link_napi id e r)
        ]

    unfoldable pub netif_napi_add : ℕ → Instance S → Registry S → Option (Instance S × Registry S)
    unfolding napi_hash_add
    netif_napi_add fuel e r =
        if e.state.listed
        then some (e, r)
        else napi_hash_add fuel
            (record e { state = record (e.state) { listed = true; sched = true; npsvc = true } }) r
