-- ===== src/Net/Ids/Reload.antt =====
-- What the handlers reach after the driver was loaded again.
use cros_rt.Base.{
  ℕ, zero, suc, ◌+◌, ◌%◌, ◌^◌, ◌≤◌, ◌<◌, ◌≡◌, ◌≢◌, refl, sym, subst, Option, none, some, List, [],
  ◌∷◌, ◌==◌, true, Bool-cases, inl, inr, arith,
}
use cros_rt.Buckets.{put_bucket}
use cros_rt.Net.Glue.{Napi, NapiHash, napi_by_id, find_napi, handler_id}
use cros_rt.Net.Instance.{Word}
use cros_rt.Net.Ids.{
  Registry, Instance, is_found, link_napi, unlink, napi_hash_del, netif_napi_del, gen_loop,
  napi_hash_add, netif_napi_add,
}
use cros_rt.Net.Ids.Fresh.{gen_loop-unused, gen_loop-used, next-below}
use cros_rt.Net.Ids.Reached.{LeadsNowhere, nowhere}

-- Adding, with its fuel, and deleting.
pub data Change (S : Type 0) : Type 0 where
  add : ℕ → Instance S → Change S
  del : Instance S → Change S

-- What a loop of at most `fuel` rounds may find.
abbrev Later : (fuel gen : ℕ) → Option ℕ → Type 0
Later fuel gen none = Unit
Later fuel gen (some id) = (gen < id) × (id ≤ gen + fuel)

Later-next : (fuel gen : ℕ) (o : Option ℕ) → Later fuel (gen + 1) o → Later (suc fuel) gen o
Later-next fuel gen none h = tt
Later-next fuel gen (some id) h = omega (arith, h)

module _ {S : Type 0} where
  -- One change after the other, where numbers start at 257.
  abbrev pub added : Option (Instance S × Registry S) → Option (Registry S)
  added none = none
  added (some (f, t)) = some t

  unfoldable pub change : Change S → Registry S → Option (Registry S)
  unfolding netif_napi_add netif_napi_del
  change (add fuel e) r = added (netif_napi_add 257 fuel e r)
  change (del e) r = some (netif_napi_del e r).1

  unfoldable pub run : List (Change S) → Registry S → Option (Registry S)
  unfolding change
  run [] r = some r
  run (c ∷ l) r = elim (change c r) [ none ↦ none | some t ↦ run l t ]

  abbrev pub takes : Change S → ℕ
  takes (add fuel e) = fuel
  takes (del e) = 0

  abbrev pub cost : List (Change S) → ℕ
  cost [] = 0
  cost (c ∷ l) = takes c + cost l

  gen_loop-Later :
      (fuel gen : ℕ) (hash : NapiHash S)
      → 257 ≤ gen
      → gen + fuel < 2 ^ 32
      → Later fuel gen (gen_loop 257 fuel gen hash)
  unfolding gen_loop
  gen_loop-Later zero gen hash lo hi = tt
  gen_loop-Later (suc fuel) gen hash lo hi =
      let next = next-below 257 gen (omega (arith, hi)) (omega (arith, lo)) in
      elim (Bool-cases (is_found (napi_by_id (gen + 1) hash))) [
        | inl used ↦
            subst (Later (suc fuel) gen) (sym (gen_loop-used 257 fuel gen (gen + 1) hash next used))
              (Later-next fuel gen (gen_loop 257 fuel (gen + 1) hash)
                (gen_loop-Later fuel (gen + 1) hash (omega (arith, lo)) (omega (arith, hi))))
        | inr unused ↦
            subst (Later (suc fuel) gen)
              (sym (gen_loop-unused 257 fuel gen (gen + 1) hash next unused))
              (omega arith, omega arith)
      ]

  -- The numbers have passed 257, and no instance has it.
  pub record IsPassed (r : Registry S) : Type 0 where
    pub passed : 257 ≤ r.gen_id
    pub absent : napi_by_id handler_id r.hash ≡ none

  abbrev pub StaysPassed : (bound : ℕ) → Option (Registry S) → Type 0
  StaysPassed bound none = Unit
  StaysPassed bound (some t) = IsPassed t × (t.gen_id ≤ bound)

  napi_hash_add-IsPassed :
      (fuel : ℕ) (e : Instance S) (r : Registry S)
      → IsPassed r
      → r.gen_id + fuel < 2 ^ 32
      → StaysPassed (r.gen_id + fuel) (added (napi_hash_add 257 fuel e r))
  unfolding napi_hash_add napi_by_id find_napi
  napi_hash_add-IsPassed fuel e r h small = elim (Bool-cases e.state.no_busy_poll) [
    | inl hidden ↦ rw (hidden, napi_hash_add) (h, omega arith)
    | inr busy ↦
        rw (busy, napi_hash_add)
          (by_id (gen_loop 257 fuel r.gen_id r.hash)
            (gen_loop-Later fuel r.gen_id r.hash h.passed small))
  ]
    where
      by_id :
          (o : Option ℕ)
          → Later fuel r.gen_id o
          → StaysPassed
              (r.gen_id + fuel)
              (added (elim o [ none ↦ none | some id ↦ some (link_napi id e r) ]))
      by_id none later = tt
      by_id (some id) later =
          let differ : id ≢ 257 = omega (arith, later, h.passed) in
          (
            record {
              passed = omega (arith, later, h.passed);
              absent = ground (arith, differ, h.absent);
            },
            later.1,
          )

  unlink-none :
      (id j : ℕ) (l : List (Napi S)) → find_napi j l ≡ none → find_napi j (unlink id l) ≡ none
  unfolding find_napi unlink
  unlink-none id j [] h = refl
  unlink-none id j (n ∷ l) h = ground (arith, unlink-none id j l, h)

  del-IsPassed :
      (e : Instance S) (r : Registry S)
      → IsPassed r
      → StaysPassed r.gen_id (some (netif_napi_del e r).1)
  unfolding netif_napi_del napi_hash_del napi_by_id
  del-IsPassed e r h = elim (Bool-cases e.state.listed) [
    | inl listed ↦
        rw (listed, netif_napi_del) (record { passed = h.passed; absent = still }, omega arith)
    | inr unlisted ↦ rw (unlisted, netif_napi_del) (h, omega arith)
  ]
    where
      b : ℕ
      b = e.napi.napi_id % 256

      still : find_napi 257 (put_bucket r.hash b (unlink e.napi.napi_id (r.hash b)) 1) ≡ none
      still = elim (Bool-cases (b == 1)) [
        | inl here ↦
            let at : 1 ≡ b = ground (arith, here) in
            rw here (
              unlink-none e.napi.napi_id 257 (r.hash b)
                (subst (λ c. find_napi 257 (r.hash c) ≡ none) at h.absent))
        | inr other ↦ rw other h.absent
      ]

  pub change-IsPassed :
      (c : Change S) (r : Registry S)
      → IsPassed r
      → r.gen_id + takes c < 2 ^ 32
      → StaysPassed (r.gen_id + takes c) (change c r)
  unfolding change netif_napi_add
  change-IsPassed (del e) r h small =
      let (passed, le) = del-IsPassed e r h in (passed, omega (arith, le))
  change-IsPassed (add fuel e) r h small = elim (Bool-cases e.state.listed) [
    | inl listed ↦ rw (listed, netif_napi_add) (h, omega arith)
    | inr unlisted ↦
        let state : Word = record (e.state) { listed = true; sched = true; npsvc = true } in
        rw (unlisted, netif_napi_add)
          (napi_hash_add-IsPassed fuel (record { napi = e.napi; state = state }) r h small)
  ]

  abbrev pub Ends : Option (Registry S) → Type 0
  Ends none = Unit
  Ends (some t) = LeadsNowhere t.hash

  pub run-Ends :
      (l : List (Change S)) (r : Registry S)
      → IsPassed r
      → r.gen_id + cost l < 2 ^ 32
      → Ends (run l r)
  unfolding run
  run-Ends [] r h small = nowhere r.hash h.absent
  run-Ends (c ∷ l) r h small =
      next (change c r) (change-IsPassed c r h (omega (arith, small)))
        (λ t passed le. run-Ends l t passed (omega (arith, le, small)))
    where
      next :
          (o : Option (Registry S))
          → StaysPassed (r.gen_id + takes c) o
          → ((t : Registry S) → IsPassed t → t.gen_id ≤ r.gen_id + takes c → Ends (run l t))
          → Ends (elim o [ none ↦ none | some t ↦ run l t ])
      next none stays later = tt
      next (some t) (passed, le) later = later t passed le
