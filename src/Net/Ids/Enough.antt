-- ===== src/Net/Ids/Enough.antt =====
-- Any additions and deletions of instances come to an end, and what the handlers reach then.
use cros_rt.Base.{
  ℕ, zero, suc, ◌+◌, ◌%◌, ◌^◌, ◌≤◌, ◌<◌, ◌≡◌, refl, subst, some, List, [], ◌∷◌, ◌==◌, Bool-cases,
  inl, inr, arith, length,
}
use cros_rt.Buckets.{put_bucket}
use cros_rt.Net.Glue.{Napi, NapiHash}
use cros_rt.Net.Ids.{Registry, unlink, napi_hash_del, netif_napi_del, napi_hash_add, netif_napi_add}
use cros_rt.Net.Ids.Fresh.{registered, count-registered, gen_loop-ahead}
use cros_rt.Net.Ids.Reached.{LeadsNowhere}
use cros_rt.Net.Ids.Reload.{
  Change, add, del, change, run, cost, takes, IsPassed, StaysPassed, Ends, change-IsPassed,
  run-Ends,
}

module _ {S : Type 0} where
  put-registered_out :
      (n b : ℕ) (hash : NapiHash S) (l : List (Napi S))
      → n ≤ b
      → registered n (put_bucket hash b l) ≡ registered n hash
  unfolding registered
  put-registered_out zero b hash l out = refl
  put-registered_out (suc n) b hash l out = ground (arith, put-registered_out n b hash l)

  -- A list in the place of one that is at most `k` shorter.
  put-registered :
      (n b k : ℕ) (hash : NapiHash S) (l : List (Napi S))
      → length l ≤ length (hash b) + k
      → registered n (put_bucket hash b l) ≤ registered n hash + k
  unfolding registered
  put-registered zero b k hash l le = omega arith
  put-registered (suc n) b k hash l le = elim (Bool-cases (b == n)) [
    | inl here ↦
        let at : b ≡ n = ground (arith, here) in
        let rest = put-registered_out n b hash l (omega (arith, at)) in
        let le' : length l ≤ length (hash n) + k =
          subst (λ c. length l ≤ length (hash c) + k) at le in
        rw here (omega (arith, rest, le'))
    | inr other ↦ rw other (omega (arith, put-registered n b k hash l le))
  ]

  length-unlink : (id : ℕ) (l : List (Napi S)) → length (unlink id l) ≤ length l
  unfolding unlink
  length-unlink id [] = omega arith
  length-unlink id (n ∷ l) = ground (arith, length-unlink id l)

  -- `k` bounds the instances that are registered: each addition has more fuel than that.
  abbrev HasFuel : ℕ → Change S → Type 0
  HasFuel k (add fuel e) = k < fuel
  HasFuel k (del e) = Unit

  abbrev more : Change S → ℕ
  more (add fuel e) = 1
  more (del e) = 0

  abbrev pub Enough : ℕ → List (Change S) → Type 0
  Enough k [] = Unit
  Enough k (c ∷ l) = HasFuel k c × Enough (k + more c) l

  change-ends :
      (c : Change S) (k : ℕ) (r : Registry S)
      → IsPassed r
      → registered 256 r.hash ≤ k
      → HasFuel k c
      → r.gen_id + takes c < 2 ^ 32
      → (t : Registry S) × (change c r ≡ some t) × (registered 256 t.hash ≤ k + more c)
  unfolding change netif_napi_add netif_napi_del napi_hash_add napi_hash_del
  change-ends (del e) k r h few fuel small = elim (Bool-cases e.state.listed) [
    | inl listed ↦ (
      napi_hash_del e.napi r,
      rw (listed, netif_napi_del) refl,
      let b = e.napi.napi_id % 256 in
          omega (
            arith,
            few,
            put-registered 256 b 0 r.hash (unlink e.napi.napi_id (r.hash b))
                (omega (arith, length-unlink e.napi.napi_id (r.hash b))),
          ),
    )
    | inr unlisted ↦ (r, rw (unlisted, netif_napi_del) refl, omega (arith, few))
  ]
  change-ends (add fuel e) k r h few enough small = elim (Bool-cases e.state.listed) [
    | inl listed ↦ (r, rw (listed, netif_napi_add) refl, omega (arith, few))
    | inr unlisted ↦ elim (Bool-cases e.state.no_busy_poll) [
      | inl hidden ↦
          (r, rw (unlisted, netif_napi_add, hidden, napi_hash_add) refl, omega (arith, few))
      | inr busy ↦
          let bound = count-registered 256 r.gen_id r.hash in
          let (id, ends, free, later) =
            gen_loop-ahead 257 (omega arith) (omega arith) fuel r.gen_id r.hash
              (omega (arith, h.passed)) small (omega (arith, enough, few, bound)) in
          let b = id % 256 in
          let n : Napi S = record (e.napi) { napi_id = id } in
          (
            record { gen_id = id; hash = put_bucket r.hash b (n ∷ r.hash b) },
            rw (unlisted, netif_napi_add, busy, ends, napi_hash_add) refl,
            omega (arith, few, put-registered 256 b 1 r.hash (n ∷ r.hash b) (omega arith)),
          )
    ]
  ]

  run-ends :
      (l : List (Change S)) (k : ℕ) (r : Registry S)
      → IsPassed r
      → registered 256 r.hash ≤ k
      → Enough k l
      → r.gen_id + cost l < 2 ^ 32
      → (t : Registry S) × (run l r ≡ some t)
  unfolding run
  run-ends [] k r h few fuel small = (r, refl)
  run-ends (c ∷ l) k r h few fuel small =
      let (t, done_c, few') = change-ends c k r h few fuel.0 (omega (arith, small)) in
      let (passed, le) : IsPassed t × (t.gen_id ≤ r.gen_id + takes c) =
        subst (StaysPassed (r.gen_id + takes c)) done_c
          (change-IsPassed c r h (omega (arith, small))) in
      let (u, runs) = run-ends l (k + more c) t passed few' fuel.1 (omega (arith, le, small)) in
      (u, rw (done_c, run) runs)

  -- Once the numbers have passed 257 and the instance that had it is gone, no instance that is
  -- added later gets it: any changes of instances come to an end, if each addition has more fuel
  -- than instances can be registered by then and all the fuel does not take the numbers to 2 ^ 32;
  -- and then every handler reaches nothing, and every system call for a port returns without effect.
  pub run-LeadsNowhere :
      (l : List (Change S)) (r : Registry S)
      → IsPassed r
      → Enough (registered 256 r.hash) l
      → r.gen_id + cost l < 2 ^ 32
      → (t : Registry S) × (run l r ≡ some t) × LeadsNowhere t.hash
  run-LeadsNowhere l r h fuel small =
      let (t, runs) = run-ends l (registered 256 r.hash) r h (omega arith) fuel small in
      (t, runs, subst Ends runs (run-Ends l r h small))
