-- ===== src/Net/Ids/Added.antt =====
-- What `netif_napi_add` and `__netif_napi_del` do to the numbers.
use cros_rt.Base.{
  ℕ, ◌+◌, ◌*◌, ◌%◌, ◌^◌, ◌≤◌, ◌<◌, ◌≡◌, ◌≢◌, refl, ap, ◌∙◌, subst, none, some, List, [], ◌∷◌, ◌==◌,
  true, false, Bool-cases, inl, inr, arith,
}
use cros_rt.Buckets.{put_bucket}
use cros_rt.Buckets.Laws.{put_bucket-put}
use cros_rt.Net.Glue.{Napi, NapiHash, napi_by_id, find_napi}
use cros_rt.Net.Instance.{Word}
use cros_rt.Net.Ids.{
  Registry, Instance, unlink, napi_hash_del, netif_napi_del, gen_loop, napi_hash_add,
  netif_napi_add,
}
use cros_rt.Net.Ids.Fresh.{registered, count-registered, gen_loop-IsFree}

module _ {S : Type 0} where
  -- No number twice in a list.
  abbrev pub IsUnique : List (Napi S) → Type 0
  IsUnique [] = Unit
  IsUnique (n ∷ l) = (find_napi n.napi_id l ≡ none) × IsUnique l

  pub record IsNumbered (r : Registry S) : Type 0 where
    pub word : r.gen_id < 2 ^ 32
    pub unique : (b : ℕ) → IsUnique (r.hash b)

  -- The instance with this number is there, and all others are as they were.
  pub record Adds (n : Napi S) (r t : Registry S) : Type 0 where
    pub fresh : napi_by_id n.napi_id r.hash ≡ none
    pub reached : napi_by_id n.napi_id t.hash ≡ some n
    pub others : (id : ℕ) → n.napi_id ≢ id → napi_by_id id t.hash ≡ napi_by_id id r.hash
    pub numbered : IsNumbered t

  put-IsUnique :
      (hash : NapiHash S) (b : ℕ) (l : List (Napi S))
      → IsUnique l
      → ((c : ℕ) → IsUnique (hash c))
      → (c : ℕ) → IsUnique (put_bucket hash b l c)
  put-IsUnique hash b l u h c = elim (Bool-cases (b == c)) [
    | inl here ↦ rw here u
    | inr other ↦ rw other (h c)
  ]

  linked-Adds :
      (n : Napi S) (gen : ℕ) (r : Registry S)
      → gen < 2 ^ 32
      → IsNumbered r
      → napi_by_id n.napi_id r.hash ≡ none
      → Adds n r (record {
        gen_id = gen;
        hash = put_bucket r.hash (n.napi_id % 256) (n ∷ r.hash (n.napi_id % 256));
      })
  unfolding napi_by_id find_napi
  linked-Adds n gen r word h fresh = record {
    fresh = fresh;
    reached = ground arith;
    others = λ id ne. ground (arith, ne);
    numbered = record {
      word = word;
      unique =
          put-IsUnique r.hash (n.napi_id % 256) (n ∷ r.hash (n.napi_id % 256))
            (fresh, h.unique (n.napi_id % 256)) h.unique;
    };
  }

  unlink-none : (id : ℕ) (l : List (Napi S)) → IsUnique l → find_napi id (unlink id l) ≡ none
  unfolding find_napi unlink
  unlink-none id [] u = refl
  unlink-none id (n ∷ l) u = elim (Bool-cases (n.napi_id == id)) [
    | inl here ↦ rw here (subst (λ k. find_napi k l ≡ none) (ground (arith, here)) u.0)
    | inr other ↦ rw other (rw (other, find_napi) (unlink-none id l u.1))
  ]

  unlink-other : (id j : ℕ) (l : List (Napi S)) → id ≢ j → find_napi j (unlink id l) ≡ find_napi j l
  unfolding find_napi unlink
  unlink-other id j [] ne = refl
  unlink-other id j (n ∷ l) ne = ground (arith, ne, unlink-other id j l ne)

  unlink-IsUnique : (id : ℕ) (l : List (Napi S)) → IsUnique l → IsUnique (unlink id l)
  unfolding unlink
  unlink-IsUnique id [] u = tt
  unlink-IsUnique id (n ∷ l) u = elim (Bool-cases (n.napi_id == id)) [
    | inl here ↦ rw here u.1
    | inr other ↦
        let differ : id ≢ n.napi_id = ground (arith, other) in
        rw other (unlink-other id n.napi_id l differ ∙ u.0, unlink-IsUnique id l u.1)
  ]

  -- The instance is gone, and all others are as they were.
  pub record Removes (id : ℕ) (r t : Registry S) : Type 0 where
    pub gone : napi_by_id id t.hash ≡ none
    pub others : (j : ℕ) → id ≢ j → napi_by_id j t.hash ≡ napi_by_id j r.hash
    pub numbered : IsNumbered t

  pub napi_hash_del-Removes :
      (n : Napi S) (r : Registry S) → IsNumbered r → Removes n.napi_id r (napi_hash_del n r)
  unfolding napi_hash_del napi_by_id
  napi_hash_del-Removes n r h =
      let b = n.napi_id % 256 in
      let l = r.hash b in
      record {
        gone = ground (arith, unlink-none n.napi_id l (h.unique b));
        others = λ j ne. elim (Bool-cases (b == j % 256)) [
          | inl here ↦
              let at : b ≡ j % 256 = ground (arith, here) in
              rw here (unlink-other n.napi_id j l ne ∙ ap (λ c. find_napi j (r.hash c)) at)
          | inr other ↦ rw other refl
        ];
        numbered = record {
          word = h.word;
          unique =
              put-IsUnique r.hash b (unlink n.napi_id l) (unlink-IsUnique n.napi_id l (h.unique b))
                h.unique;
        };
      }

  linked-del :
      (n : Napi S) (gen : ℕ) (r : Registry S)
      → (napi_hash_del n (record {
        gen_id = gen;
        hash = put_bucket r.hash (n.napi_id % 256) (n ∷ r.hash (n.napi_id % 256));
      })).hash
        ≡ r.hash
  unfolding napi_hash_del unlink
  linked-del n gen r =
      let b = n.napi_id % 256 in
      let hash = put_bucket r.hash b (n ∷ r.hash b) in
      let first : unlink n.napi_id (hash b) ≡ r.hash b = ground arith in
      ap (put_bucket hash b) first ∙ put_bucket-put r.hash b (n ∷ r.hash b)

  hashed :
      (min_napi_id fuel id : ℕ) (e : Instance S) (r : Registry S)
      → e.state.no_busy_poll ≡ false
      → gen_loop min_napi_id fuel r.gen_id r.hash ≡ some id
      → napi_hash_add min_napi_id fuel e r
        ≡ some (
          record e { napi = record (e.napi) { napi_id = id } },
          record {
            gen_id = id;
            hash =
                put_bucket r.hash (id % 256) (record (e.napi) { napi_id = id } ∷ r.hash (id % 256));
          },
        )
  unfolding napi_hash_add
  hashed min_napi_id fuel id e r busy ends = ground (arith, busy, ends)

  module _ (min_napi_id : ℕ) (min_pos : 0 < min_napi_id) (min_word : min_napi_id < 2 ^ 32) where
    -- Adding an instance that is not listed yet and may be polled busily, where no list has a
    -- number twice and with more fuel than twice the instances that are registered: the loop ends,
    -- the instance gets a number of 32 bits from MIN_NAPI_ID on that none has, it is found under
    -- this number, every other number leads where it did, and removing it again restores the
    -- table.
    pub netif_napi_add-Adds :
        (fuel : ℕ) (e : Instance S) (r : Registry S)
        → e.state.listed ≡ false
        → e.state.no_busy_poll ≡ false
        → IsNumbered r
        → 2 * registered 256 r.hash + 1 < fuel
        → min_napi_id + fuel < 2 ^ 32
        → (f : Instance S) × (t : Registry S) × (netif_napi_add min_napi_id fuel e r ≡ some (f, t))
          × Adds f.napi r t
          × (min_napi_id ≤ f.napi.napi_id)
          × (f.napi.napi_id < 2 ^ 32)
          × ((netif_napi_del f t).1.hash ≡ r.hash)
    unfolding netif_napi_add napi_hash_add netif_napi_del
    netif_napi_add-Adds fuel e r unlisted busy h enough small =
        let bound = count-registered 256 r.gen_id r.hash in
        let (id, ends, free) =
          gen_loop-IsFree min_napi_id min_pos min_word fuel r.gen_id r.hash h.word small
            (omega (arith, enough, bound)) in
        let n : Napi S = record (e.napi) { napi_id = id } in
        let state : Word = record (e.state) { listed = true; sched = true; npsvc = true } in
        (
          record { napi = n; state = state },
          record { gen_id = id; hash = put_bucket r.hash (id % 256) (n ∷ r.hash (id % 256)) },
          rw (unlisted, netif_napi_add)
              (hashed min_napi_id fuel id (record { napi = e.napi; state = state }) r busy ends),
          linked-Adds n id r free.word h free.unused,
          free.at_least,
          free.word,
          linked-del n id r,
        )
