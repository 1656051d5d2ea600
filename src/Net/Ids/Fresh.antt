-- ===== src/Net/Ids/Fresh.antt =====
-- The loop of `napi_hash_add` finds a free number.
use cros_rt.Base.{
  ℕ, zero, suc, ◌+◌, ◌%◌, ◌^◌, ◌≤◌, ◌<◌, ◌≡◌, refl, sym, ◌∙◌, subst, Option, none, some, List, [],
  ◌∷◌, ltb, ◌==◌, true, false, Bool-cases, inl, inr, arith, if◌then◌else◌, length, true_ne_false,
}
use cros_rt.Net.Glue.{Napi, NapiHash, napi_by_id, find_napi}
use cros_rt.Net.Ids.{is_found, next_gen, gen_loop}

pub next-below :
    (min_napi_id gen : ℕ)
    → gen + 1 < 2 ^ 32
    → min_napi_id ≤ gen + 1
    → next_gen min_napi_id gen ≡ gen + 1
unfolding next_gen
next-below min_napi_id gen small above_min = ground (arith, small, above_min)

next-low :
    (min_napi_id gen : ℕ)
    → ltb ((gen + 1) % 2 ^ 32) min_napi_id ≡ true
    → next_gen min_napi_id gen ≡ min_napi_id
unfolding next_gen
next-low min_napi_id gen low = rw low refl

not_found : {A : Type 0} (o : Option A) → is_found o ≡ false → o ≡ none
not_found none h = refl
not_found (some a) h = absurd (true_ne_false h)

module _ {S : Type 0} where
  -- How many instances of a list have a number above `gen`.
  abbrev above : ℕ → List (Napi S) → ℕ
  above gen [] = 0
  above gen (n ∷ l) = if ltb gen n.napi_id then suc (above gen l) else above gen l

  above-length : (gen : ℕ) (l : List (Napi S)) → above gen l ≤ length l
  above-length gen [] = omega arith
  above-length gen (n ∷ l) = ground (arith, above-length gen l)

  above-next : (gen : ℕ) (l : List (Napi S)) → above (gen + 1) l ≤ above gen l
  above-next gen [] = omega arith
  above-next gen (n ∷ l) = ground (arith, above-next gen l)

  above-found :
      (gen : ℕ) (l : List (Napi S))
      → is_found (find_napi (gen + 1) l) ≡ true
      → above (gen + 1) l + 1 ≤ above gen l
  unfolding find_napi
  above-found gen [] h = absurd (true_ne_false (sym h))
  above-found gen (n ∷ l) h = ground (arith, above-next gen l, above-found gen l, h)

  -- Over the first `n` lists.
  unfoldable pub count : ℕ → ℕ → NapiHash S → ℕ
  count zero gen hash = 0
  count (suc n) gen hash = above gen (hash n) + count n gen hash

  unfoldable pub registered : ℕ → NapiHash S → ℕ
  registered zero hash = 0
  registered (suc n) hash = length (hash n) + registered n hash

  pub count-registered : (n gen : ℕ) (hash : NapiHash S) → count n gen hash ≤ registered n hash
  unfolding count registered
  count-registered zero gen hash = omega arith
  count-registered (suc n) gen hash =
      omega (arith, above-length gen (hash n), count-registered n gen hash)

  count-next : (n gen : ℕ) (hash : NapiHash S) → count n (gen + 1) hash ≤ count n gen hash
  unfolding count
  count-next zero gen hash = omega arith
  count-next (suc n) gen hash = omega (arith, above-next gen (hash n), count-next n gen hash)

  count-found :
      (n b gen : ℕ) (hash : NapiHash S)
      → b < n
      → is_found (find_napi (gen + 1) (hash b)) ≡ true
      → count n (gen + 1) hash + 1 ≤ count n gen hash
  unfolding count
  count-found zero b gen hash lt h = absurd (omega (arith, lt))
  count-found (suc n) b gen hash lt h = elim (Bool-cases (b == n)) [
    | inl here ↦
        let at : b ≡ n = ground (arith, here) in
        let found =
          above-found gen (hash n)
            (subst (λ c. is_found (find_napi (gen + 1) (hash c)) ≡ true) at h) in
        omega (arith, found, count-next n gen hash)
    | inr other ↦
        let later = count-found n b gen hash (ground (arith, lt, other)) h in
        omega (arith, later, above-next gen (hash n))
  ]

  -- A round of the loop, by the number that is tried.
  pub gen_loop-used :
      (min_napi_id fuel gen id : ℕ) (hash : NapiHash S)
      → next_gen min_napi_id gen ≡ id
      → is_found (napi_by_id id hash) ≡ true
      → gen_loop min_napi_id (suc fuel) gen hash ≡ gen_loop min_napi_id fuel id hash
  unfolding gen_loop
  gen_loop-used min_napi_id fuel gen id hash next used = rw (next, used, gen_loop) refl

  pub gen_loop-unused :
      (min_napi_id fuel gen id : ℕ) (hash : NapiHash S)
      → next_gen min_napi_id gen ≡ id
      → is_found (napi_by_id id hash) ≡ false
      → gen_loop min_napi_id (suc fuel) gen hash ≡ some id
  unfolding gen_loop
  gen_loop-unused min_napi_id fuel gen id hash next unused = rw (next, unused, gen_loop) refl

  module _ (min_napi_id : ℕ) (min_pos : 0 < min_napi_id) (min_word : min_napi_id < 2 ^ 32) where
    -- What the loop finds from `gen`.
    pub record IsFree (hash : NapiHash S) (id : ℕ) : Type 0 where
      pub unused : napi_by_id id hash ≡ none
      pub at_least : min_napi_id ≤ id
      pub word : id < 2 ^ 32

    -- As long as the numbers do not wrap, each number that is in use leaves fewer above it.
    pub gen_loop-ahead :
        (fuel gen : ℕ) (hash : NapiHash S)
        → min_napi_id ≤ gen + 1
        → gen + fuel < 2 ^ 32
        → count 256 gen hash < fuel
        → (id : ℕ) × (gen_loop min_napi_id fuel gen hash ≡ some id) × IsFree hash id × (gen < id)
    unfolding napi_by_id
    gen_loop-ahead zero gen hash lo hi enough = absurd (omega (arith, enough))
    gen_loop-ahead (suc fuel) gen hash lo hi enough =
        let next = next-below min_napi_id gen (omega (arith, hi)) lo in
        elim (Bool-cases (is_found (napi_by_id (gen + 1) hash))) [
          | inl used ↦
              let fewer = count-found 256 ((gen + 1) % 256) gen hash (omega arith) used in
              let (id, ends, free, later) =
                gen_loop-ahead fuel (gen + 1) hash (omega (arith, lo)) (omega (arith, hi))
                  (omega (arith, enough, fewer)) in
              (
                id,
                gen_loop-used min_napi_id fuel gen (gen + 1) hash next used ∙ ends,
                free,
                omega (arith, later),
              )
          | inr unused ↦ (
            gen + 1,
            gen_loop-unused min_napi_id fuel gen (gen + 1) hash next unused,
            record {
              unused = not_found (napi_by_id (gen + 1) hash) unused;
              at_least = lo;
              word = omega (arith, hi);
            },
            omega arith,
          )
        ]

    abbrev pub Finds : (fuel gen : ℕ) → NapiHash S → Type 0
    Finds fuel gen hash = (id : ℕ) × (gen_loop min_napi_id fuel gen hash ≡ some id) × IsFree hash id

    round-Finds :
        (fuel gen id : ℕ) (hash : NapiHash S)
        → next_gen min_napi_id gen ≡ id
        → min_napi_id ≤ id
        → id < 2 ^ 32
        → (is_found (napi_by_id id hash) ≡ true → Finds fuel id hash)
        → Finds (suc fuel) gen hash
    round-Finds fuel gen id hash next lo hi later =
        elim (Bool-cases (is_found (napi_by_id id hash))) [
          | inl used ↦
              let (found, ends, free) = later used in
              (found, gen_loop-used min_napi_id fuel gen id hash next used ∙ ends, free)
          | inr unused ↦ (
            id,
            gen_loop-unused min_napi_id fuel gen id hash next unused,
            record { unused = not_found (napi_by_id id hash) unused; at_least = lo; word = hi },
          )
        ]

    -- Where they wrap, it starts again at the least number.
    pub gen_loop-IsFree :
        (fuel gen : ℕ) (hash : NapiHash S)
        → gen < 2 ^ 32
        → min_napi_id + fuel < 2 ^ 32
        → count 256 gen hash + registered 256 hash + 1 < fuel
        → Finds fuel gen hash
    unfolding napi_by_id
    gen_loop-IsFree zero gen hash word small enough = absurd (omega (arith, enough))
    gen_loop-IsFree (suc fuel) gen hash word small enough =
        elim (Bool-cases (ltb ((gen + 1) % 2 ^ 32) min_napi_id)) [
          | inl low ↦
              round-Finds fuel gen min_napi_id hash (next-low min_napi_id gen low) (omega arith)
                min_word
                (λ used.
                  let bound = count-registered 256 min_napi_id hash in
                  let (id, ends, free, later) =
                    gen_loop-ahead fuel min_napi_id hash (omega arith) (omega (arith, small))
                      (omega (arith, enough, bound)) in
                  (id, ends, free))
          | inr high ↦
              let lo : min_napi_id ≤ gen + 1 = ground (arith, high, word) in
              let hi : gen + 1 < 2 ^ 32 = ground (arith, high, word, min_pos) in
              round-Finds fuel gen (gen + 1) hash (next-below min_napi_id gen hi lo) lo hi (λ used.
                let fewer = count-found 256 ((gen + 1) % 256) gen hash (omega arith) used in
                gen_loop-IsFree fuel (gen + 1) hash hi (omega (arith, small))
                  (omega (arith, enough, fewer)))
        ]
