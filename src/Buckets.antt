-- ===== src/Buckets.antt =====
-- A kernel hash table, `DEFINE_HASHTABLE(name, 8)` of linux/hashtable.h: 256 list heads, a new entry
-- at the front of its bucket. The hash of a key is the header's `hash_min`, here a parameter.
pub mod Laws
use cros_rt.Base.{
  ℕ, zero, suc, ◌+◌, ◌≡◌, Bool, true, false, List, [], ◌∷◌, Option, none, some, ◌==◌, if◌then◌else◌,
}
use cros_rt.Base.Int.{ℤ, eqb_ℤ}

abbrev pub hash_size : ℕ
hash_size = 256

abbrev pub Table : Type 0 → Type 0
Table E = ℕ → List E

abbrev pub empty_table : {E : Type 0} → Table E
empty_table _ = []

abbrev pub put_bucket : {E : Type 0} → Table E → ℕ → List E → Table E
put_bucket t b l c = if b == c then l else t c

module _ {E : Type 0} (key : E → ℤ) where
  -- The first entry of a bucket with the key.
  unfoldable pub find_entry : ℤ → List E → Option E
  find_entry k [] = none
  find_entry k (e ∷ l) = if eqb_ℤ (key e) k then some e else find_entry k l

  -- The bucket without that entry: `hash_del` at the place where the loop stands.
  unfoldable pub delete_entry : ℤ → List E → List E
  delete_entry k [] = []
  delete_entry k (e ∷ l) = if eqb_ℤ (key e) k then l else e ∷ delete_entry k l

  unfoldable pub has_entry : ℤ → List E → Bool
  has_entry k [] = false
  has_entry k (e ∷ l) = if eqb_ℤ (key e) k then true else has_entry k l

  -- `hash_for_each_safe` up to the entry with the key: the first such bucket of the next `n`.
  unfoldable pub find_bucket : Table E → ℤ → ℕ → ℕ → Option ℕ
  find_bucket t k zero b = none
  find_bucket t k (suc n) b = if has_entry k (t b) then some b else find_bucket t k n (b + 1)

  -- Every entry stands in the bucket of its key.
  abbrev pub InBucket : (ℤ → ℕ) → ℕ → List E → Type 0
  InBucket hash b [] = Unit
  InBucket hash b (e ∷ l) = (hash (key e) ≡ b) × InBucket hash b l

  abbrev pub IsPlaced : (ℤ → ℕ) → Table E → Type 0
  IsPlaced hash t = (b : ℕ) → InBucket hash b (t b)
