-- ===== src/Buckets/Laws.antt =====
-- Entries, buckets and keys of a hash table.
use mathlib.Core.Path.{fun_ext}
use cros_rt.Base.{
  if◌then◌else◌, some, ℕ, zero, suc, ◌+◌, ◌≤◌, ◌<◌, ◌≡◌, ◌≢◌, refl, sym, ◌∙◌, inl, inr, true, false,
  List, [], ◌∷◌, none, some, arith, ◌==◌, Bool-cases, ap,
}
use cros_rt.Base.Int.{ℤ, eqb_ℤ, eqb_ℤ_iff}
use cros_rt.Buckets.{
  Table, put_bucket, find_entry, delete_entry, has_entry, find_bucket, InBucket, IsPlaced,
}

-- Taking the newest entry out again leaves the table as it was.
pub put_bucket-put :
    {E : Type 0} (t : Table E) (b : ℕ) (l : List E) → put_bucket (put_bucket t b l) b (t b) ≡ t
put_bucket-put t b l = fun_ext λ c. elim (Bool-cases (b == c)) [
  | inl here ↦ let at : b ≡ c = ground arith in rw here (ap t at)
  | inr there ↦ rw there refl
]

module _ {E : Type 0} (key : E → ℤ) where
  pub find_entry-delete_ne :
      (k j : ℤ) (l : List E) → j ≢ k → find_entry key k (delete_entry key j l) ≡ find_entry key k l
  unfolding find_entry delete_entry
  find_entry-delete_ne k j [] h = refl
  find_entry-delete_ne k j (e ∷ l) h =
      ground (arith, find_entry-delete_ne k j l h, eqb_ℤ_iff (key e) j, eqb_ℤ_iff (key e) k)

  pub has_entry-find : (k : ℤ) (l : List E) → has_entry key k l ≡ false → find_entry key k l ≡ none
  unfolding find_entry has_entry
  has_entry-find k [] h = refl
  has_entry-find k (e ∷ l) h = ground (arith, has_entry-find k l)

  pub delete_entry-InBucket :
      (hash : ℤ → ℕ) (k : ℤ) (b : ℕ) (l : List E)
      → InBucket key hash b l
      → InBucket key hash b (delete_entry key k l)
  unfolding delete_entry
  delete_entry-InBucket hash k b [] h = tt
  delete_entry-InBucket hash k b (e ∷ l) h = elim (Bool-cases (eqb_ℤ (key e) k)) [
    | inl hit ↦ rw hit h.1
    | inr miss ↦ rw miss (h.0, delete_entry-InBucket hash k b l h.1)
  ]

  -- A placed entry is found in the bucket of its key only.
  pub has_entry-hash :
      (hash : ℤ → ℕ) (k : ℤ) (b : ℕ) (l : List E)
      → InBucket key hash b l
      → has_entry key k l ≡ true
      → hash k ≡ b
  unfolding has_entry
  has_entry-hash hash k b [] h p = cc
  has_entry-hash hash k b (e ∷ l) h p = elim (Bool-cases (eqb_ℤ (key e) k)) [
    | inl hit ↦ ap hash (sym ((eqb_ℤ_iff _ _).0 hit)) ∙ h.0
    | inr miss ↦ has_entry-hash hash k b l h.1 (rw miss at p)
  ]

  pub find_bucket-has :
      (t : Table E) (k : ℤ) (n b c : ℕ)
      → find_bucket key t k n b ≡ some c
      → has_entry key k (t c) ≡ true
  unfolding find_bucket
  find_bucket-has t k zero b c h = cc
  find_bucket-has t k (suc n) b c h = ground (arith, find_bucket-has t k n (b + 1) c)

  -- The walk over all buckets misses no entry.
  pub find_bucket-none :
      (t : Table E) (k : ℤ) (n b c : ℕ)
      → find_bucket key t k n b ≡ none
      → b ≤ c
      → c < b + n
      → has_entry key k (t c) ≡ false
  unfolding find_bucket
  find_bucket-none t k zero b c h p q = absurd (omega arith)
  find_bucket-none t k (suc n) b c h p q = elim (Bool-cases (b == c)) [
    | inl here ↦ ground arith
    | inr later ↦ ground (arith, find_bucket-none t k n (b + 1) c)
  ]

  pub put_bucket-IsPlaced :
      (hash : ℤ → ℕ) (t : Table E) (b : ℕ) (l : List E)
      → IsPlaced key hash t
      → InBucket key hash b l
      → IsPlaced key hash (put_bucket t b l)
  put_bucket-IsPlaced hash t b l h p c = elim (Bool-cases (b == c)) [
    | inl here ↦ let e : b ≡ c = ground arith in rw here (subst_bucket e)
    | inr there ↦ rw there (h c)
  ]
    where
      subst_bucket : b ≡ c → InBucket key hash c l
      subst_bucket e = rw (← e) p

  -- A new entry is found by its key, and hides no entry with another key.
  pub find_entry-add :
      (hash : ℤ → ℕ) (t : Table E) (e : E) (k : ℤ)
      → find_entry key k (put_bucket t (hash (key e)) (e ∷ t (hash (key e))) (hash k))
        ≡ (if eqb_ℤ (key e) k then some e else find_entry key k (t (hash k)))
  unfolding find_entry
  find_entry-add hash t e k = elim (Bool-cases (hash (key e) == hash k)) [
    | inl same ↦ let at : hash (key e) ≡ hash k = ground arith in rw (same, find_entry) (rw at refl)
    | inr other ↦
        let apart : eqb_ℤ (key e) k ≡ false = elim (Bool-cases (eqb_ℤ (key e) k)) [
          | inl hit ↦ absurd (differ other (ap hash ((eqb_ℤ_iff _ _).0 hit)))
          | inr miss ↦ miss
        ] in
        rw (other, apart) refl
  ]
    where
      differ : (hash (key e) == hash k) ≡ false → hash (key e) ≡ hash k → ⊥
      differ other at = ground arith

  -- Deleting by one key in that key's bucket hides no entry with another key.
  pub find_entry-delete_bucket :
      (hash : ℤ → ℕ) (t : Table E) (j k : ℤ)
      → j ≢ k
      → find_entry key k (put_bucket t (hash j) (delete_entry key j (t (hash j))) (hash k))
        ≡ find_entry key k (t (hash k))
  find_entry-delete_bucket hash t j k apart = elim (Bool-cases (hash j == hash k)) [
    | inl same ↦
        let at : hash j ≡ hash k = ground arith in
        rw same (rw (← at) (find_entry-delete_ne k j (t (hash j)) apart))
    | inr other ↦ rw other refl
  ]
