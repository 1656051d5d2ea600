-- ===== src/Driver/Ports/Next.antt =====
-- What `get_next_highest_priority` finds.
use cros_rt.Base.{
  ℕ, zero, suc, ◌-◌, ◌≤◌, ◌<◌, ◌≡◌, ◌⊎◌, Bool, true, false, arith, Bool-cases, inl, inr, refl,
}
use cros_rt.Driver.Ports.{scan_in_use, get_next_highest_priority}

-- The scan stops at the largest index in use, or at 1.
pub record IsHighest (in_use : ℕ → Bool) (below found : ℕ) : Type 0 where
  pub positive : 1 ≤ found
  pub lower : (found < below) ⊎ (found ≡ 1)
  pub used : (in_use found ≡ true) ⊎ (found ≡ 1)
  pub skipped : (i : ℕ) → found < i → i < below → in_use i ≡ false

scan-IsHighest : (in_use : ℕ → Bool) (n : ℕ) → IsHighest in_use (suc n) (scan_in_use in_use n)
unfolding scan_in_use
scan-IsHighest in_use zero = record {
  positive = omega arith;
  lower = inr refl;
  used = inr refl;
  skipped = λ i p q. absurd (omega arith);
}
scan-IsHighest in_use (suc n) = elim (Bool-cases (in_use (suc n))) [
  | inl hit ↦ rw hit (record {
    positive = omega arith;
    lower = inl (omega arith);
    used = inl hit;
    skipped = λ i p q. absurd (omega arith);
  })
  | inr miss ↦ rw miss (step miss (scan-IsHighest in_use n))
]
  where
    step :
        in_use (suc n) ≡ false
        → IsHighest in_use (suc n) (scan_in_use in_use n)
        → IsHighest in_use (suc (suc n)) (scan_in_use in_use n)
    step miss h = record {
      positive = h.positive;
      lower = omega (arith, h.lower);
      used = h.used;
      skipped = λ i p q. ground (arith, h.skipped i);
    }

-- For a current priority of at least 1 the result is the largest index below it that is in use, or
-- 1 if none above 1 is: it is at least 1, lower than the current one or 1, in use or 1, and no
-- index strictly between the result and the current priority is in use.
pub get_next_highest_priority-IsHighest :
    (in_use : ℕ → Bool) (current : ℕ)
    → 1 ≤ current
    → IsHighest in_use current (get_next_highest_priority in_use current)
unfolding get_next_highest_priority
get_next_highest_priority-IsHighest in_use zero h = absurd (omega arith)
get_next_highest_priority-IsHighest in_use (suc n) h =
    let e : suc n - 1 ≡ n = omega arith in rw e (scan-IsHighest in_use n)
