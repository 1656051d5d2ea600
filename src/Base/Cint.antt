-- ===== src/Base/Cint.antt =====
-- The C type `int` as an integer: overflow is undefined, and division drops the fraction.
use cros_rt.Base.Tests.{leb, if◌then◌else◌}
use cros_rt.Base.Options.{Outcome, done, fault}
use cros_rt.Base.Int.{ℤ, pos, negsuc, ◌*ℤ◌, ◌-ℤ◌, sub_ℕ}
use Prim.Native.Nat.{ℕ, suc, ◌-◌, ◌*◌, ◌/◌, ◌^◌, ◌≤◌}
use mathlib.Core.Path.{◌≡◌}
use native.Mathlib.Omega.{arith}
use mathlib.Core.Bool.{Bool}

abbrev pub fits_int : ℤ → Bool
fits_int (pos n) = leb n (2 ^ 31 - 1)
fits_int (negsuc n) = leb n (2 ^ 31 - 1)

-- a * b
unfoldable pub mul_int : ℤ → ℤ → Outcome ℤ
unfolding ◌*ℤ◌
mul_int a b = if fits_int (a *ℤ b) then done (a *ℤ b) else fault

-- a / d for a positive constant d
abbrev pub quot_int : ℤ → ℕ → ℤ
quot_int (pos n) d = pos (n / d)
quot_int (negsuc n) d = sub_ℕ 0 (suc n / d)

*ℤ-pos : (a b : ℕ) → pos a *ℤ pos b ≡ pos (a * b)
unfolding ◌*ℤ◌
*ℤ-pos a b = ground arith

pub mul_int-pos : (a b : ℕ) → a * b ≤ 2 ^ 31 - 1 → mul_int (pos a) (pos b) ≡ done (pos (a * b))
unfolding mul_int
mul_int-pos a b h = rw (*ℤ-pos a b) (ground arith)

pub -ℤ-pos : (a b : ℕ) → b ≤ a → pos a -ℤ pos b ≡ pos (a - b)
unfolding ◌-ℤ◌
-ℤ-pos a b h = ground arith
