-- ===== src/Base/Options.antt =====
-- Lists seen from their front, and values that a run may fail to give.
use mathlib.Core.Path.{◌≡◌, refl, ap}
use mathlib.Core.Logic.{◌⊎◌, inl, inr}
use mathlib.Core.Bool.{Bool, true, false}
use mathlib.Core.List.{List, [], ◌∷◌, ◌++◌}
use mathlib.Core.Option.{Option, none, some}

module _ {ℓ} {A : Type ℓ} where
  abbrev pub first : List A → Option A
  first [] = none
  first (x ∷ xs) = some x

  abbrev pub rest : List A → List A
  rest [] = []
  rest (x ∷ xs) = xs

  abbrev pub is_nil : List A → Bool
  is_nil [] = true
  is_nil (x ∷ xs) = false

module _ {ℓ} {A : Type ℓ} where
  pub List-cases : (l : List A) → (l ≡ []) ⊎ ((a : A) × (r : List A) × (l ≡ a ∷ r))
  List-cases [] = inl refl
  List-cases (a ∷ r) = inr (a, r, refl)

abbrev pub to_list {ℓ} : {A : Type ℓ} → Option A → List A
to_list none = []
to_list (some a) = a ∷ []

-- Packets given to a receiver one after the other.
abbrev pub feed {ℓ κ} : {G : Type ℓ} {A : Type κ} → (G → A → G) → G → List A → G
feed receive g [] = g
feed receive g (x ∷ l) = feed receive (receive g x) l

pub feed-append {ℓ κ} :
    {G : Type ℓ} {A : Type κ} (receive : G → A → G) (g : G) (l m : List A)
    → feed receive g (l ++ m) ≡ feed receive (feed receive g l) m
feed-append receive g [] m = refl
feed-append receive g (x ∷ l) m = feed-append receive (receive g x) l m

-- `fault` is an access outside an array, or through a null pointer, which C leaves undefined.
pub data Outcome {ℓ} (A : Type ℓ) : Type ℓ where
  done : A → Outcome A
  fault : Outcome A

abbrev done_or {ℓ} : {A : Type ℓ} → A → Outcome A → A
done_or a (done b) = b
done_or a fault = a

pub done-injective {ℓ} : {A : Type ℓ} {a b : A} → done a ≡ done b → a ≡ b
done-injective {a} h = ap (done_or a) h

infixl 5 ◌>>=◌
abbrev pub ◌>>=◌ {ℓ κ} : {A : Type ℓ} {B : Type κ} → Outcome A → (A → Outcome B) → Outcome B
done a >>= f = f a
fault >>= f = fault
