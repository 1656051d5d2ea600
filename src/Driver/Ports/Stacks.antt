-- ===== src/Driver/Ports/Stacks.antt =====
-- The port table read as what its users see: for each port the priorities that were set for it and
-- not yet removed, newest first.
use mathlib.Core.Path.{fun_ext}
use cros_rt.Base.{
  ℕ, ◌≡◌, ◌≢◌, refl, sym, ap, ◌∙◌, inl, inr, true, List, [], ◌∷◌, not, is_nil, rest, Option, none,
  some, arith, ◌==◌, if◌then◌else◌, Bool-cases,
}
use cros_rt.Base.Int.{ℤ, pos, eqb_ℤ, eqb_ℤ_iff}
use cros_rt.Buckets.{Table, put_bucket, find_entry, delete_entry, has_entry}
use cros_rt.Driver.Ports.{PortPriority, port_of}

-- The priorities of a port in a bucket.
unfoldable pub priorities_in : ℤ → List PortPriority → List ℤ
priorities_in q [] = []
priorities_in q (e ∷ l) =
    if eqb_ℤ e.port q then e.priority ∷ priorities_in q l else priorities_in q l

-- The newest priority, 0 if there is none.
abbrev pub newest : List ℤ → ℤ
newest [] = pos 0
newest (p ∷ l) = p

pub has_entry-priorities :
    (q : ℤ) (l : List PortPriority) → has_entry port_of q l ≡ not (is_nil (priorities_in q l))
unfolding has_entry priorities_in
has_entry-priorities q [] = refl
has_entry-priorities q (e ∷ l) = ground (arith, has_entry-priorities q l)

abbrev pub priority_or_zero : Option PortPriority → ℤ
priority_or_zero none = pos 0
priority_or_zero (some e) = e.priority

pub find_entry-priorities :
    (q : ℤ) (l : List PortPriority)
    → priority_or_zero (find_entry port_of q l) ≡ newest (priorities_in q l)
unfolding find_entry priorities_in
find_entry-priorities q [] = refl
find_entry-priorities q (e ∷ l) = elim (Bool-cases (eqb_ℤ e.port q)) [
  | inl hit ↦ rw hit refl
  | inr miss ↦ rw miss (find_entry-priorities q l)
]

pub priorities_in-delete :
    (q : ℤ) (l : List PortPriority)
    → priorities_in q (delete_entry port_of q l) ≡ rest (priorities_in q l)
unfolding delete_entry priorities_in
priorities_in-delete q [] = refl
priorities_in-delete q (e ∷ l) = elim (Bool-cases (eqb_ℤ e.port q)) [
  | inl hit ↦ rw hit refl
  | inr miss ↦ rw miss (rw miss (priorities_in-delete q l))
]

pub priorities_in-delete_ne :
    (j q : ℤ) (l : List PortPriority)
    → j ≢ q
    → priorities_in q (delete_entry port_of j l) ≡ priorities_in q l
unfolding delete_entry priorities_in
priorities_in-delete_ne j q [] h = refl
priorities_in-delete_ne j q (e ∷ l) h =
    ground (arith, priorities_in-delete_ne j q l h, eqb_ℤ_iff e.port j, eqb_ℤ_iff e.port q)

module _ (hash : ℤ → ℕ) where
  -- The priorities of each port, newest first.
  abbrev pub stacks_of : Table PortPriority → ℤ → List ℤ
  stacks_of t q = priorities_in q (t (hash q))

  -- A bucket that is replaced matters only to the ports that hash to it.
  pub stacks_of-put :
      (t : Table PortPriority) (port q : ℤ) (l : List PortPriority) (k : List ℤ)
      → (port ≡ q → priorities_in q l ≡ k)
      → (port ≢ q → priorities_in q l ≡ priorities_in q (t (hash port)))
      → stacks_of (put_bucket t (hash port) l) q ≡ (if eqb_ℤ port q then k else stacks_of t q)
  stacks_of-put t port q l k same other = elim (Bool-cases (eqb_ℤ port q)) [
    | inl hit ↦
        let e : port ≡ q = (eqb_ℤ_iff port q).0 hit in
        let here : (hash port == hash q) ≡ true = let at = ap hash e in ground arith in
        rw (hit, here) (same e)
    | inr miss ↦
        let apart : port ≢ q = λ e. ground (arith, eqb_ℤ_iff port q) in
        elim (Bool-cases (hash port == hash q)) [
          | inl shared ↦
              let at : hash port ≡ hash q = ground arith in
              rw (miss, shared) (other apart ∙ ap (λ b. priorities_in q (t b)) at)
          | inr there ↦ rw (miss, there) refl
        ]
  ]

  pub stacks_of-set :
      (t : Table PortPriority) (port priority : ℤ)
      → stacks_of
          (put_bucket t (hash port) (record { port = port; priority = priority } ∷ t (hash port)))
        ≡ (λ q. if eqb_ℤ port q then priority ∷ stacks_of t port else stacks_of t q)
  unfolding priorities_in
  stacks_of-set t port priority = fun_ext λ q.
      stacks_of-put t port q _ _
        (λ e.
          let hit = (eqb_ℤ_iff port q).1 e in
          rw hit (ap (λ r. priority ∷ priorities_in r (t (hash port))) (sym e)))
        (λ apart. ground (arith, eqb_ℤ_iff port q))

  pub stacks_of-delete :
      (t : Table PortPriority) (port : ℤ)
      → stacks_of (put_bucket t (hash port) (delete_entry port_of port (t (hash port))))
        ≡ (λ q. if eqb_ℤ port q then rest (stacks_of t port) else stacks_of t q)
  stacks_of-delete t port = fun_ext λ q.
      stacks_of-put t port q _ _
        (λ e.
          ap (λ r. priorities_in r (delete_entry port_of port (t (hash port)))) (sym e)
          ∙ priorities_in-delete port (t (hash port)))
        (λ apart. priorities_in-delete_ne port q (t (hash port)) apart)
