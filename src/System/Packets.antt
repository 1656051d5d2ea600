-- ===== src/System/Packets.antt =====
-- Packets counted once each, wherever they wait: permutations of what the queues hold.
use mathlib.Core.List.{Perm, perm_middle}
use mathlib.Core.List.Perm
use cros_rt.Base.{
  ℕ, zero, suc, ◌≤◌, ◌≡◌, ◌≢◌, sym, ap, ◌∙◌, subst, inl, inr, Bool, not, List, [], ◌∷◌, ◌++◌,
  append-nil, append_assoc, ◌==◌, Bool-cases, arith,
}
use cros_rt.Driver.Rx.Selector.{keep}
use cros_rt.Driver.RtPoll.Order.{downward, downward-congr}

module _ {A : Type 0} where
  pub Perm_of_eq : {l m : List A} → l ≡ m → Perm l m
  Perm_of_eq {l} e = subst (Perm l) e (Perm.refl l)

  -- The front two of three lists change places.
  pub swap_front : (k l m : List A) → Perm (k ++ (l ++ m)) (l ++ (k ++ m))
  swap_front k l m =
      Perm.trans (Perm_of_eq (sym (append_assoc k l m)))
        (Perm.trans (Perm.append_right m (append_comm k l)) (Perm_of_eq (append_assoc l k m)))
    where
      append_comm : (k l : List A) → Perm (k ++ l) (l ++ k)
      append_comm [] l = Perm_of_eq (sym (append-nil l))
      append_comm (x ∷ k) l =
          Perm.trans (Perm.cons x (append_comm k l)) (Perm.symm (perm_middle l k))

  -- A test splits a list.
  pub keep-Perm :
      (test : A → Bool) (l : List A) → Perm (keep (λ x. not (test x)) l ++ keep test l) l
  keep-Perm test [] = Perm.refl []
  keep-Perm test (x ∷ l) = elim (Bool-cases (test x)) [
    | inl yes_x ↦ rw yes_x (
        Perm.trans (perm_middle (keep (λ y. not (test y)) l) (keep test l))
          (Perm.cons x (keep-Perm test l)))
    | inr no_x ↦ rw no_x (Perm.cons x (keep-Perm test l))
  ]

  -- Taking out one of the queues.
  pub downward-Perm :
      (q r : ℕ → List A) (h n : ℕ)
      → 1 ≤ h
      → h ≤ n
      → r h ≡ []
      → ((i : ℕ) → h ≢ i → r i ≡ q i)
      → Perm (q h ++ downward r n) (downward q n)
  downward-Perm q r h zero lo hi e others = absurd (omega arith)
  downward-Perm q r h (suc n) lo hi e others = elim (Bool-cases (h == suc n)) [
    | inl here ↦
        let at : h ≡ suc n = ground arith in
        Perm_of_eq (
          ap (λ k. k ++ (r (suc n) ++ downward r n)) (ap q at)
          ∙ ap (λ k. q (suc n) ++ (k ++ downward r n)) (sym (ap r at) ∙ e)
          ∙ ap (λ k. q (suc n) ++ k)
              (downward-congr r q n (λ i below. others i (λ same. omega (arith, at, below, same)))))
    | inr lower ↦
        Perm.trans
          (Perm_of_eq (ap (λ k. q h ++ (k ++ downward r n)) (others (suc n) (ground arith))))
          (Perm.trans (swap_front (q h) (q (suc n)) (downward r n))
            (Perm.append_left (q (suc n)) (downward-Perm q r h n lo (ground arith) e others)))
  ]

  -- Two stretches of a run, one after the other: what is given and what waits against what comes.
  pub runs-Perm :
      (given given' waits waits' before come come' : List A)
      → Perm (given ++ waits) (come ++ before)
      → Perm (given' ++ waits') (come' ++ waits)
      → Perm ((given ++ given') ++ waits') ((come ++ come') ++ before)
  runs-Perm given given' waits waits' before come come' p q =
      Perm.trans (Perm_of_eq (append_assoc given given' waits')) (
        Perm.trans (Perm.append_left given q) (
          Perm.trans (swap_front given come' waits) (
            Perm.trans (Perm.append_left come' p) (
              Perm.trans (swap_front come' come before)
                (Perm_of_eq (sym (append_assoc come come' before)))))))

  -- Packets split in two, of which one part joins what waits.
  pub split-Perm :
      (given queued come waits later : List A)
      → Perm (given ++ queued) come
      → Perm (given ++ ((waits ++ queued) ++ later)) (come ++ (waits ++ later))
  split-Perm given queued come waits later p =
      Perm.trans (Perm_of_eq (ap (◌++◌ given) (append_assoc waits queued later))) (
        Perm.trans (Perm.append_left given (swap_front waits queued later)) (
          Perm.trans (Perm_of_eq (sym (append_assoc given queued (waits ++ later))))
            (Perm.append_right (waits ++ later) p)))
