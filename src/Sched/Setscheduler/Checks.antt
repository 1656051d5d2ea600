-- ===== src/Sched/Setscheduler/Checks.antt =====
-- What it means that no test of a list stops the call.
use cros_rt.Base.{
  ◌≢◌, ◌&&◌, ◌≡◌, refl, inl, inr, Bool, true, false, List, [], ◌∷◌, ◌++◌, none, some, arith,
  if◌then◌else◌, Option-cases, Bool-cases, not,
}
use cros_rt.Sched.Task.{Policy, Task}
use cros_rt.Sched.Setscheduler.{
  Test, Ret, success, Answers, Attr, first_error, eq_policy, call_tests, change_tests, changes,
  apply_change, set_resolved, param_tests, later_tests, unprivileged_tests,
}

abbrev pub AllPass : List Test → Type 0
AllPass [] = Unit
AllPass ((hit, e) ∷ l) = (hit ≡ false) × AllPass l

pub first_error-AllPass : (l : List Test) → first_error l ≡ none → AllPass l
unfolding first_error
first_error-AllPass [] h = tt
first_error-AllPass ((true, e) ∷ l) h = cc
first_error-AllPass ((false, e) ∷ l) h = (refl, first_error-AllPass l h)

pub AllPass-left : (l m : List Test) → AllPass (l ++ m) → AllPass l
AllPass-left [] m h = tt
AllPass-left ((hit, e) ∷ l) m h = (h.0, AllPass-left l m h.1)

pub AllPass-right : (l m : List Test) → AllPass (l ++ m) → AllPass m
AllPass-right [] m h = h
AllPass-right ((hit, e) ∷ l) m h = AllPass-right l m h.1

abbrev is_success : Ret → Bool
is_success success = true
is_success _ = false

-- No test of the list returns success.
abbrev AllErrors : List Test → Type 0
AllErrors [] = Unit
AllErrors ((hit, e) ∷ l) = (is_success e ≡ false) × AllErrors l

AllErrors-append : (l m : List Test) → AllErrors l → AllErrors m → AllErrors (l ++ m)
AllErrors-append [] m h k = k
AllErrors-append ((hit, e) ∷ l) m h k = (h.0, AllErrors-append l m h.1 k)

first_error-ne_success :
    (l : List Test) (e : Ret) → AllErrors l → first_error l ≡ some e → e ≢ success
unfolding first_error
first_error-ne_success [] e h s = cc
first_error-ne_success ((true, e') ∷ l) e h s = ground arith
first_error-ne_success ((false, e') ∷ l) e h s = first_error-ne_success l e h.1 s

pub AllPass-if : (b : Bool) (l : List Test) → b ≡ true → AllPass (if b then l else []) → AllPass l
AllPass-if true l e h = h
AllPass-if false l e h = cc

pub eq_policy_eq : (p q : Policy) → eq_policy p q ≡ true → p ≡ q
unfolding eq_policy
eq_policy_eq p q h = ground arith

module _ {D : Type 0} (a : Answers D) (user pi : Bool) where
  -- The three ways a call ends: refused with the task as it was, agreed with nothing but the flag
  -- changed, or agreed with everything changed.
  pub data Ending (policy : Policy) (reset : Bool) (attr : Attr D) (p : Task D)
      : Ret × Task D → Type 0 where
    refused : (e : Ret) → e ≢ success → Ending policy reset attr p (e, p)
    kept :
        AllPass (call_tests a user policy reset attr p)
        → changes a policy attr p ≡ false
        → Ending policy reset attr p (success, record p { sched_reset_on_fork = reset })
    changed :
        AllPass (call_tests a user policy reset attr p)
        → AllPass (change_tests a policy user attr p)
        → Ending policy reset attr p (success, apply_change a pi policy reset attr p)

  call_tests-AllErrors :
      (policy : Policy) (reset : Bool) (attr : Attr D) (p : Task D)
      → AllErrors (call_tests a user policy reset attr p)
  unfolding unprivileged_tests
  call_tests-AllErrors policy reset attr p =
      AllErrors-append (param_tests a policy attr) _ (refl, (refl, (refl, tt)))
        (AllErrors-append _ (later_tests a user attr) (unprivileged (user && not a.capable))
          (refl, (refl, (refl, (refl, tt)))))
    where
      unprivileged :
          (b : Bool) → AllErrors (if b then unprivileged_tests a policy reset attr p else [])
      unprivileged true = (refl, (refl, (refl, (refl, (refl, (refl, (refl, tt)))))))
      unprivileged false = tt

  call_stopped :
      (policy : Policy) (reset : Bool) (attr : Attr D) (p : Task D) (e : Ret)
      → first_error (call_tests a user policy reset attr p) ≡ some e
      → e ≢ success
  call_stopped policy reset attr p e =
      first_error-ne_success (call_tests a user policy reset attr p) e
        (call_tests-AllErrors policy reset attr p)

  change_stopped :
      (policy : Policy) (attr : Attr D) (p : Task D) (e : Ret)
      → first_error (change_tests a policy user attr p) ≡ some e
      → e ≢ success
  change_stopped policy attr p e =
      first_error-ne_success (change_tests a policy user attr p) e (refl, (refl, (refl, tt)))

  pub set_resolved-Ending :
      (policy : Policy) (reset : Bool) (attr : Attr D) (p : Task D)
      → Ending policy reset attr p (set_resolved a user pi policy reset attr p)
  unfolding set_resolved
  set_resolved-Ending policy reset attr p =
      elim (Option-cases (first_error (call_tests a user policy reset attr p))) [
        | inr (e, stop) ↦
            rw (stop, set_resolved) (refused e (call_stopped policy reset attr p e stop))
        | inl pass ↦
            let ok = first_error-AllPass (call_tests a user policy reset attr p) pass in
            elim (Bool-cases (changes a policy attr p)) [
              | inl some_change ↦
                  elim (Option-cases (first_error (change_tests a policy user attr p))) [
                    | inr (e, stop) ↦
                        rw (pass, some_change, stop, set_resolved)
                          (refused e (change_stopped policy attr p e stop))
                    | inl pass' ↦
                        rw (pass, some_change, pass', set_resolved)
                          (changed ok
                            (first_error-AllPass (change_tests a policy user attr p) pass'))
                  ]
              | inr no_change ↦ rw (pass, no_change, set_resolved) (kept ok no_change)
            ]
      ]

pub AllPass-first_error : (l : List Test) → AllPass l → first_error l ≡ none
unfolding first_error
AllPass-first_error [] h = refl
AllPass-first_error ((hit, e) ∷ l) h = rw (h.0, first_error) (AllPass-first_error l h.1)

pub AllPass-append : (l m : List Test) → AllPass l → AllPass m → AllPass (l ++ m)
AllPass-append [] m h k = k
AllPass-append ((hit, e) ∷ l) m h k = (h.0, AllPass-append l m h.1 k)

pub AllPass-unless : (b : Bool) (l : List Test) → b ≡ false → AllPass (if b then l else [])
AllPass-unless true l e = cc
AllPass-unless false l e = tt
