-- ===== src/Net/RxAction/Laws.antt =====
-- The order in which `net_rx_action` polls, and what goes back to the list.
use cros_rt.Base.{
  ◌⊎◌, subst, true_ne_false, ℕ, suc, ◌+◌, ◌≡◌, refl, ap, sym, ◌∙◌, inl, inr, Bool, true, false, not,
  ◌||◌, ◌&&◌, List, [], ◌∷◌, ◌++◌, append-nil, append_assoc, if◌then◌else◌, is_nil, Bool-cases,
}
use cros_rt.Base.Int.{ℤ, pos, ltb_ℤ, ◌-ℤ◌}
use cros_rt.Net.RxAction.{Softnet, put_back, rx_loop, net_rx_action}

is_nil_eq : (l : List ℕ) → is_nil l ≡ true → l ≡ []
is_nil_eq [] h = refl
is_nil_eq (x ∷ l) h = absurd (true_ne_false (sym h))

is_nil-between : (a b c : List ℕ) → is_nil (a ++ c) ≡ false → is_nil (a ++ b ++ c) ≡ false
is_nil-between [] [] c h = h
is_nil-between [] (y ∷ b) c h = refl
is_nil-between (x ∷ a) b c h = refl

and_right : (a b : Bool) → a && b ≡ true → b ≡ true
and_right true b h = h
and_right false b h = absurd (true_ne_false (sym h))

abbrev repoll_with : Bool → ℕ → List ℕ → List ℕ
repoll_with again n repoll = if again then repoll ++ n ∷ [] else repoll

repoll_with-append :
    (again : Bool) (n : ℕ) (repoll l : List ℕ)
    → repoll_with again n repoll ++ l ≡ repoll ++ (if again then n ∷ l else l)
repoll_with-append true n repoll l = append_assoc repoll (n ∷ []) l
repoll_with-append false n repoll l = refl

module _ {E : Type 0} (napi_poll : ℕ → Softnet E → ℕ × Bool × Softnet E) where
  -- Polling the instances of a list one after the other: those to poll again, in order, and the
  -- CPU.
  unfoldable pub poll_all : List ℕ → Softnet E → List ℕ × Softnet E
  poll_all [] sd = ([], sd)
  poll_all (n ∷ list) sd =
      let (work, again, t) = napi_poll n sd in
      let (others, u) = poll_all list t in ((if again then n ∷ others else others), u)

  -- What is left of the budget after them.
  abbrev pub budget_after : List ℕ → ℤ → Softnet E → ℤ
  budget_after [] budget sd = budget
  budget_after (n ∷ list) budget sd =
      budget_after list (budget -ℤ pos (napi_poll n sd).0) (napi_poll n sd).2

  module _ (late : ℕ → Bool) where
    -- Whether the time is used up after the last poll, if the first has number `nr`.
    abbrev pub ends_late : List ℕ → ℕ → Bool
    ends_late [] nr = false
    ends_late (n ∷ []) nr = late nr
    ends_late (n ∷ m ∷ list) nr = ends_late (m ∷ list) (suc nr)

    -- From `list` the first ones are polled, in order, and the rest is left: the CPU's list then
    -- has the rest first, then what was put on it meanwhile, then `repoll` and those to poll
    -- again. NET_RX is pending if any is left or to be polled again.
    pub record IsRun (polled left list repoll : List ℕ) (sd u : Softnet E) : Type 0 where
      pub split : list ≡ polled ++ left
      pub queue :
          u.poll_list
          ≡ left ++ (poll_all polled sd).1.poll_list ++ (repoll ++ (poll_all polled sd).0)
      pub pending :
          is_nil (left ++ (repoll ++ (poll_all polled sd).0)) ≡ false → u.net_rx_pending ≡ true
      pub env : u.env ≡ (poll_all polled sd).1.env

    -- Nothing is polled, and all goes back.
    stopped-IsRun :
        (list repoll : List ℕ) (sd : Softnet E) (squeeze : ℕ)
        → IsRun [] list list repoll sd (put_back list repoll (record sd { time_squeeze = squeeze }))
    unfolding put_back poll_all
    stopped-IsRun list repoll sd squeeze = record {
      split = refl;
      queue = ap (λ l. list ++ sd.poll_list ++ l) (sym (append-nil repoll));
      pending = λ h.
          let more = is_nil-between list sd.poll_list (repoll ++ []) h in
          let e = append-nil repoll in
          rw (subst (λ l. is_nil (list ++ sd.poll_list ++ l) ≡ false) e more, put_back) refl;
      env = refl;
    }

    -- One more poll before a run.
    poll-IsRun :
        (n : ℕ) (polled left list repoll : List ℕ) (sd u : Softnet E)
        → IsRun polled left list (repoll_with (napi_poll n sd).1 n repoll) (napi_poll n sd).2 u
        → IsRun (n ∷ polled) left (n ∷ list) repoll sd u
    unfolding poll_all
    poll-IsRun n polled left list repoll sd u r =
        let e =
          repoll_with-append (napi_poll n sd).1 n repoll (poll_all polled (napi_poll n sd).2).0 in
        record {
          split = ap (λ l. n ∷ l) r.split;
          queue =
              r.queue ∙ ap (λ l. left ++ (poll_all polled (napi_poll n sd).2).1.poll_list ++ l) e;
          pending = λ h. r.pending (ap (λ l. is_nil (left ++ l)) e ∙ h);
          env = r.env;
        }

    -- Why a run ends where it does: nothing is left, or after the polled ones the budget is used
    -- up, or the time is.
    abbrev pub HasEnded : (polled left : List ℕ) → ℕ → ℤ → Softnet E → Type 0
    HasEnded polled left nr budget sd =
        (left ≡ [])
        ⊎ ((ltb_ℤ (budget_after polled budget sd) (pos 1) ≡ true) ⊎ (ends_late polled nr ≡ true))

    -- After none of the polled ones but the last is the budget used up, or the time.
    abbrev pub GoesOn : (polled : List ℕ) → ℕ → ℤ → Softnet E → Type 0
    GoesOn [] nr budget sd = Unit
    GoesOn (n ∷ []) nr budget sd = Unit
    GoesOn (n ∷ m ∷ polled) nr budget sd =
        (ltb_ℤ (budget -ℤ pos (napi_poll n sd).0) (pos 1) ≡ false)
        × (late nr ≡ false)
        × GoesOn (m ∷ polled) (suc nr) (budget -ℤ pos (napi_poll n sd).0) (napi_poll n sd).2

    or_neither : (x y : Bool) → x || y ≡ false → (x ≡ false) × (y ≡ false)
    or_neither true y h = absurd (true_ne_false h)
    or_neither false y h = (refl, h)

    later_GoesOn :
        (n : ℕ) (polled : List ℕ) (nr : ℕ) (budget : ℤ) (sd : Softnet E)
        → ltb_ℤ (budget -ℤ pos (napi_poll n sd).0) (pos 1) || late nr ≡ false
        → GoesOn polled (suc nr) (budget -ℤ pos (napi_poll n sd).0) (napi_poll n sd).2
        → GoesOn (n ∷ polled) nr budget sd
    later_GoesOn n [] nr budget sd on g = tt
    later_GoesOn n (m ∷ polled) nr budget sd on g =
        let (some_left, early) = or_neither _ _ on in (some_left, early, g)

    or_cases : (x y : Bool) → x || y ≡ true → (x ≡ true) ⊎ (y ≡ true)
    or_cases true y h = inl refl
    or_cases false y h = inr h

    later_HasEnded :
        (n : ℕ) (polled left : List ℕ) (nr : ℕ) (budget : ℤ) (sd : Softnet E)
        → HasEnded polled left (suc nr) (budget -ℤ pos (napi_poll n sd).0) (napi_poll n sd).2
        → HasEnded (n ∷ polled) left nr budget sd
    later_HasEnded n polled left nr budget sd (inl e) = inl e
    later_HasEnded n polled left nr budget sd (inr (inl e)) = inr (inl e)
    later_HasEnded n [] left nr budget sd (inr (inr e)) = absurd (true_ne_false (sym e))
    later_HasEnded n (m ∷ polled) left nr budget sd (inr (inr e)) = inr (inr e)

    rx_loop-IsRun :
        (list repoll : List ℕ) (nr : ℕ) (budget : ℤ) (sd : Softnet E)
        → (polled left : List ℕ) × IsRun polled left list repoll sd
            (rx_loop napi_poll late list repoll nr budget sd)
          × HasEnded polled left nr budget sd
          × GoesOn polled nr budget sd
    unfolding rx_loop poll_all
    rx_loop-IsRun [] repoll nr budget sd =
        elim (Bool-cases (not sd.rps_ipi_waiting && is_nil repoll)) [
          | inl quick ↦
              let e : repoll ≡ [] = is_nil_eq repoll (and_right _ _ quick) in
              rw (quick, rx_loop)
                (
                  [],
                  [],
                  record {
                    split = refl;
                    queue = rw e (sym (append-nil sd.poll_list));
                    pending = λ h. absurd (true_ne_false (rw⁻¹ h (rw e refl)));
                    env = refl;
                  },
                  inl refl,
                  tt,
                )
          | inr more ↦
              rw (more, rx_loop) ([], [], stopped-IsRun [] repoll sd sd.time_squeeze, inl refl, tt)
        ]
    rx_loop-IsRun (n ∷ list) repoll nr budget sd =
        let (work, again, t) = napi_poll n sd in
        let repoll_after = repoll_with again n repoll in
        elim (Bool-cases (ltb_ℤ (budget -ℤ pos work) (pos 1) || late nr)) [
          | inl now ↦
              rw (now, rx_loop)
                (
                  n ∷ [],
                  list,
                  poll-IsRun n [] list list repoll sd _
                      (stopped-IsRun list repoll_after t (t.time_squeeze + 1)),
                  inr (or_cases _ _ now),
                  tt,
                )
          | inr on ↦
              let (polled, left, r, why, goes) =
                rx_loop-IsRun list repoll_after (suc nr) (budget -ℤ pos work) t in
              rw (on, rx_loop)
                (
                  n ∷ polled,
                  left,
                  poll-IsRun n polled left list repoll sd _ r,
                  later_HasEnded n polled left nr budget sd why,
                  later_GoesOn n polled nr budget sd on goes,
                )
        ]

    -- The instances that are on the CPU's list are polled in order, up to the end of the list or
    -- to the first after whose poll the budget or the time is used up; those left over come first
    -- in the list afterwards, in order, then the ones put on it meanwhile, then those whose poll
    -- asks for another; NET_RX is pending if there is one left over or to be polled again.
    pub net_rx_action-IsRun :
        (netdev_budget : ℤ) (sd : Softnet E)
        → (polled left : List ℕ) × IsRun polled left sd.poll_list []
            (record sd { poll_list = [] })
            (net_rx_action napi_poll late netdev_budget sd)
          × HasEnded polled left 0 netdev_budget (record sd { poll_list = [] })
          × GoesOn polled 0 netdev_budget (record sd { poll_list = [] })
    unfolding net_rx_action
    net_rx_action-IsRun netdev_budget sd =
        rx_loop-IsRun sd.poll_list [] 0 netdev_budget (record sd { poll_list = [] })
