-- ===== src/Driver/RtPoll/Order.antt =====
-- Repeated calls of `rt_poll`, as the RT handler makes them.
use mathlib.Core.Path.{ap₂}
use cros_rt.Base.{
  ℕ, zero, suc, ◌≤◌, ◌<◌, ◌≡◌, ◌≢◌, refl, ap, sym, ◌∙◌, Bool, false, List, [], ◌∷◌, ◌++◌, Option,
  none, some, length, arith, if◌then◌else◌, ltb, Bool-cases, inl, inr, ◌⊎◌, ◌==◌, feed, feed-append,
}
use cros_rt.Driver.SkbQueue.{SkbQueue}
use cros_rt.Driver.Ports.{get_next_highest_priority}
use cros_rt.Driver.Ports.Next.{IsHighest, get_next_highest_priority-IsHighest}
use cros_rt.Driver.RtPoll.{Rt, rt_poll}
use cros_rt.Driver.RtPoll.Laws.{Polled, rt_poll-Polled}

-- The queues `n`, `n - 1`, ..., 1, one after the other.
abbrev pub downward {ℓ} : {A : Type ℓ} → (ℕ → List A) → ℕ → List A
downward q zero = []
downward q (suc n) = q (suc n) ++ downward q n

-- Empty queues at the top do not count.
downward_skip {ℓ} :
    {A : Type ℓ} (q : ℕ → List A) (m n : ℕ)
    → n ≤ m
    → ((i : ℕ) → n < i → i ≤ m → q i ≡ [])
    → downward q m ≡ downward q n
downward_skip q zero n h e = let z : n ≡ 0 = omega arith in rw z refl
downward_skip q (suc m) n h e = elim (Bool-cases (ltb m n)) [
  | inl top ↦ let z : n ≡ suc m = ground arith in rw z refl
  | inr below ↦
      let le : n ≤ m = ground arith in
      rw (e (suc m) (omega arith) (omega arith))
        (downward_skip q m n le (λ i p r. e i p (omega arith)))
]

pub downward-congr {ℓ} :
    {A : Type ℓ} (q r : ℕ → List A) (n : ℕ)
    → ((i : ℕ) → i ≤ n → q i ≡ r i)
    → downward q n ≡ downward r n
downward-congr q r zero e = refl
downward-congr q r (suc n) e =
    ap₂ ◌++◌ (e (suc n) (omega arith)) (downward-congr q r n (λ i p. e i (omega arith)))

downward_one {ℓ} :
    {A : Type ℓ} (q r : ℕ → List A) (m n : ℕ)
    → m ≡ 1
    → n ≡ 1
    → r 1 ≡ []
    → downward q m ≡ q m ++ downward r n
downward_one q r m n em en e = rw (em, en, e) refl

downward_jump {ℓ} :
    {A : Type ℓ} (q r : ℕ → List A) (m n : ℕ)
    → n < m
    → ((i : ℕ) → n < i → i < m → q i ≡ [])
    → ((i : ℕ) → i ≤ n → q i ≡ r i)
    → downward q m ≡ q m ++ downward r n
downward_jump q r zero n h e c = absurd (omega arith)
downward_jump q r (suc m) n h e c =
    ap (◌++◌ (q (suc m)))
      (downward_skip q m n (omega arith) (λ i a b. e i a (omega arith)) ∙ downward-congr q r n c)

module _ {Skb G : Type 0} (api : SkbQueue Skb) (gro_receive : G → Skb → G) where
  open api use {Head, packets}

  -- `n` calls of `rt_poll`, as the loop of `run_rt_handler` makes them.
  unfoldable pub poll_times : ℕ → ℕ → Rt Head G → Option (Rt Head G)
  unfolding rt_poll
  poll_times zero fuel s = some s
  poll_times (suc n) fuel s = elim (rt_poll api gro_receive fuel s) [
    | none ↦ none
    | some (t, ret) ↦ poll_times n fuel t
  ]

  abbrev pub contents : Rt Head G → ℕ → List Skb
  contents s i = packets (s.pq i)

  -- The highest priority is at least 1, and the marks cover the queues with packets below it.
  pub record IsMarked (s : Rt Head G) : Type 0 where
    pub positive : 1 ≤ s.highest_pri
    pub covered : (i : ℕ) → 1 < i → i < s.highest_pri → s.in_use i ≡ false → contents s i ≡ []

  -- What the calls need: marks, and fuel for each queue.
  pub record IsCovered (fuel : ℕ) (s : Rt Head G) : Type 0 where
    pub marked : IsMarked s
    pub enough : (i : ℕ) → length (contents s i) < fuel

  append-eq-nil : (l m : List Skb) → l ++ m ≡ [] → m ≡ []
  append-eq-nil [] m e = e
  append-eq-nil (x ∷ l) m e = cc

  module _ (s t : Rt Head G) (c : IsMarked s) (p : Polled api gro_receive s t) where
    abbrev choice : Bool → ℕ
    choice b = if b then 1 else get_next_highest_priority s.in_use s.highest_pri

    -- The next priority is 1, or below the present one with only empty queues between.
    next_cases :
        ((s.highest_pri ≡ 1) × (t.highest_pri ≡ 1))
        ⊎ ((1 < s.highest_pri) × IsHighest s.in_use s.highest_pri t.highest_pri)
    next_cases = elim (Bool-cases (ltb s.highest_pri 2)) [
      | inl low ↦ inl (ground (arith, c.positive), p.highest ∙ ap choice low)
      | inr high ↦
          let eq : t.highest_pri ≡ choice false = p.highest ∙ ap choice high in
          inr (ground arith, rw eq (get_next_highest_priority-IsHighest _ _ c.positive))
    ]

    contents_kept : (i : ℕ) → s.highest_pri ≢ i → contents t i ≡ contents s i
    contents_kept i n = ap packets (p.others i n)

    next_below :
        1 < s.highest_pri
        → IsHighest s.in_use s.highest_pri t.highest_pri
        → t.highest_pri < s.highest_pri
    next_below high h = omega (arith, h.lower)

    pub downward_step :
        downward (contents s) s.highest_pri
        ≡ contents s s.highest_pri ++ downward (contents t) t.highest_pri
    downward_step = elim next_cases [
      | inl (one, one') ↦
          downward_one (contents s) (contents t) _ _ one one'
            (ap (contents t) (sym one) ∙ p.emptied)
      | inr (high, h) ↦
          downward_jump (contents s) (contents t) _ _ (next_below high h)
            (λ i a b. c.covered i (omega (arith, h.positive)) b (h.skipped i a b))
            (λ i a. sym (contents_kept i (omega (arith, next_below high h))))
    ]

    contents_cases : (i : ℕ) → (contents t i ≡ []) ⊎ (contents t i ≡ contents s i)
    contents_cases i = elim (Bool-cases (s.highest_pri == i)) [
      | inl here ↦
          let at : s.highest_pri ≡ i = ground arith in inl (ap (contents t) (sym at) ∙ p.emptied)
      | inr there ↦ inr (contents_kept i (ground arith))
    ]

    -- The call keeps what later calls need.
    pub IsMarked-step : IsMarked t
    IsMarked-step = record {
      positive = elim next_cases [ inl (one, one') ↦ omega arith | inr (high, h) ↦ h.positive ];
      covered = λ i a b e. elim next_cases [
        | inl (one, one') ↦ absurd (omega arith)
        | inr (high, h) ↦
            contents_kept i (omega (arith, next_below high h))
            ∙ c.covered i a (omega (arith, next_below high h))
                (ap (λ f. f i) (sym p.same_in_use) ∙ e)
      ];
    }

    IsCovered-step : (fuel : ℕ) → ((i : ℕ) → length (contents s i) < fuel) → IsCovered fuel t
    IsCovered-step fuel enough = record {
      marked = IsMarked-step;
      enough = λ i. elim (contents_cases i) [
        | inl none_left ↦ rw none_left (omega (arith, enough i))
        | inr same ↦ rw same (enough i)
      ];
    }

    pub rest_after :
        (n : ℕ)
        → (s.highest_pri ≤ suc n) ⊎ (downward (contents s) s.highest_pri ≡ [])
        → (t.highest_pri ≤ n) ⊎ (downward (contents t) t.highest_pri ≡ [])
    rest_after n (inr nothing) = inr (append-eq-nil _ _ (sym downward_step ∙ nothing))
    rest_after n (inl le) = elim next_cases [
      | inl (one, one') ↦ inr (
          ap (downward (contents t)) one'
          ∙ ap (λ l. l ++ []) (ap (contents t) (sym one) ∙ p.emptied))
      | inr (high, h) ↦ inl (omega (arith, next_below high h))
    ]

  poll_times-feed :
      (n fuel : ℕ) (s : Rt Head G)
      → IsCovered fuel s
      → (s.highest_pri ≤ n) ⊎ (downward (contents s) s.highest_pri ≡ [])
      → (t : Rt Head G) × (poll_times n fuel s ≡ some t)
        × (t.gro ≡ feed gro_receive s.gro (downward (contents s) s.highest_pri))
  unfolding poll_times
  poll_times-feed zero fuel s c (inl le) = absurd (omega (arith, c.marked.positive))
  poll_times-feed zero fuel s c (inr nothing) = (s, refl, rw nothing refl)
  poll_times-feed (suc n) fuel s c d =
      let (t, run, p) = rt_poll-Polled api gro_receive fuel s (c.enough s.highest_pri) in
      let (u, runs, fed) =
        poll_times-feed n fuel t (IsCovered-step s t c.marked p fuel c.enough)
          (rest_after s t c.marked p n d) in
      (
        u,
        rw (run, poll_times) runs,
        fed
            ∙ ap (λ g. feed gro_receive g (downward (contents t) t.highest_pri)) p.fed
            ∙ sym (feed-append gro_receive s.gro (contents s s.highest_pri) _)
            ∙ ap (feed gro_receive s.gro) (sym (downward_step s t c.marked p)),
      )

  -- Packets reach GRO strictly by priority. Where the highest priority is at least 1, every
  -- priority between 1 and it that has packets is marked as in use, and the fuel is more than the
  -- packets of any queue: as many calls of `rt_poll` as the highest priority end, and GRO has
  -- received the packets of the highest priority, then those of the next lower, and so on down to
  -- priority 1, each queue's packets in their order.
  pub poll_times-order :
      (n fuel : ℕ) (s : Rt Head G)
      → IsCovered fuel s
      → s.highest_pri ≤ n
      → (t : Rt Head G) × (poll_times n fuel s ≡ some t)
        × (t.gro ≡ feed gro_receive s.gro (downward (contents s) s.highest_pri))
  poll_times-order n fuel s c le = poll_times-feed n fuel s c (inl le)
