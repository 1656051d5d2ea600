-- ===== src/Driver/NonRt/Laws.antt =====
-- Which packets the non-RT handlers serve.
use cros_rt.Base.{
  ℕ, zero, suc, ◌<◌, ◌≡◌, refl, ap, ◌∙◌, List, [], ◌∷◌, Option, none, some, first, rest, length,
  take, drop, feed, if◌then◌else◌, arith, done, ◌>>=◌,
}
use cros_rt.Base.Int.{ℤ, ltb_ℤ, ◌-ℤ◌, pos_part}
use cros_rt.Base.Cint.{quot_int}
use cros_rt.Driver.SkbQueue.{SkbQueue}
use cros_rt.Driver.NonRt.{
  NonRt, take_non_rt, give, background_loop, non_rt_poll, budget_loop, process_ms, non_rt_pl_poll,
}

module _ {Skb G : Type 0} (api : SkbQueue Skb) (gro_receive : G → Skb → G) where
  open api use {Head, packets}

  abbrev pub waiting : NonRt Head G → List Skb
  waiting s = packets s.non_rt

  background_loop-all :
      (fuel : ℕ) (tmp_skb : Option Skb) (s : NonRt Head G) (l : List Skb)
      → tmp_skb ≡ first l
      → waiting s ≡ rest l
      → length l < fuel
      → (t : NonRt Head G) × (background_loop api gro_receive fuel tmp_skb s ≡ some t)
        × (t.gro ≡ feed gro_receive s.gro l)
        × (waiting t ≡ [])
  unfolding background_loop
  background_loop-all zero tmp_skb s l e q h = absurd (omega arith)
  background_loop-all (suc fuel) none s [] e q h = (s, refl, refl, q)
  background_loop-all (suc fuel) none s (x ∷ l) e q h = cc
  background_loop-all (suc fuel) (some y) s [] e q h = cc
  background_loop-all (suc fuel) (some y) s (x ∷ l) e q h =
      let same : y ≡ x = ground arith in
      let u : NonRt Head G = (take_non_rt api gro_receive (give api gro_receive s y)).1 in
      let (t, run, fed, emptied) =
        background_loop-all fuel _ u l (api.dequeue_result s.non_rt ∙ ap first q)
          (api.dequeue_packets s.non_rt ∙ ap rest q) (omega arith) in
      (t, run, fed ∙ ap (λ z. feed gro_receive (gro_receive s.gro z) l) same, emptied)

  -- With more fuel than packets waiting, the background server ends: GRO has received every waiting
  -- packet, oldest first, and none waits any more.
  pub non_rt_poll-all :
      (fuel : ℕ) (s : NonRt Head G)
      → length (waiting s) < fuel
      → (t : NonRt Head G) × (non_rt_poll api gro_receive fuel s ≡ some t)
        × (t.gro ≡ feed gro_receive s.gro (waiting s))
        × (waiting t ≡ [])
  unfolding non_rt_poll
  non_rt_poll-all fuel s h =
      background_loop-all fuel _ _ (waiting s) (api.dequeue_result s.non_rt)
        (api.dequeue_packets s.non_rt) h

  budget_loop-take :
      (n : ℕ) (s : NonRt Head G) (l : List Skb)
      → waiting s ≡ l
      → ((budget_loop api gro_receive n s).gro ≡ feed gro_receive s.gro (take n l))
        × (waiting (budget_loop api gro_receive n s) ≡ drop n l)
  unfolding budget_loop
  budget_loop-take zero s l e = (refl, e)
  budget_loop-take (suc n) s [] e =
      rw (api.dequeue_result s.non_rt ∙ ap first e, budget_loop)
        (refl, api.dequeue_packets s.non_rt ∙ ap rest e)
  budget_loop-take (suc n) s (x ∷ l) e =
      rw (api.dequeue_result s.non_rt ∙ ap first e, budget_loop)
        (budget_loop-take n _ l (api.dequeue_packets s.non_rt ∙ ap rest e))

  -- Where the server's share of the period is computed without overflow, the polling server ends:
  -- GRO has received as many of the waiting packets as half the milliseconds of that share, oldest
  -- first, or all if fewer wait; the others still wait, in their order; and the server waits for
  -- the rest of its share exactly if less than the share has elapsed.
  pub non_rt_pl_poll-served :
      (period util elapsed_ms ms : ℤ) (s : NonRt Head G)
      → process_ms period util ≡ done ms
      → let n = pos_part (quot_int ms 2) in
        (t : NonRt Head G) × (delay : Option ℤ) × (non_rt_pl_poll api gro_receive period util
            elapsed_ms s
          ≡ done (t, delay))
        × (t.gro ≡ feed gro_receive s.gro (take n (waiting s)))
        × (waiting t ≡ drop n (waiting s))
        × (delay ≡ (if ltb_ℤ elapsed_ms ms then some (ms -ℤ elapsed_ms) else none))
  unfolding non_rt_pl_poll
  non_rt_pl_poll-served period util elapsed_ms ms s e =
      let n : ℕ = pos_part (quot_int ms 2) in
      let (fed, kept) = budget_loop-take n s (waiting s) refl in
      (budget_loop api gro_receive n s, _, rw (e, ◌>>=◌) refl, fed, kept, refl)
