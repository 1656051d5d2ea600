-- ===== src/Driver/RtPoll/Drain.antt =====
-- The loop of `rt_poll`.
use cros_rt.Base.{
  ℕ, zero, suc, ◌<◌, ◌≡◌, ◌≢◌, refl, ap, ◌∙◌, List, [], ◌∷◌, Option, none, some, first, rest,
  is_nil, length, arith, if◌then◌else◌, if_same, feed,
}
use cros_rt.Driver.SkbQueue.{SkbQueue}
use cros_rt.Driver.Pq.Laws.{remove-Removed}
use cros_rt.Driver.RtPoll.{Rt, take_highest, deliver_loop}

module _ {Skb G : Type 0} (api : SkbQueue Skb) (gro_receive : G → Skb → G) where
  open api use {Head, packets, skb_dequeue}

  abbrev pub queued : Rt Head G → List Skb
  queued s = packets (s.pq s.highest_pri)

  -- What the loop does to the packets `l` of the highest priority: GRO has them in order, their
  -- queue is empty, and the rest of the state is as it was.
  pub record Drained (s t : Rt Head G) (l : List Skb) : Type 0 where
    pub fed : t.gro ≡ feed gro_receive s.gro l
    pub emptied : queued t ≡ []
    pub same_highest : t.highest_pri ≡ s.highest_pri
    pub same_in_use : t.in_use ≡ s.in_use
    pub others : (i : ℕ) → s.highest_pri ≢ i → t.pq i ≡ s.pq i

  pub loop-Drained :
      (fuel : ℕ) (tmp_skb : Option Skb) (ret : ℕ) (s : Rt Head G) (l : List Skb)
      → tmp_skb ≡ first l
      → queued s ≡ rest l
      → length l < fuel
      → (t : Rt Head G) × (deliver_loop api gro_receive fuel tmp_skb ret s
          ≡ some (t, (if is_nil l then ret else 1)))
        × Drained s t l
  unfolding deliver_loop
  loop-Drained zero tmp_skb ret s l e q h = absurd (omega arith)
  loop-Drained (suc fuel) none ret s [] e q h = (
    s,
    refl,
    record {
      fed = refl;
      emptied = q;
      same_highest = refl;
      same_in_use = refl;
      others = λ i n. refl;
    },
  )
  loop-Drained (suc fuel) none ret s (x ∷ l) e q h = cc
  loop-Drained (suc fuel) (some y) ret s [] e q h = cc
  loop-Drained (suc fuel) (some y) ret s (x ∷ l) e q h =
      let same : y ≡ x = ground arith in
      let r = remove-Removed api s.pq s.highest_pri in
      let u : Rt Head G =
        (take_highest api gro_receive (record s { gro = gro_receive s.gro y })).1 in
      let (t, run, d) =
        loop-Drained fuel _ 1 u l (r.result ∙ ap first q) (r.left ∙ ap rest q) (omega arith) in
      (
        t,
        run ∙ ap (λ n. some (t, n)) (if_same (is_nil l) 1),
        record {
          fed = d.fed ∙ ap (λ z. feed gro_receive (gro_receive s.gro z) l) same;
          emptied = d.emptied;
          same_highest = d.same_highest;
          same_in_use = d.same_in_use;
          others = λ i n. d.others i n ∙ r.others i n;
        },
      )
