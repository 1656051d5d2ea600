-- ===== src/Driver/RtPoll/Laws.antt =====
-- What one call of `rt_poll` does.
use mathlib.Core.Path.{ap₂}
use cros_rt.Base.{
  ℕ, ◌<◌, ◌≡◌, ◌≢◌, refl, ap, sym, ◌∙◌, Bool, [], some, is_nil, length, if◌then◌else◌, ltb, feed,
}
use cros_rt.Driver.SkbQueue.{SkbQueue}
use cros_rt.Driver.Ports.{get_next_highest_priority}
use cros_rt.Driver.Pq.Laws.{remove-Removed, empty-packets}
use cros_rt.Driver.RtPoll.{Rt, take_highest, lower_highest, rt_poll}
use cros_rt.Driver.RtPoll.Drain.{queued, loop-Drained}

-- The next priority after `h`.
abbrev pub next_of : (ℕ → Bool) → ℕ → ℕ
next_of in_use h = if ltb h 2 then 1 else get_next_highest_priority in_use h

module _ {Skb G : Type 0} (api : SkbQueue Skb) (gro_receive : G → Skb → G) where
  open api use {Head, packets}

  abbrev pub next_highest : Rt Head G → ℕ
  next_highest s = next_of s.in_use s.highest_pri

  -- From `s` the call goes to `t`: GRO has the packets of the highest priority in order, that
  -- queue is empty, the other queues and the marks are as they were, and the highest priority is
  -- the next.
  pub record Polled (s t : Rt Head G) : Type 0 where
    pub fed : t.gro ≡ feed gro_receive s.gro (queued api gro_receive s)
    pub emptied : packets (t.pq s.highest_pri) ≡ []
    pub highest : t.highest_pri ≡ next_highest s
    pub same_in_use : t.in_use ≡ s.in_use
    pub others : (i : ℕ) → s.highest_pri ≢ i → t.pq i ≡ s.pq i

  lower_emptied :
      (s : Rt Head G)
      → queued api gro_receive s ≡ []
      → lower_highest api gro_receive s ≡ record s { highest_pri = next_highest s }
  unfolding lower_highest
  lower_emptied s e = rw (empty-packets api s.pq s.highest_pri, e) refl

  -- With more fuel than packets of the highest priority, the call ends; it returns 1 if there was
  -- such a packet and 0 otherwise, and does what `Polled` says.
  pub rt_poll-Polled :
      (fuel : ℕ) (s : Rt Head G)
      → length (queued api gro_receive s) < fuel
      → (t : Rt Head G) × (rt_poll api gro_receive fuel s
          ≡ some (t, (if is_nil (queued api gro_receive s) then 0 else 1)))
        × Polled s t
  unfolding rt_poll
  rt_poll-Polled fuel s h =
      let r = remove-Removed api s.pq s.highest_pri in
      let u : Rt Head G = (take_highest api gro_receive s).1 in
      let (t, run, d) =
        loop-Drained api gro_receive fuel _ 0 u (queued api gro_receive s) r.result r.left h in
      (
        lower_highest api gro_receive t,
        rw (run, rt_poll) refl,
        rw (lower_emptied t d.emptied) (record {
          fed = d.fed;
          emptied = ap (λ i. packets (t.pq i)) (sym d.same_highest) ∙ d.emptied;
          highest = ap₂ next_of d.same_in_use d.same_highest;
          same_in_use = d.same_in_use;
          others = λ i n. d.others i n ∙ r.others i n;
        }),
      )
