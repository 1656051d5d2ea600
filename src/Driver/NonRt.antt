-- ===== src/Driver/NonRt.antt =====
-- The non-RT handlers' part of the driver, `non_rt_poll` and `non_rt_pl_poll` of r8169_main.c. Both
-- run with interrupts off on the one core that the code assumes, so nothing joins the queue
-- meanwhile. The clock's answer is an argument.
pub mod Laws
use cros_rt.Base.{
  ℕ, zero, suc, List, Option, none, some, if◌then◌else◌, Outcome, done, fault, ◌>>=◌,
}
use cros_rt.Base.Int.{ℤ, pos, pos_part, ltb_ℤ, ◌-ℤ◌}
use cros_rt.Base.Cint.{mul_int, quot_int}
use cros_rt.Driver.SkbQueue.{SkbQueue}

-- `tp->non_rt` and the GRO state.
pub record NonRt (Head G : Type 0) : Type 0 where
  pub non_rt : Head
  pub gro : G

-- `util * period / 100`, the milliseconds of a period that the polling server may use.
unfoldable pub process_ms : (period util : ℤ) → Outcome ℤ
unfolding mul_int
process_ms period util = do product ← mul_int util period; done (quot_int product 100)

module _ {Skb G : Type 0} (api : SkbQueue Skb) (gro_receive : G → Skb → G) where
  open api use {Head, skb_dequeue}

  -- `__skb_dequeue(tp->non_rt)`
  abbrev pub take_non_rt : NonRt Head G → Option Skb × NonRt Head G
  take_non_rt s = let (skb, q) = skb_dequeue s.non_rt in (skb, record s { non_rt = q })

  abbrev pub give : NonRt Head G → Skb → NonRt Head G
  give s skb = record s { gro = gro_receive s.gro skb }

  -- `while (tmp_skb != NULL)` of the background server, on fuel.
  unfoldable pub background_loop : ℕ → Option Skb → NonRt Head G → Option (NonRt Head G)
  background_loop zero tmp_skb s = none
  background_loop (suc fuel) none s = some s
  background_loop (suc fuel) (some skb) s =
      let (tmp_skb, t) = take_non_rt (give s skb) in background_loop fuel tmp_skb t

  unfoldable pub non_rt_poll : ℕ → NonRt Head G → Option (NonRt Head G)
  unfolding background_loop
  non_rt_poll fuel s = let (tmp_skb, t) = take_non_rt s in background_loop fuel tmp_skb t

  -- `while (processed < process_budget)` of the polling server, with `n` rounds left.
  unfoldable pub budget_loop : ℕ → NonRt Head G → NonRt Head G
  budget_loop zero s = s
  budget_loop (suc n) s = elim (take_non_rt s).0 [
    | none ↦ (take_non_rt s).1
    | some skb ↦ budget_loop n (give (take_non_rt s).1 skb)
  ]

  -- The new state, and the time that `mdelay` waits if it is called.
  unfoldable pub non_rt_pl_poll :
      (period util elapsed_ms : ℤ) → NonRt Head G → Outcome (NonRt Head G × Option ℤ)
  unfolding budget_loop process_ms
  non_rt_pl_poll period util elapsed_ms s = do
    ms ← process_ms period util
    let process_budget = quot_int ms 2
    done (
      budget_loop (pos_part process_budget) s,
      (if ltb_ℤ elapsed_ms ms then some (ms -ℤ elapsed_ms) else none),
    )
