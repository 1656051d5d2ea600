-- ===== src/Driver/RtPoll.antt =====
-- `rt_poll` of r8169_main.c, the RT handler's part of the driver: it hands the packets of the
-- highest priority to GRO and then looks for the next priority. Between two packets the lock is
-- free; no code of the driver adds to the queues (the call in `rtl_rx` stands in a comment), so
-- the loop is modelled without interference. `napi_gro_receive` is a parameter.
pub mod Drain
pub mod Laws
pub mod Order
use cros_rt.Base.{
  ℕ, zero, suc, Bool, true, false, List, [], ◌∷◌, Option, none, some, ltb, ◌==◌, if◌then◌else◌,
}
use cros_rt.Driver.SkbQueue.{SkbQueue}
use cros_rt.Driver.Pq.{Pq, priority_queue_remove, priority_queue_empty}
use cros_rt.Driver.Ports.{get_next_highest_priority}

-- What `rt_poll` reads and writes: `tp->pq`, `highest_pri`, `priority_in_use` and the GRO state.
pub record Rt (Head G : Type 0) : Type 0 where
  pub pq : Pq Head
  pub highest_pri : ℕ
  pub in_use : ℕ → Bool
  pub gro : G

module _ {Skb G : Type 0} (api : SkbQueue Skb) (gro_receive : G → Skb → G) where
  open api use {Head}

  -- One locked `priority_queue_remove(tp->pq, highest_pri)`.
  unfoldable pub take_highest : Rt Head G → Option Skb × Rt Head G
  unfolding priority_queue_remove
  take_highest s =
      let (skb, pq) = priority_queue_remove api s.pq s.highest_pri in (skb, record s { pq = pq })

  -- `while (tmp_skb != NULL)` on fuel; `none` is a loop that has not ended.
  unfoldable pub deliver_loop : ℕ → Option Skb → ℕ → Rt Head G → Option (Rt Head G × ℕ)
  unfolding take_highest
  deliver_loop zero tmp_skb ret s = none
  deliver_loop (suc fuel) none ret s = some (s, ret)
  deliver_loop (suc fuel) (some skb) ret s =
      let (tmp_skb, t) = take_highest (record s { gro = gro_receive s.gro skb }) in
      deliver_loop fuel tmp_skb 1 t

  unfoldable pub lower_highest : Rt Head G → Rt Head G
  unfolding priority_queue_empty get_next_highest_priority
  lower_highest s = if priority_queue_empty api s.pq s.highest_pri == 0 then s else record s {
    highest_pri =
        if ltb s.highest_pri 2 then 1 else get_next_highest_priority s.in_use s.highest_pri;
  }

  abbrev finish : Option (Rt Head G × ℕ) → Option (Rt Head G × ℕ)
  finish none = none
  finish (some (s, ret)) = some (lower_highest s, ret)

  unfoldable pub rt_poll : ℕ → Rt Head G → Option (Rt Head G × ℕ)
  unfolding take_highest deliver_loop lower_highest
  rt_poll fuel s = let (tmp_skb, t) = take_highest s in finish (deliver_loop fuel tmp_skb 0 t)
