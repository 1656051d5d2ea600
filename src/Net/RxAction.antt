-- ===== src/Net/RxAction.antt =====
-- The NET_RX softirq of one CPU, `net_rx_action` of net/core/dev.c: it polls the instances of the
-- CPU's list until the budget or the time is used up. Instances are numbers; `napi_poll` is given
-- by what one call does to the CPU: the work done, whether the instance is to be polled again, and
-- the CPU after it. The driver's poll functions and interrupts may put instances on the list
-- meanwhile.
pub mod Laws
use cros_rt.Base.{
  ℕ, zero, suc, ◌+◌, Bool, true, false, not, ◌||◌, ◌&&◌, List, [], ◌∷◌, ◌++◌, ltb, if◌then◌else◌,
  is_nil,
}
use cros_rt.Base.Int.{ℤ, pos, ltb_ℤ, ◌-ℤ◌}

-- `struct softnet_data`, as far as this reads it, and the bit of NET_RX; `E` is the rest.
pub record Softnet (E : Type 0) : Type 0 where
  pub poll_list : List ℕ
  pub time_squeeze : ℕ
  pub net_rx_pending : Bool
  pub rps_ipi_waiting : Bool
  pub env : E

module _ {E : Type 0} where
  -- The three splices after the loop, and raising NET_RX if the list is not empty.
  unfoldable pub put_back : List ℕ → List ℕ → Softnet E → Softnet E
  put_back list repoll sd =
      let all = list ++ sd.poll_list ++ repoll in
      record sd {
        poll_list = all;
        net_rx_pending = if not (is_nil all) then true else sd.net_rx_pending;
      }

  module _ (napi_poll : ℕ → Softnet E → ℕ × Bool × Softnet E) (late : ℕ → Bool) where
    -- The loop over `list`; `late` tells after the poll of each number whether
    -- the time is used up. `net_rx_action`
    -- returns at once where the loop empties both lists and no IPI waits.
    unfoldable pub rx_loop : List ℕ → List ℕ → ℕ → ℤ → Softnet E → Softnet E
    unfolding put_back
    rx_loop [] repoll nr budget sd =
        if not sd.rps_ipi_waiting && is_nil repoll then sd else put_back [] repoll sd
    rx_loop (n ∷ list) repoll nr budget sd =
        let (work, again, t) = napi_poll n sd in
        let repoll_after = if again then repoll ++ n ∷ [] else repoll in
        let left = budget -ℤ pos work in
        elim (ltb_ℤ left (pos 1) || late nr) [
          | true ↦ put_back list repoll_after (record t { time_squeeze = t.time_squeeze + 1 })
          | false ↦ rx_loop list repoll_after (suc nr) left t
        ]

    unfoldable pub net_rx_action : ℤ → Softnet E → Softnet E
    unfolding rx_loop
    net_rx_action netdev_budget sd =
        rx_loop sd.poll_list [] 0 netdev_budget (record sd { poll_list = [] })
