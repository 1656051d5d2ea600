-- ===== src/Framework/NonRt.antt =====
-- ros2_framework/non_rt_bg.c and non_rt_pl.c: the threads knonrtd of the background server and of the
-- polling server, by rounds of their loops. The sleep of the polling server is the result of a round.
pub mod Init
pub mod Laws
use cros_rt.Base.{Bool, true, false, List, [], ◌∷◌, Outcome, done, ◌>>=◌}
use cros_rt.Base.Int.{ℤ}
use cros_rt.Sched.Task.{Task, running, interruptible}
use cros_rt.Net.Glue.{NapiHash, net_non_rt_handler_action, net_non_rt_pl_handler_action}
use cros_rt.Framework.NonRtPl.{sleep_time}

module _ {S D : Type 0} (table : NapiHash S) where
  -- The body of the background server's loop up to where it sleeps.
  unfoldable pub background_round : S → Task D → Outcome (S × Task D)
  unfolding net_non_rt_handler_action
  background_round s current = do
    t ← net_non_rt_handler_action table s
    done (t, record current { state = interruptible })

  -- The background server over the rounds that it has made; what has woken it has changed the device,
  -- and `true` tells it to stop.
  unfoldable pub run_background : List (S × Bool) → Task D → Outcome (List S)
  unfolding background_round
  run_background [] current = done []
  run_background ((s, should_stop) ∷ later) current = background_round s current >>= λ r.
      elim should_stop [
        | true ↦ done (r.0 ∷ [])
        | false ↦ run_background later (record (r.1) { state = running }) >>= λ l. done (r.0 ∷ l)
      ]

module _ {S : Type 0} (table : NapiHash S) where
  -- The body of the polling server's loop, with the milliseconds that it then sleeps.
  unfoldable pub server_round : (period util : ℤ) → S → Outcome (S × ℤ)
  unfolding net_non_rt_pl_handler_action sleep_time
  server_round period util s = do
    t ← net_non_rt_pl_handler_action table period util s
    sleep ← sleep_time period util
    done (t, sleep)
