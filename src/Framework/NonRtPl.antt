-- ===== src/Framework/NonRtPl.antt =====
-- ros2_framework/non_rt_pl.c: the thread of the polling server. A round is one pass of its loop.
use cros_rt.Base.{ℕ, ◌+◌, ◌-◌, ◌*◌, ◌/◌, ◌≤◌, ◌≡◌, ◌^◌, refl, ap, Outcome, done, ◌>>=◌, arith}
use cros_rt.Base.Int.{ℤ, pos, ◌-ℤ◌}
use cros_rt.Base.Cint.{mul_int, quot_int, mul_int-pos, -ℤ-pos}
use cros_rt.Driver.NonRt.{process_ms}

-- `period * (100 - util) / 100`
unfoldable pub sleep_time : ℤ → ℤ → Outcome ℤ
unfolding mul_int ◌-ℤ◌
sleep_time period util = do product ← mul_int period (pos 100 -ℤ util); done (quot_int product 100)

-- For a share of 0 to 100 percent and a period whose hundredfold fits an `int`, working time and
-- sleeping time of a round add up to the period, or to one millisecond less.
pub process-sleep_time :
    (period util : ℕ)
    → util ≤ 100
    → 100 * period ≤ 2 ^ 31 - 1
    → (work sleep : ℕ) × (process_ms (pos period) (pos util) ≡ done (pos work))
      × (sleep_time (pos period) (pos util) ≡ done (pos sleep))
      × (work + sleep ≤ period)
      × (period ≤ work + sleep + 1)
      × (work ≡ util * period / 100)
unfolding process_ms sleep_time
process-sleep_time period util h k =
    let idle : ℕ = 100 - util in
    let split : (util + idle) * period ≡ 100 * period = ap (λ (t : ℕ). t * period) (omega arith) in
    (
      util * period / 100,
      period * idle / 100,
      rw (mul_int-pos util period (omega arith)) refl,
      rw (-ℤ-pos 100 util h, mul_int-pos period idle (omega arith)) refl,
      omega arith,
      omega arith,
      refl,
    )
