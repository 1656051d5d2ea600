-- ===== src/Tests/Reset.antt =====
-- A reset of the rings of the driver on a concrete input.
use cros_rt.Base.{[], ◌⊎◌, ℕ, ◌+◌, ◌≡◌, refl, true, false, none, some, ◌==◌, if◌then◌else◌}
use cros_rt.Tests.Rings.{two_frames}
use cros_rt.Driver.Tx.{no_desc, tx_clear_range}
use cros_rt.Driver.Reset.{Device, is_reset_due, rtl_task}
use cros_rt.Driver.Reset.Fresh.{IsFresh, rtl_task-IsFresh}

-- Packet 7 takes the entries 255 and 0 and is still in flight when a reset becomes pending.
abbrev timed_out : Device ℕ
timed_out = record {
  tx = record {
    cur_tx = 257;
    dirty_tx = 255;
    desc = λ i. record no_desc { own = if i == 255 then true else i == 0 };
    tx_skb = λ i.
        if i == 255
        then record { skb = none; len = 60 }
        else if i == 0
        then record { skb = some 7; len = 40 }
        else record { skb = none; len = 0 };
    queue_stopped = true;
    tx_dropped = 0;
    doorbells = 1;
    consumed = [];
    kfreed = [];
  };
  rx = two_frames;
  running = true;
  task_enabled = true;
  reset_pending = true;
}

rtl_task-IsFresh_example :
    ((is_reset_due timed_out ≡ true) × IsFresh timed_out (rtl_task timed_out))
    ⊎ ((is_reset_due timed_out ≡ false) × (rtl_task timed_out ≡ timed_out))
rtl_task-IsFresh_example = rtl_task-IsFresh timed_out

-- Both entries are cleared.
cleared_twice :
    ((rtl_task timed_out).tx.tx_skb 255).len + ((rtl_task timed_out).tx.tx_skb 0).len ≡ 0
unfolding rtl_task tx_clear_range
cleared_twice = refl
