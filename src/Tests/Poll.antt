-- ===== src/Tests/Poll.antt =====
-- A call of the poll function with two frames in the receive ring and five descriptors in flight.
use cros_rt.Base.{ℕ, Bool, true, false, List, [], none}
use cros_rt.Tests.Data.{fifo_task}
use cros_rt.Tests.Rings.{two_frames, wrapped}
use cros_rt.Driver.Poll.{Nic}
use cros_rt.Net.Instance.{Config}

abbrev chip : Nic ℕ (List ℕ) (List ℕ) ℕ
chip = record {
  tx = wrapped;
  ring = two_frames;
  non_rt = [];
  knonrtd = fifo_task;
  stats = record {
    rx_errors = 0;
    rx_length_errors = 0;
    rx_crc_errors = 0;
    rx_dropped = 0;
    multicast = 0;
    rx_packets = 0;
  };
  irq = record {
    napi = record {
      state = record {
        sched = true;
        missed = false;
        disable = false;
        npsvc = false;
        listed = true;
        no_busy_poll = false;
        in_busy_poll = false;
        prefer_busy_poll = false;
        threaded = false;
        sched_threaded = false;
      };
      on_list = false;
      net_rx_raised = false;
      thread = none;
      gro = [];
      defer_hard_irqs_count = 0;
      timer = none;
    };
    irq_enabled = false;
    reset_pending = false;
    queue_stopped = false;
    phy_interrupts = 0;
    acked = 1;
  };
}

abbrev own_port : ℕ → ℕ
own_port skb = skb

abbrev unicast : ℕ → Bool
unicast skb = false

abbrev nothing_held : List ℕ → Bool
nothing_held g = false

abbrev flush : Bool → List ℕ → List ℕ
flush old g = g

abbrev deliver : List ℕ → List ℕ
deliver g = g

abbrev plain : Config
plain = record { weight = 64; gro_flush_timeout = 0; napi_defer_hard_irqs = 0; threaded = false }
