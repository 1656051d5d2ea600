-- ===== src/Tests/Rings.antt =====
-- The rings of the driver on concrete inputs.
use cros_rt.Base.{
  ◌+◌, ◌&&◌, ℕ, ◌≡◌, ◌≤◌, refl, true, false, not, List, [], ◌∷◌, Option, none, some, arith, ◌⊎◌,
  ◌==◌,
}
use cros_rt.Tests.Data.{queue, snoc, fifo_task}
use cros_rt.Driver.Rx.{RxDesc, RxRing, RxConfig, Sink, rtl_rx}
use cros_rt.Driver.Rx.Ring.{Received}
use cros_rt.Driver.Rx.Selector.{Delivered, arrivals, rtl_rx-Received}
use cros_rt.Driver.Tx.{Tx, tx_ok, no_desc, slots_avail, start_xmit, rtl_tx}
use cros_rt.Driver.Tx.Counters.{in_flight}
use cros_rt.Driver.Tx.Room.{IsRoomy, start_xmit-IsRoomy}
use cros_rt.Driver.Tx.Freed.{rtl_tx-IsRoomy}

-- A whole frame of the driver, and a descriptor of the hardware.
abbrev pub frame : RxDesc
frame = record {
  own = false;
  ring_end = false;
  first_frag = true;
  last_frag = true;
  rx_res = false;
  rx_rwt = false;
  rx_runt = false;
  rx_crc = false;
  len = 104;
  opts2 = 0;
}

-- Two frames, of the entries 0 and 1; a packet is 7778 plus its entry, and that is its port.
abbrev pub two_frames : RxRing
two_frames = record { cur_rx = 0; desc = λ i. record frame { own = not (i == 0) && not (i == 1) } }

abbrev pub all_on : RxConfig
all_on = record { rxall = false; rxfcs = false; krtd_on = true }

abbrev pub alloc : ℕ → ℕ → Option ℕ
alloc entry size = some (7778 + entry)

abbrev empty_sink : Sink (List ℕ) (List ℕ) ℕ
empty_sink = record {
  non_rt = [];
  knonrtd = fifo_task;
  gro = [];
  stats = record {
    rx_errors = 0;
    rx_length_errors = 0;
    rx_crc_errors = 0;
    rx_dropped = 0;
    multicast = 0;
    rx_packets = 0;
  };
}

rtl_rx-Received_example :
    (count : ℕ) × (t : RxRing) × (u : Sink (List ℕ) (List ℕ) ℕ) × (rtl_rx queue snoc
        (λ skb. skb)
        (λ skb. false)
        all_on
        alloc
        64
        two_frames
        empty_sink
      ≡ (count, t, u))
    × Received 64 count two_frames t
    × Delivered queue snoc
        (λ skb. skb)
        (λ skb. false)
        all_on
        alloc
        (arrivals all_on alloc 64 two_frames)
        empty_sink
        u
rtl_rx-Received_example =
    rtl_rx-Received queue snoc (λ skb. skb) (λ skb. false) all_on alloc 64 two_frames empty_sink
      (omega arith)

-- Five packets in flight across the wrap of the counters.
abbrev pub wrapped : Tx ℕ
wrapped = record {
  cur_tx = 3;
  dirty_tx = 4294967294;
  desc = λ i. no_desc;
  tx_skb = λ i. record { skb = none; len = 0 };
  queue_stopped = false;
  tx_dropped = 0;
  doorbells = 0;
  consumed = [];
  kfreed = [];
}

pub wrapped-IsRoomy : IsRoomy wrapped
unfolding slots_avail
wrapped-IsRoomy = record {
  cur_word = omega arith;
  dirty_word = omega arith;
  bounded = omega arith;
  fits = λ running. refl;
}

abbrev identity_map : ℕ → Option ℕ
identity_map addr = some addr

abbrev fragments : List (ℕ × ℕ)
fragments = (100, 4096) ∷ (60, 8192) ∷ []

start_xmit-IsRoomy_example :
    IsRoomy (start_xmit identity_map (some (0, 0)) (40, 64) fragments true 9 wrapped).1
    × ((false ≡ true)
        ⊎ ((start_xmit identity_map (some (0, 0)) (40, 64) fragments true 9 wrapped).0 ≡ tx_ok))
start_xmit-IsRoomy_example =
    start_xmit-IsRoomy identity_map (some (0, 0)) (40, 64) fragments true 9 wrapped (omega arith)
      wrapped-IsRoomy

rtl_tx-IsRoomy_example :
    (t : Tx ℕ) × (rtl_tx 6 wrapped ≡ some t)
    × IsRoomy t
    × (in_flight t.cur_tx t.dirty_tx ≤ 5)
    × ((t.dirty_tx ≡ 4294967294) ⊎ (t.queue_stopped ≡ not (slots_avail t)))
rtl_tx-IsRoomy_example = rtl_tx-IsRoomy 6 wrapped wrapped-IsRoomy (omega arith)
