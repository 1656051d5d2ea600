-- ===== src/Driver/Rx.antt =====
-- Receiving, `rtl_rx` of r8169_main.c with its message selector, and `rtl8169_mark_to_asic`. A
-- status word is given by its bits, the data of a buffer by the packet that is made of it;
-- allocating a packet, the headers and `napi_gro_receive` are parameters. The insertion into the
-- priority queues stands in a comment in the source and is no part of the model.
pub mod Ring
pub mod Selector
pub mod Wakeup
pub mod Pointer
use cros_rt.Base.{
  ℕ, zero, suc, ◌+◌, ◌-◌, ◌%◌, ◌^◌, Bool, true, false, not, ◌&&◌, ◌||◌, Option, none, some, ◌==◌,
  if◌then◌else◌,
}
use cros_rt.Driver.SkbQueue.{SkbQueue}
use cros_rt.Sched.Task.{Task, TaskState, running, wake_up_process}

-- `struct RxDesc`: the bits of `opts1` and `opts2`.
pub record RxDesc : Type 0 where
  pub own : Bool
  pub ring_end : Bool
  pub first_frag : Bool
  pub last_frag : Bool
  pub rx_res : Bool
  pub rx_rwt : Bool
  pub rx_runt : Bool
  pub rx_crc : Bool
  pub len : ℕ
  pub opts2 : ℕ

-- The ring: `cur_rx`, an unsigned int, and the descriptors.
pub record RxRing : Type 0 where
  pub cur_rx : ℕ
  pub desc : ℕ → RxDesc

pub record RxStats : Type 0 where
  pub rx_errors : ℕ
  pub rx_length_errors : ℕ
  pub rx_crc_errors : ℕ
  pub rx_dropped : ℕ
  pub multicast : ℕ
  pub rx_packets : ℕ

-- What a packet ends in: `tp->non_rt`, the thread knonrtd, the GRO state, the counters.
pub record Sink (Head G D : Type 0) : Type 0 where
  pub non_rt : Head
  pub knonrtd : Task D
  pub gro : G
  pub stats : RxStats

-- NETIF_F_RXALL and NETIF_F_RXFCS, and the driver's `krtd_on`.
pub record RxConfig : Type 0 where
  pub rxall : Bool
  pub rxfcs : Bool
  pub krtd_on : Bool

abbrev pub num_rx_desc : ℕ
num_rx_desc = 256

abbrev pub rx_buf_size : ℕ
rx_buf_size = 16383

unfoldable pub mark_to_asic : RxDesc → RxDesc
mark_to_asic d = record {
  own = true;
  ring_end = d.ring_end;
  first_frag = false;
  last_frag = false;
  rx_res = false;
  rx_rwt = false;
  rx_runt = false;
  rx_crc = false;
  len = rx_buf_size;
  opts2 = 0;
}

abbrev pub entry_of : RxRing → ℕ
entry_of r = r.cur_rx % num_rx_desc

abbrev pub current : RxRing → RxDesc
current r = r.desc (entry_of r)

-- From `release_descriptor:` to the next round.
unfoldable pub release : RxRing → RxRing
unfolding mark_to_asic
release r = record r {
  cur_rx = (r.cur_rx + 1) % 2 ^ 32;
  desc = λ i. if entry_of r == i then mark_to_asic (r.desc i) else r.desc i;
}

unfoldable pub fragmented_frame : RxDesc → Bool
fragmented_frame d = not (d.first_frag && d.last_frag)

-- A frame with an error is still received if NETIF_F_RXALL asks for it.
unfoldable pub bad_frame : RxConfig → RxDesc → Bool
bad_frame c d =
    if d.rx_res
    then if not c.rxall then true else d.rx_rwt || not (d.rx_runt || d.rx_crc)
    else false

unfoldable pub count_errors : RxDesc → RxStats → RxStats
count_errors d st =
    if d.rx_res
    then record st {
      rx_errors = st.rx_errors + 1;
      rx_length_errors =
          if d.rx_rwt || d.rx_runt then st.rx_length_errors + 1 else st.rx_length_errors;
      rx_crc_errors = if d.rx_crc then st.rx_crc_errors + 1 else st.rx_crc_errors;
    }
    else st

-- `status & GENMASK(13, 0)` less the checksum; an unsigned int.
abbrev pub pkt_size : RxConfig → RxDesc → ℕ
pkt_size c d = if not c.rxfcs then (d.len + (2 ^ 32 - 4)) % 2 ^ 32 else d.len

abbrev pub message_port : ℕ
message_port = 7778

abbrev pub is_running : TaskState → Bool
is_running running = true
is_running _ = false

-- `if (knonrtd->__state != TASK_RUNNING) wake_up_process(knonrtd);` where the pointer leads to the
-- thread; Pointer has the pointer itself.
unfoldable pub wake_knonrtd : {D : Type 0} → Task D → Task D
unfolding wake_up_process
wake_knonrtd t = if not (is_running t.state) then (wake_up_process t).1 else t

module _ {Skb G D : Type 0} (api : SkbQueue Skb) (gro_receive : G → Skb → G) (dest_port : Skb → ℕ)
    (is_multicast : Skb → Bool) (c : RxConfig) where
  open api use {Head, skb_queue_tail}

  -- The message selector.
  unfoldable pub select : Skb → Sink Head G D → Sink Head G D
  unfolding wake_knonrtd
  select skb s =
      if c.krtd_on && dest_port skb == message_port
      then record s { non_rt = skb_queue_tail s.non_rt skb; knonrtd = wake_knonrtd s.knonrtd }
      else record s { gro = gro_receive s.gro skb }

  abbrev pub count_packet : Skb → Sink Head G D → Sink Head G D
  count_packet skb s = record s {
    stats = record (s.stats) {
      multicast = if is_multicast skb then s.stats.multicast + 1 else s.stats.multicast;
      rx_packets = s.stats.rx_packets + 1;
    };
  }

  -- `alloc_skb entry size` is the packet that `napi_alloc_skb` and the copy from the buffer give.
  module _ (alloc_skb : ℕ → ℕ → Option Skb) where
    abbrev pub drop : Bool → Sink Head G D → Sink Head G D
    drop too_long s = record s {
      stats = record (s.stats) {
        rx_dropped = s.stats.rx_dropped + 1;
        rx_length_errors =
            if too_long then s.stats.rx_length_errors + 1 else s.stats.rx_length_errors;
      };
    }

    -- The body of the loop, for a descriptor that is not the hardware's.
    unfoldable pub receive : ℕ → RxDesc → Sink Head G D → Sink Head G D
    unfolding select bad_frame fragmented_frame count_errors
    receive entry d s =
        let t = record s { stats = count_errors d s.stats } in
        if bad_frame c d
        then t
        else if fragmented_frame d
        then drop true t
        else elim (alloc_skb entry (pkt_size c d)) [
          | none ↦ drop false t
          | some skb ↦ count_packet skb (select skb t)
        ]

    -- The loop; the argument is what is left of the budget.
    unfoldable pub rtl_rx : ℕ → RxRing → Sink Head G D → ℕ × RxRing × Sink Head G D
    unfolding receive release
    rtl_rx zero r s = (0, r, s)
    rtl_rx (suc left) r s =
        let (count, t, u) = rtl_rx left (release r) (receive (entry_of r) (current r) s) in
        if (current r).own then (0, r, s) else (count + 1, t, u)
