-- ===== src/Tests/Sending.antt =====
-- Sending over the end of the counters on concrete inputs.
use cros_rt.Base.{
  ℕ, ◌+◌, ◌≡◌, refl, true, false, none, some, List, [], ◌∷◌, ◌==◌, if◌then◌else◌, arith, Option,
}
use cros_rt.Tests.Rings.{wrapped, wrapped-IsRoomy, two_frames}
use cros_rt.Driver.Tx.{no_desc, start_xmit, slots_avail, consume_skb, tx_clear_range}
use cros_rt.Driver.Tx.Packets.{IsTidy}
use cros_rt.Driver.Tx.Sent.{can_map}
use cros_rt.Driver.Tx.Fifo.{verdict, answer, Sends, start_xmit-Sends}
use cros_rt.Driver.Reset.{Device}
use cros_rt.Driver.Sending.{Packet, Event, send, hardware, clean, timeout, task, step, run}
use cros_rt.Driver.Sending.Order.{IsPlain, Follows, run-Follows}

-- Nothing can be mapped at address 13.
abbrev map_low : ℕ → Option ℕ
map_low addr = if addr == 13 then none else some (addr + 4096)

abbrev two_pieces : ℕ → ℕ → Packet ℕ
two_pieces skb addr = record {
  dma_map = map_low;
  options = some (0, 0);
  head = (14, 1);
  frags = (100, addr) ∷ [];
  door_bell = true;
  skb = skb;
}

-- Packet 7 is sent, packet 8 cannot be mapped, packet 9 is sent after packet 7 and reset away.
abbrev events : List (Event ℕ)
events =
    send (two_pieces 7 12)
    ∷ send (two_pieces 8 13)
    ∷ hardware (λ i. no_desc)
    ∷ clean
    ∷ send (two_pieces 9 14)
    ∷ timeout
    ∷ task
    ∷ []

abbrev running : Device ℕ
running = record {
  tx = wrapped;
  rx = two_frames;
  running = true;
  task_enabled = true;
  reset_pending = false;
}

wrapped-IsTidy : IsTidy 4294967294 wrapped
wrapped-IsTidy = record { free = λ i k lo hi at. refl; mapped = λ i e. refl }

plain : (skb addr : ℕ) → IsPlain (send (two_pieces skb addr))
plain skb addr = (omega arith, (omega arith, (omega arith, tt)))

abbrev totals : Option (Device ℕ × List ℕ × List ℕ) → List ℕ × List ℕ × ℕ
totals none = ([], [], 0)
totals (some (t, accepted, dropped)) = (t.tx.consumed, t.tx.kfreed, t.tx.tx_dropped)

-- What the run comes to.
run_result : totals (run events running) ≡ (7 ∷ 9 ∷ [], 8 ∷ [], 1)
unfolding run step consume_skb tx_clear_range
run_result = refl

run-Follows_example :
    (t : Device ℕ) × (accepted : List ℕ) × (dropped : List ℕ) × (run events running
      ≡ some (t, accepted, dropped))
    × Follows wrapped t.tx accepted dropped
run-Follows_example =
    run-Follows events running (plain 7 12, (plain 8 13, (tt, (tt, (plain 9 14, (tt, (tt, tt)))))))
      (record { roomy = wrapped-IsRoomy; tidy = wrapped-IsTidy })

start_xmit-Sends_example :
    let (r, t) = start_xmit map_low (some (0, 0)) (14, 1) ((100, 12) ∷ []) true 7 wrapped in
    let v =
      verdict (slots_avail wrapped) (some (0, 0)) (can_map map_low ((14, 1) ∷ (100, 12) ∷ [])) in
    (r ≡ answer v) × Sends v 7 wrapped t
start_xmit-Sends_example =
    start_xmit-Sends map_low (some (0, 0)) (14, 1) ((100, 12) ∷ []) true 7 wrapped (plain 7 12).1
      (omega arith) wrapped-IsRoomy wrapped-IsTidy
