-- ===== src/Driver/SkbQueue.antt =====
-- The packet queues of the kernel, `struct sk_buff_head` of linux/skbuff.h, which the driver only
-- calls: an interface, with the behaviour that the header documents for each function as a law.
use cros_rt.Base.{ℕ, ◌≡◌, refl, Bool, List, [], ◌∷◌, ◌++◌, Option, first, rest, is_nil, length}

pub record SkbQueue (Skb : Type 0) : Type 1 where
  pub Head : Type 0
  -- The packets in a queue, oldest first.
  pub packets : Head → List Skb
  pub skb_queue_head_init : Head
  pub skb_queue_tail : Head → Skb → Head
  pub skb_dequeue : Head → Option Skb × Head
  pub skb_queue_empty : Head → Bool
  pub skb_queue_purge : Head → Head
  pub skb_queue_len : Head → ℕ
  pub init_packets : packets skb_queue_head_init ≡ []
  pub tail_packets : (q : Head) (skb : Skb) → packets (skb_queue_tail q skb) ≡ packets q ++ skb ∷ []
  pub dequeue_result : (q : Head) → (skb_dequeue q).0 ≡ first (packets q)
  pub dequeue_packets : (q : Head) → packets (skb_dequeue q).1 ≡ rest (packets q)
  pub empty_packets : (q : Head) → skb_queue_empty q ≡ is_nil (packets q)
  pub purge_packets : (q : Head) → packets (skb_queue_purge q) ≡ []
  pub len_packets : (q : Head) → skb_queue_len q ≡ length (packets q)

-- A list of packets meets the interface.
abbrev pub list_queue : (Skb : Type 0) → SkbQueue Skb
list_queue Skb = record {
  Head = List Skb;
  packets = λ q. q;
  skb_queue_head_init = [];
  skb_queue_tail = λ q skb. q ++ skb ∷ [];
  skb_dequeue = λ q. (first q, rest q);
  skb_queue_empty = is_nil;
  skb_queue_purge = λ q. [];
  skb_queue_len = length;
  init_packets = refl;
  tail_packets = λ q skb. refl;
  dequeue_result = λ q. refl;
  dequeue_packets = λ q. refl;
  empty_packets = λ q. refl;
  purge_packets = λ q. refl;
  len_packets = λ q. refl;
}
