-- ===== src/Driver/Pq.antt =====
-- `struct priority_queue` of r8169.h, an array of 100 packet queues, and its functions in
-- r8169_main.c.
pub mod Laws
use cros_rt.Base.{
  ℕ, zero, suc, ◌+◌, Bool, true, false, not, Option, none, some, ltb, ◌==◌, if◌then◌else◌, Outcome,
  done, fault,
}
use cros_rt.Driver.SkbQueue.{SkbQueue}

abbrev pub queue_count : ℕ
queue_count = 100

abbrev pub Pq : Type 0 → Type 0
Pq Head = ℕ → Head

abbrev pub put : {Head : Type 0} → Pq Head → ℕ → Head → Pq Head
put pq i q j = if i == j then q else pq j

module _ {Skb : Type 0} (api : SkbQueue Skb) where
  open api use {
    Head, skb_queue_head_init, skb_queue_tail, skb_dequeue, skb_queue_empty, skb_queue_purge,
    skb_queue_len,
  }

  unfoldable pub priority_queue_insert : Pq Head → Skb → ℕ → Pq Head
  priority_queue_insert pq skb priority = put pq priority (skb_queue_tail (pq priority) skb)

  unfoldable pub priority_queue_remove : Pq Head → ℕ → Option Skb × Pq Head
  priority_queue_remove pq priority =
      if not (skb_queue_empty (pq priority))
      then (let (skb, q) = skb_dequeue (pq priority) in (skb, put pq priority q))
      else (none, pq)

  -- The loop of `priority_queue_init` from index `i`, with `n` rounds left, where the memory that the
  -- pointer leads to has room for `room` queues; the struct itself has 100.
  unfoldable pub init_queues : (room n i : ℕ) → Pq Head → Outcome (Pq Head)
  init_queues room zero i pq = done pq
  init_queues room (suc n) i pq =
      let later = init_queues room n (i + 1) (put pq i skb_queue_head_init) in
      if ltb i room then later else fault

  unfoldable pub priority_queue_init : (room : ℕ) → Pq Head → Outcome (Pq Head)
  unfolding init_queues
  priority_queue_init room pq = init_queues room 101 0 pq

  unfoldable pub priority_queue_empty : Pq Head → ℕ → ℕ
  priority_queue_empty pq priority = if not (skb_queue_empty (pq priority)) then 0 else 1

  unfoldable pub priority_queue_purge : Pq Head → ℕ → Pq Head
  priority_queue_purge pq priority = put pq priority (skb_queue_purge (pq priority))

  unfoldable pub priority_queue_len : Pq Head → ℕ → ℕ
  priority_queue_len pq priority = skb_queue_len (pq priority)
