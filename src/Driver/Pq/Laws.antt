-- ===== src/Driver/Pq/Laws.antt =====
-- One operation on the priority queues, seen as lists of packets.
use cros_rt.Base.{
  ◌+◌, ◌≤◌, zero, suc, ltb, done, ℕ, ◌≡◌, ◌≢◌, refl, inl, inr, true, false, [], ◌∷◌, ◌++◌, first,
  rest, is_nil, arith, ◌==◌, if◌then◌else◌, List-cases, fault, Option, Bool-cases, ap, ◌∙◌,
}
use cros_rt.Driver.SkbQueue.{SkbQueue}
use cros_rt.Driver.Pq.{
  Pq, put, queue_count, init_queues, priority_queue_insert, priority_queue_remove,
  priority_queue_init, priority_queue_empty,
}

put_self : {Head : Type 0} (pq : Pq Head) (i : ℕ) (q : Head) → put pq i q i ≡ q
put_self pq i q = ground arith

put_ne : {Head : Type 0} (pq : Pq Head) (i j : ℕ) (q : Head) → i ≢ j → put pq i q j ≡ pq j
put_ne pq i j q h = ground arith

module _ {Skb : Type 0} (api : SkbQueue Skb) where
  open api use {Head, packets, skb_queue_tail, skb_dequeue, skb_queue_empty}

  -- How `priority_queue_remove` changes the queue with packets `l`.
  pub record Removed (pq : Pq Head) (p : ℕ) (r : Option Skb × Pq Head) : Type 0 where
    pub result : r.0 ≡ first (packets (pq p))
    pub left : packets (r.1 p) ≡ rest (packets (pq p))
    pub others : (i : ℕ) → p ≢ i → r.1 i ≡ pq i

  pub remove-Removed : (pq : Pq Head) (p : ℕ) → Removed pq p (priority_queue_remove api pq p)
  unfolding priority_queue_remove
  remove-Removed pq p = elim (List-cases (packets (pq p))) [
    | inl e ↦
        let empty : skb_queue_empty (pq p) ≡ true = api.empty_packets (pq p) ∙ ap is_nil e in
        rw (empty, priority_queue_remove)
          (record { result = rw e refl; left = rw e refl; others = λ i h. refl })
    | inr (skb, l, e) ↦
        let full : skb_queue_empty (pq p) ≡ false = api.empty_packets (pq p) ∙ ap is_nil e in
        rw (full, priority_queue_remove)
          (record {
            result = api.dequeue_result (pq p);
            left = ap packets (put_self pq p _) ∙ api.dequeue_packets (pq p);
            others = λ i h. put_ne pq p i _ h;
          })
  ]

  -- A packet joins the end of its priority's queue; the other queues stay as they were.
  pub insert-packets :
      (pq : Pq Head) (skb : Skb) (p i : ℕ)
      → packets (priority_queue_insert api pq skb p i)
        ≡ (if p == i then packets (pq i) ++ skb ∷ [] else packets (pq i))
  unfolding priority_queue_insert
  insert-packets pq skb p i = elim (Bool-cases (p == i)) [
    | inl here ↦ let e : p ≡ i = ground arith in rw here (rw e (api.tail_packets (pq i) skb))
    | inr there ↦ rw there refl
  ]

  pub empty-packets :
      (pq : Pq Head) (p : ℕ)
      → priority_queue_empty api pq p ≡ (if is_nil (packets (pq p)) then 1 else 0)
  unfolding priority_queue_empty
  empty-packets pq p = rw (api.empty_packets (pq p)) (ground arith)

  -- Whatever the memory holds at first, `priority_queue_init` writes outside memory of the size of
  -- the struct.
  pub init_fault : (pq : Pq Head) → priority_queue_init api queue_count pq ≡ fault
  unfolding priority_queue_init
  init_fault pq = refl

  queues_done :
      (room n i : ℕ) (pq : Pq Head)
      → i + n ≤ room
      → (q : Pq Head) × (init_queues api room n i pq ≡ done q)
  unfolding init_queues
  queues_done room zero i pq le = (pq, refl)
  queues_done room (suc n) i pq le =
      let (q, rest) = queues_done room n (i + 1) (put pq i api.skb_queue_head_init) (omega arith) in
      let inside : ltb i room ≡ true = ground arith in (q, rw (inside, init_queues) rest)

  -- With room for one queue more it does not.
  pub init_done :
      (room : ℕ) (pq : Pq Head)
      → 101 ≤ room
      → (q : Pq Head) × (priority_queue_init api room pq ≡ done q)
  unfolding priority_queue_init
  init_done room pq le = queues_done room 101 0 pq le
