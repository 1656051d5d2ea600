-- ===== src/Driver/Rx/Pointer.antt =====
-- The pointer knonrtd of r8169_main.c, which is NULL until krtd_on_set finds the thread, and rtl_rx
-- where the message selector goes through it.
use cros_rt.Base.{
  ap, ◌∙◌, subst, ◌++◌, List, true_ne_false, ◌⊎◌, [], is_nil, inr, inl, ℕ, zero, suc, ◌+◌, ◌≡◌,
  refl, Bool, true, false, ◌&&◌, Option, none, some, if◌then◌else◌, ◌==◌, Outcome, done, fault,
  ◌>>=◌, Bool-cases, Option-cases,
}
use cros_rt.Driver.SkbQueue.{SkbQueue}
use cros_rt.Driver.Rx.{
  RxDesc, RxRing, RxConfig, Sink, message_port, entry_of, current, release, fragmented_frame,
  bad_frame, count_errors, pkt_size, count_packet, drop, wake_knonrtd, select, receive, rtl_rx,
}
use cros_rt.Driver.Rx.Selector.{keep, keep-append, is_selected, arrived, arrivals}
use cros_rt.Sched.Task.{Task}

-- The parameter krtd_on and whether the pointer leads to the thread.
pub record Switch : Type 0 where
  pub krtd_on : Bool
  pub is_found : Bool

-- `krtd_on_set parsed finds`: what `param_set_int` reads, if it can, and whether `pid_task` finds the
-- thread; otherwise the pointer is NULL.
unfoldable pub krtd_on_set : Option Bool → Bool → Switch → Switch
krtd_on_set none finds k = k
krtd_on_set (some true) finds k = record { krtd_on = true; is_found = finds }
krtd_on_set (some false) finds k = record k { krtd_on = false }

-- `knonrtd->__state` is read before anything else.
unfoldable pub wake_pointer : {D : Type 0} → Bool → Task D → Outcome (Task D)
unfolding wake_knonrtd
wake_pointer is_found t = if is_found then done (wake_knonrtd t) else fault

module _ {Skb : Type 0} (dest_port : Skb → ℕ) (c : RxConfig) where
  later_message :
      (l m : List Skb) (own : Bool)
      → keep (is_selected dest_port c) l ≡ []
      → own ≡ false
      → is_nil (keep (is_selected dest_port c) (if own then [] else l ++ m)) ≡ false
      → is_nil (keep (is_selected dest_port c) m) ≡ false
  later_message l m own none_l driver h =
      subst (λ x. is_nil x ≡ false)
        (keep-append (is_selected dest_port c) l m
          ∙ ap (λ k. k ++ keep (is_selected dest_port c) m) none_l)
        (subst (λ b. is_nil (keep (is_selected dest_port c) (if b then [] else l ++ m)) ≡ false)
          driver h)

  no_message :
      (l : List Skb) (own : Bool)
      → own ≡ true
      → ¬ (is_nil (keep (is_selected dest_port c) (if own then [] else l)) ≡ false)
  no_message l own hardware h = true_ne_false (
      subst (λ b. is_nil (keep (is_selected dest_port c) (if b then [] else l)) ≡ false) hardware h)

module _ {Skb G D : Type 0} (api : SkbQueue Skb) (gro_receive : G → Skb → G) (dest_port : Skb → ℕ)
    (is_multicast : Skb → Bool) (c : RxConfig) (is_found : Bool) where
  open api use {Head, skb_queue_tail}

  unfoldable pub select_pointer : Skb → Sink Head G D → Outcome (Sink Head G D)
  unfolding wake_pointer
  select_pointer skb s =
      if c.krtd_on && dest_port skb == message_port
      then (wake_pointer is_found s.knonrtd >>= λ t.
          done (record s { non_rt = skb_queue_tail s.non_rt skb; knonrtd = t }))
      else done (record s { gro = gro_receive s.gro skb })

  select_pointer_lem :
      (c.krtd_on ≡ true → is_found ≡ true)
      → (skb : Skb) (s : Sink Head G D)
      → select_pointer skb s ≡ done (select api gro_receive dest_port is_multicast c skb s)
  unfolding select_pointer wake_pointer select
  select_pointer_lem h skb s = elim (Bool-cases c.krtd_on) [
    | inr off ↦ rw (off, select_pointer, select) refl
    | inl on ↦ elim (Bool-cases (dest_port skb == message_port)) [
      | inr other ↦ rw (on, other, select_pointer, select) refl
      | inl message ↦ rw (on, h on, message, select_pointer, select) refl
    ]
  ]

  module _ (alloc_skb : ℕ → ℕ → Option Skb) where
    unfoldable pub receive_pointer : ℕ → RxDesc → Sink Head G D → Outcome (Sink Head G D)
    unfolding select_pointer bad_frame fragmented_frame count_errors
    receive_pointer entry d s =
        let t = record s { stats = count_errors d s.stats } in
        if bad_frame c d
        then done t
        else if fragmented_frame d
        then done (drop api gro_receive dest_port is_multicast c alloc_skb true t)
        else elim (alloc_skb entry (pkt_size c d)) [
          | none ↦ done (drop api gro_receive dest_port is_multicast c alloc_skb false t)
          | some skb ↦ select_pointer skb t >>= λ u.
              done (count_packet api gro_receive dest_port is_multicast c skb u)
        ]

    unfoldable pub rtl_rx_pointer :
        ℕ → RxRing → Sink Head G D → Outcome (ℕ × RxRing × Sink Head G D)
    unfolding receive_pointer release
    rtl_rx_pointer zero r s = done (0, r, s)
    rtl_rx_pointer (suc left) r s =
        let later = receive_pointer (entry_of r) (current r) s >>= λ k.
        rtl_rx_pointer left (release r) k >>= λ x. done (x.0 + 1, x.1, x.2) in
        if (current r).own then done (0, r, s) else later

    receive_pointer_lem :
        (c.krtd_on ≡ true → is_found ≡ true)
        → (entry : ℕ) (d : RxDesc) (s : Sink Head G D)
        → receive_pointer entry d s
          ≡ done (receive api gro_receive dest_port is_multicast c alloc_skb entry d s)
    unfolding receive_pointer receive
    receive_pointer_lem h entry d s = elim (Bool-cases (bad_frame c d)) [
      | inl bad ↦ rw (bad, receive_pointer, receive) refl
      | inr good ↦ elim (Bool-cases (fragmented_frame d)) [
        | inl part ↦ rw (good, part, receive_pointer, receive) refl
        | inr whole ↦ elim (Option-cases (alloc_skb entry (pkt_size c d))) [
          | inl no_room ↦ rw (good, whole, no_room, receive_pointer, receive) refl
          | inr (skb, got) ↦
              rw (good, whole, got, receive_pointer, receive, select_pointer_lem h skb _) refl
        ]
      ]
    ]

    -- Where the pointer leads to the thread whenever krtd_on is set, `rtl_rx` does not fault.
    pub rtl_rx_pointer_lem :
        (c.krtd_on ≡ true → is_found ≡ true)
        → (n : ℕ) (r : RxRing) (s : Sink Head G D)
        → rtl_rx_pointer n r s
          ≡ done (rtl_rx api gro_receive dest_port is_multicast c alloc_skb n r s)
    unfolding rtl_rx_pointer rtl_rx
    rtl_rx_pointer_lem h zero r s = refl
    rtl_rx_pointer_lem h (suc left) r s = elim (Bool-cases (current r).own) [
      | inl hardware ↦ rw (hardware, rtl_rx_pointer, rtl_rx) refl
      | inr driver ↦
          rw
            (
              driver,
              rtl_rx_pointer,
              rtl_rx,
              receive_pointer_lem h (entry_of r) (current r) s,
              rtl_rx_pointer_lem h left (release r) _,
            )
            refl
    ]

    -- What a descriptor does where the pointer is NULL: it holds no message, or the code faults.
    receive_pointer-null :
        is_found ≡ false
        → (entry : ℕ) (d : RxDesc) (s : Sink Head G D)
        → ((keep (is_selected dest_port c) (arrived c alloc_skb entry d) ≡ [])
            × (receive_pointer entry d s
                ≡ done (receive api gro_receive dest_port is_multicast c alloc_skb entry d s)))
          ⊎ (receive_pointer entry d s ≡ fault)
    unfolding receive_pointer receive select_pointer select wake_pointer
    receive_pointer-null h entry d s = elim (Bool-cases (bad_frame c d)) [
      | inl bad ↦ inl (rw bad refl, rw (bad, receive_pointer, receive) refl)
      | inr good ↦ elim (Bool-cases (fragmented_frame d)) [
        | inl part ↦ inl (rw (good, part) refl, rw (good, part, receive_pointer, receive) refl)
        | inr whole ↦ elim (Option-cases (alloc_skb entry (pkt_size c d))) [
          | inl no_room ↦ inl (
            rw (good, whole, no_room) refl,
            rw (good, whole, no_room, receive_pointer, receive) refl,
          )
          | inr (skb, got) ↦ elim (Bool-cases (is_selected dest_port c skb)) [
            | inl sel ↦
                inr (
                  rw (good, whole, got, receive_pointer, select_pointer, sel, wake_pointer, h) refl)
            | inr def ↦ inl (
              rw (good, whole, got, def) refl,
              rw (good, whole, got, receive_pointer, receive, select_pointer, select, def) refl,
            )
          ]
        ]
      ]
    ]

    -- Where the pointer is NULL, `rtl_rx` faults at the first message for the message port.
    pub rtl_rx_pointer-null :
        is_found ≡ false
        → (n : ℕ) (r : RxRing) (s : Sink Head G D)
        → is_nil (keep (is_selected dest_port c) (arrivals c alloc_skb n r)) ≡ false
        → rtl_rx_pointer n r s ≡ fault
    unfolding rtl_rx_pointer
    rtl_rx_pointer-null h zero r s some_message = absurd (true_ne_false some_message)
    rtl_rx_pointer-null h (suc left) r s some_message = elim (Bool-cases (current r).own) [
      | inl hardware ↦ absurd (no_message dest_port c _ (current r).own hardware some_message)
      | inr driver ↦ elim (receive_pointer-null h (entry_of r) (current r) s) [
        | inr faults ↦ rw (driver, rtl_rx_pointer, faults) refl
        | inl (none_here, goes_on) ↦
            rw
              (
                driver,
                rtl_rx_pointer,
                goes_on,
                rtl_rx_pointer-null h left (release r) _ (
                    later_message dest_port c (arrived c alloc_skb (entry_of r) (current r))
                      (arrivals c alloc_skb left (release r)) (current r).own none_here driver
                      some_message),
              )
              refl
      ]
    ]
