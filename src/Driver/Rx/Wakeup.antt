-- ===== src/Driver/Rx/Wakeup.antt =====
-- Whether `rtl_rx` leaves the thread of the non-RT handler running.
use cros_rt.Base.{
  ℕ, zero, suc, ◌≡◌, refl, ap, sym, ◌∙◌, ◌⊎◌, inl, inr, Bool, Option, List, [], ◌∷◌, ◌++◌,
  if◌then◌else◌, is_nil, Bool-cases, Option-cases,
}
use cros_rt.Driver.SkbQueue.{SkbQueue}
use cros_rt.Driver.Rx.{
  RxDesc, RxRing, RxConfig, Sink, entry_of, current, release, fragmented_frame, bad_frame, pkt_size,
  wake_knonrtd, select, receive, rtl_rx,
}
use cros_rt.Driver.Rx.Selector.{keep, keep-append, is_selected, arrived, arrivals}
use cros_rt.Sched.Task.{TaskState, running, interruptible, wake_up_process}

-- A thread that runs or sleeps lightly.
abbrev pub IsWakeable : TaskState → Type 0
IsWakeable x = (x ≡ running) ⊎ (x ≡ interruptible)

-- The state after some packets were queued, or none.
abbrev pub state_after : {A : Type 0} → List A → TaskState → TaskState
state_after l x = if is_nil l then x else running

state_after-append :
    {A : Type 0} (l m : List A) (x : TaskState)
    → state_after m (state_after l x) ≡ state_after (l ++ m) x
state_after-append [] m x = refl
state_after-append (a ∷ l) [] x = refl
state_after-append (a ∷ l) (b ∷ m) x = refl

state_after-IsWakeable :
    {A : Type 0} (l : List A) (x : TaskState) → IsWakeable x → IsWakeable (state_after l x)
state_after-IsWakeable [] x h = h
state_after-IsWakeable (a ∷ l) x h = inl refl

module _ {Skb G D : Type 0} (api : SkbQueue Skb) (gro_receive : G → Skb → G) (dest_port : Skb → ℕ)
    (is_multicast : Skb → Bool) (c : RxConfig) (alloc_skb : ℕ → ℕ → Option Skb) where
  open api use {Head}

  -- The thread after the packets of `l` were received.
  abbrev Woken : List Skb → Sink Head G D → Sink Head G D → Type 0
  Woken l s t = t.knonrtd.state ≡ state_after (keep (is_selected dest_port c) l) s.knonrtd.state

  select-Woken :
      (skb : Skb) (s : Sink Head G D)
      → IsWakeable s.knonrtd.state
      → Woken (skb ∷ []) s (select api gro_receive dest_port is_multicast c skb s)
  unfolding select wake_knonrtd wake_up_process
  select-Woken skb s h = elim (Bool-cases (is_selected dest_port c skb)) [
    | inl sel ↦ elim h [ inl e ↦ rw (sel, select, e) refl | inr e ↦ rw (sel, select, e) refl ]
    | inr def ↦ rw (def, select) refl
  ]

  receive-Woken :
      (entry : ℕ) (d : RxDesc) (s : Sink Head G D)
      → IsWakeable s.knonrtd.state
      → Woken
          (arrived c alloc_skb entry d)
          s
          (receive api gro_receive dest_port is_multicast c alloc_skb entry d s)
  unfolding receive
  receive-Woken entry d s h = elim (Bool-cases (bad_frame c d)) [
    | inl bad ↦ rw (bad, receive) refl
    | inr good ↦ elim (Bool-cases (fragmented_frame d)) [
      | inl part ↦ rw (good, part, receive) refl
      | inr whole ↦ elim (Option-cases (alloc_skb entry (pkt_size c d))) [
        | inl no_room ↦ rw (good, whole, no_room, receive) refl
        | inr (skb, got) ↦ rw (good, whole, got, receive) (select-Woken skb _ h)
      ]
    ]
  ]

  pub rtl_rx-Woken :
      (n : ℕ) (r : RxRing) (s : Sink Head G D)
      → IsWakeable s.knonrtd.state
      → (rtl_rx api gro_receive dest_port is_multicast c alloc_skb n r s).2.knonrtd.state
        ≡ state_after (keep (is_selected dest_port c) (arrivals c alloc_skb n r)) s.knonrtd.state
  unfolding rtl_rx
  rtl_rx-Woken zero r s h = refl
  rtl_rx-Woken (suc n) r s h =
      let come = arrived c alloc_skb (entry_of r) (current r) in
      let first_done =
        receive api gro_receive dest_port is_multicast c alloc_skb (entry_of r) (current r) s in
      let woken = receive-Woken (entry_of r) (current r) s h in
      let wakeable : IsWakeable first_done.knonrtd.state =
        rw woken (state_after-IsWakeable (keep (is_selected dest_port c) come) s.knonrtd.state h) in
      elim (Bool-cases (current r).own) [
        | inl hardware ↦ rw (hardware, rtl_rx) refl
        | inr driver ↦
            rw (driver, rtl_rx)
              (rtl_rx-Woken n (release r) first_done wakeable
                ∙ ap
                    (state_after
                      (keep (is_selected dest_port c) (arrivals c alloc_skb n (release r))))
                    woken
                ∙ state_after-append (keep (is_selected dest_port c) come) _ s.knonrtd.state
                ∙ ap (λ k. state_after k s.knonrtd.state)
                    (sym (keep-append (is_selected dest_port c) come _)))
      ]
