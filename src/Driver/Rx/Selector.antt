-- ===== src/Driver/Rx/Selector.antt =====
-- Where the message selector sends what the ring holds.
use cros_rt.Base.{
  ◌^◌, ◌<◌, ℕ, zero, suc, ◌+◌, ◌≡◌, refl, ap, sym, ◌∙◌, ◌⊎◌, inl, inr, Bool, false, not, ◌&&◌, ◌||◌,
  Option, none, some, List, [], ◌∷◌, ◌++◌, append-nil, append_assoc, if◌then◌else◌, ◌==◌, is_nil,
  feed, feed-append, Bool-cases, Option-cases, true_ne_false,
}
use cros_rt.Driver.SkbQueue.{SkbQueue}
use cros_rt.Driver.Rx.Ring.{Received, Received-stop, Received-release, release_word}
use cros_rt.Driver.Rx.{
  RxDesc, RxRing, RxConfig, Sink, RxStats, message_port, entry_of, current, release,
  fragmented_frame, bad_frame, pkt_size, wake_knonrtd, select, receive, rtl_rx,
}
use cros_rt.Sched.Task.{
  Task, TaskState, running, interruptible, uninterruptible, killable, waking, other, state_match,
  wake_up_process,
}

module _ {A : Type 0} (test : A → Bool) where
  abbrev pub keep : List A → List A
  keep [] = []
  keep (x ∷ l) = if test x then x ∷ keep l else keep l

  pub keep-append : (l m : List A) → keep (l ++ m) ≡ keep l ++ keep m
  keep-append [] m = refl
  keep-append (x ∷ l) m = elim (Bool-cases (test x)) [
    | inl yes_x ↦ rw yes_x (ap (λ k. x ∷ k) (keep-append l m))
    | inr no_x ↦ rw no_x (keep-append l m)
  ]

awake_between :
    {A : Type 0} (l m : List A) (before between : Bool)
    → ((is_nil l ≡ false) ⊎ (before ≡ false) → between ≡ false)
    → (is_nil (l ++ m) ≡ false) ⊎ (before ≡ false)
    → (is_nil m ≡ false) ⊎ (between ≡ false)
awake_between (x ∷ l) m before between f h = inr (f (inl refl))
awake_between [] m before between f (inl some_m) = inl some_m
awake_between [] m before between f (inr awake) = inr (f (inr awake))

wake_knonrtd-awake : {D : Type 0} (t : Task D) → state_match (wake_knonrtd t).state ≡ false
unfolding wake_knonrtd wake_up_process
wake_knonrtd-awake t = by_state t.state refl
  where
    by_state : (x : TaskState) → t.state ≡ x → state_match (wake_knonrtd t).state ≡ false
    by_state running e = rw e refl
    by_state interruptible e = rw e refl
    by_state uninterruptible e = rw e refl
    by_state killable e = rw e refl
    by_state waking e = rw e refl
    by_state other e = rw e refl

module _ {Skb : Type 0} (dest_port : Skb → ℕ) (c : RxConfig) where
  abbrev pub is_selected : Skb → Bool
  is_selected skb = c.krtd_on && dest_port skb == message_port

  abbrev pub is_default : Skb → Bool
  is_default skb = not (is_selected skb)

module _ {Skb : Type 0} (c : RxConfig) (alloc_skb : ℕ → ℕ → Option Skb) where
  -- The packet that a descriptor of the driver holds, if it is whole, good and can be allocated.
  abbrev pub arrived : ℕ → RxDesc → List Skb
  arrived entry d =
      if bad_frame c d || fragmented_frame d
      then []
      else elim (alloc_skb entry (pkt_size c d)) [ none ↦ [] | some skb ↦ skb ∷ [] ]

  -- The packets in the next `n` descriptors, up to the first one of the hardware.
  abbrev pub arrivals : ℕ → RxRing → List Skb
  arrivals zero r = []
  arrivals (suc n) r =
      let later = arrivals n (release r) in
      if (current r).own then [] else arrived (entry_of r) (current r) ++ later

module _ {Skb G D : Type 0} (api : SkbQueue Skb) (gro_receive : G → Skb → G) (dest_port : Skb → ℕ)
    (is_multicast : Skb → Bool) (c : RxConfig) (alloc_skb : ℕ → ℕ → Option Skb) where
  open api use {Head, packets}

  -- From `s` to `t` the packets of `l` for the message port are queued in order, the others go to
  -- GRO in order, and knonrtd is not asleep if one was queued.
  pub record Delivered (l : List Skb) (s t : Sink Head G D) : Type 0 where
    pub gro : t.gro ≡ feed gro_receive s.gro (keep (is_default dest_port c) l)
    pub queued : packets t.non_rt ≡ packets s.non_rt ++ keep (is_selected dest_port c) l
    pub awake :
        (is_nil (keep (is_selected dest_port c) l) ≡ false) ⊎ (state_match s.knonrtd.state ≡ false)
        → state_match t.knonrtd.state ≡ false

  nothing-Delivered :
      (s t : Sink Head G D)
      → t.gro ≡ s.gro
      → t.non_rt ≡ s.non_rt
      → t.knonrtd ≡ s.knonrtd
      → Delivered [] s t
  nothing-Delivered s t a b d = record {
    gro = a;
    queued = ap packets b ∙ sym (append-nil (packets s.non_rt));
    awake = λ h. elim h [
      | inl no_one ↦ absurd (true_ne_false no_one)
      | inr awake ↦ ap (λ x. state_match x.state) d ∙ awake
    ];
  }

  Delivered-append :
      (l m : List Skb) (s t u : Sink Head G D)
      → Delivered l s t
      → Delivered m t u
      → Delivered (l ++ m) s u
  Delivered-append l m s t u p q = record {
    gro =
        q.gro
        ∙ ap (λ g. feed gro_receive g (keep (is_default dest_port c) m)) p.gro
        ∙ sym (
            feed-append gro_receive s.gro (keep (is_default dest_port c) l)
              (keep (is_default dest_port c) m))
        ∙ ap (feed gro_receive s.gro) (sym (keep-append (is_default dest_port c) l m));
    queued =
        q.queued
        ∙ ap (λ k. k ++ keep (is_selected dest_port c) m) p.queued
        ∙ append_assoc (packets s.non_rt) (keep (is_selected dest_port c) l)
            (keep (is_selected dest_port c) m)
        ∙ ap (λ k. packets s.non_rt ++ k) (sym (keep-append (is_selected dest_port c) l m));
    awake = λ h. q.awake (
        awake_between (keep (is_selected dest_port c) l) (keep (is_selected dest_port c) m)
          (state_match s.knonrtd.state) (state_match t.knonrtd.state) p.awake
          (rw⁻¹ (keep-append (is_selected dest_port c) l m) h));
  }

  select-Delivered :
      (skb : Skb) (s : Sink Head G D)
      → Delivered (skb ∷ []) s (select api gro_receive dest_port is_multicast c skb s)
  unfolding select
  select-Delivered skb s = elim (Bool-cases (is_selected dest_port c skb)) [
    | inl sel ↦ record {
      gro = rw (sel, select) refl;
      queued = rw (sel, select) (api.tail_packets s.non_rt skb);
      awake = λ h. rw (sel, select) (wake_knonrtd-awake s.knonrtd);
    }
    | inr def ↦ record {
      gro = rw (def, select) refl;
      queued = rw (def, select) (sym (append-nil (packets s.non_rt)));
      awake =
          rw (def, select)
            (λ h. elim h [ inl no_one ↦ absurd (true_ne_false no_one) | inr awake ↦ awake ]);
    }
  ]

  -- The counters do not matter.
  recounted-Delivered :
      (l : List Skb) (s t : Sink Head G D) (before after : RxStats)
      → Delivered l (record s { stats = before }) t
      → Delivered l s (record t { stats = after })
  recounted-Delivered l s t before after p = record {
    gro = p.gro;
    queued = p.queued;
    awake = p.awake;
  }

  receive-Delivered :
      (entry : ℕ) (d : RxDesc) (s : Sink Head G D)
      → Delivered
          (arrived c alloc_skb entry d)
          s
          (receive api gro_receive dest_port is_multicast c alloc_skb entry d s)
  unfolding receive
  receive-Delivered entry d s = elim (Bool-cases (bad_frame c d)) [
    | inl bad ↦ rw (bad, receive) (nothing-Delivered s _ refl refl refl)
    | inr good ↦ elim (Bool-cases (fragmented_frame d)) [
      | inl part ↦ rw (good, part, receive) (nothing-Delivered s _ refl refl refl)
      | inr whole ↦ elim (Option-cases (alloc_skb entry (pkt_size c d))) [
        | inl no_room ↦ rw (good, whole, no_room, receive) (nothing-Delivered s _ refl refl refl)
        | inr (skb, got) ↦
            rw (good, whole, got, receive)
              (recounted-Delivered (skb ∷ []) s _ _ _ (select-Delivered skb _))
      ]
    ]
  ]

  -- Where `cur_rx` is a 32-bit number, `rtl_rx` with a budget goes over as many descriptors as the
  -- budget allows, or up to the first one of the hardware; `cur_rx` moves on by as many, each
  -- descriptor is as it was or the hardware's, and the mark of the ring's end stays. Of the whole
  -- and good frames in them for which a packet is allocated, those for the message port go to the
  -- non-RT queue in order if `krtd_on` is set, and knonrtd is then not asleep, and all others go
  -- to GRO in order.
  pub rtl_rx-Received :
      (n : ℕ) (r : RxRing) (s : Sink Head G D)
      → r.cur_rx < 2 ^ 32
      → (count : ℕ) × (t : RxRing) × (u : Sink Head G D) × (rtl_rx api gro_receive dest_port
            is_multicast c alloc_skb n r s
          ≡ (count, t, u))
        × Received n count r t
        × Delivered (arrivals c alloc_skb n r) s u
  unfolding rtl_rx
  rtl_rx-Received zero r s word =
      (0, r, s, refl, Received-stop 0 r word (inl refl), nothing-Delivered s s refl refl refl)
  rtl_rx-Received (suc n) r s word =
      let first_done =
        receive api gro_receive dest_port is_multicast c alloc_skb (entry_of r) (current r) s in
      let (count, t, u, run, ring, given) =
        rtl_rx-Received n (release r) first_done (release_word r) in
      elim (Bool-cases (current r).own) [
        | inl hardware ↦ (
          0,
          r,
          s,
          rw (hardware, rtl_rx) refl,
          Received-stop (suc n) r word (inr hardware),
          rw hardware (nothing-Delivered s s refl refl refl),
        )
        | inr driver ↦ (
          count + 1,
          t,
          u,
          rw (driver, run, rtl_rx) refl,
          Received-release n count r t ring,
          rw driver (
              Delivered-append _ _ s first_done u (receive-Delivered (entry_of r) (current r) s)
                given),
        )
      ]
