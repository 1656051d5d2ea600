-- ===== src/Driver/Interrupt/Armed.antt =====
-- The driver's interrupts, and the poll or the timer that is to enable them again.
use cros_rt.Base.{
  true_ne_false, sym, ◌∙◌, ℕ, ◌≡◌, refl, Bool, true, false, not, ◌||◌, ◌&&◌, ◌⊎◌, inl, inr, ap, ◌∙◌,
  if_same, Option, none, some, ltb, ◌==◌, if◌then◌else◌, Bool-cases, Option-cases,
}
use cros_rt.Net.Instance.{
  Inst, Config, napi_schedule_prep, napi_enqueue, to_list, napi_complete_done, deferral,
  woken_state,
}
use cros_rt.Sched.Task.{TaskState, state_match}
use cros_rt.Driver.Interrupt.{
  Events, Irq, schedule_poll, interrupt, fifo_over, link_changed, poll_done,
}

abbrev pub is_set : Option ℕ → Bool
is_set none = false
is_set (some t) = true

woken-awake : (x : TaskState) → state_match (woken_state x) ≡ false
woken-awake x = elim (Bool-cases (state_match x)) [
  | inl asleep ↦ rw asleep refl
  | inr awake ↦ rw awake awake
]

module _ {G : Type 0} where
  -- The chip's interrupts are enabled, or the instance is scheduled, or its timer will go off.
  abbrev pub IsArmed : Irq G → Type 0
  IsArmed s = (s.irq_enabled ≡ true) ⊎ ((s.napi.state.sched ≡ true) ⊎ (is_set s.napi.timer ≡ true))

  enqueue-sched : (n : Inst G) → (napi_enqueue n).state.sched ≡ n.state.sched
  unfolding napi_enqueue to_list
  enqueue-sched n = elim (Bool-cases n.state.threaded) [
    | inl threaded ↦ elim (Option-cases n.thread) [
      | inl no_thread ↦ rw (threaded, no_thread, napi_enqueue) refl
      | inr (x, thread) ↦ rw (threaded, thread, napi_enqueue) refl
    ]
    | inr plain ↦ rw (plain, napi_enqueue) refl
  ]

  -- It is on a poll list with NET_RX raised, or its thread is not asleep.
  abbrev pub IsQueued : Inst G → Type 0
  IsQueued n =
      ((n.on_list ≡ true) × (n.net_rx_raised ≡ true))
      ⊎ ((x : TaskState) × (n.thread ≡ some x) × (state_match x ≡ false))

  enqueue-IsQueued : (n : Inst G) → IsQueued (napi_enqueue n)
  unfolding napi_enqueue to_list
  enqueue-IsQueued n = elim (Bool-cases n.state.threaded) [
    | inl threaded ↦ elim (Option-cases n.thread) [
      | inl no_thread ↦ rw (threaded, no_thread, napi_enqueue) (inl (refl, refl))
      | inr (x, thread) ↦
          rw (threaded, thread, napi_enqueue) (inr (woken_state x, refl, woken-awake x))
    ]
    | inr plain ↦ rw (plain, napi_enqueue) (inl (refl, refl))
  ]

  -- If the call masks the chip's interrupts, or schedules the instance, it has queued it.
  abbrev pub Queues : Irq G → Irq G → Type 0
  Queues s t =
      (s.irq_enabled ≡ true → t.irq_enabled ≡ false → IsQueued t.napi)
      × (s.napi.state.sched ≡ false → t.napi.state.sched ≡ true → IsQueued t.napi)

  Queues-refl : (s : Irq G) → Queues s s
  Queues-refl s = (
    λ on off. absurd (true_ne_false (sym on ∙ off)),
    λ off on. absurd (true_ne_false (sym on ∙ off)),
  )

  prep_cases :
      (n : Inst G)
      → (napi_schedule_prep n ≡ (false, n)) ⊎ ((napi_schedule_prep n).1.state.sched ≡ true)
  unfolding napi_schedule_prep
  prep_cases n = elim (Bool-cases n.state.disable) [
    | inl disabled ↦ inl (rw (disabled, napi_schedule_prep) refl)
    | inr enabled ↦ inr (rw (enabled, napi_schedule_prep) refl)
  ]

  schedule_poll-IsArmed : (s : Irq G) → IsArmed s → IsArmed (schedule_poll s)
  unfolding schedule_poll
  schedule_poll-IsArmed s h = elim (prep_cases s.napi) [
    | inl refused ↦ rw (refused, schedule_poll) h
    | inr taken ↦ elim (Bool-cases (napi_schedule_prep s.napi).0) [
      | inl prepared ↦
          rw (prepared, schedule_poll)
            (inr (inl (enqueue-sched (napi_schedule_prep s.napi).1 ∙ taken)))
      | inr missed ↦ rw (missed, schedule_poll) (inr (inl taken))
    ]
  ]

  -- A call that is refused had found the instance scheduled, or disabled.
  refused_sched :
      (n : Inst G)
      → (napi_schedule_prep n).0 ≡ false
      → n.state.sched ≡ false
      → (napi_schedule_prep n).1.state.sched ≡ false
  unfolding napi_schedule_prep
  refused_sched n h off = elim (Bool-cases n.state.disable) [
    | inl disabled ↦ rw (disabled, napi_schedule_prep) off
    | inr enabled ↦ absurd (true_ne_false (rw (enabled, napi_schedule_prep, off) at h))
  ]

  schedule_poll-Queues : (s : Irq G) → Queues s (schedule_poll s)
  unfolding schedule_poll
  schedule_poll-Queues s = elim (Bool-cases (napi_schedule_prep s.napi).0) [
    | inl prepared ↦
        let queued = enqueue-IsQueued (napi_schedule_prep s.napi).1 in
        rw (prepared, schedule_poll) (λ on off. queued, λ off on. queued)
    | inr refused ↦
        rw (refused, schedule_poll)
          (
            λ on off. absurd (true_ne_false (sym on ∙ off)),
            λ off on. absurd (true_ne_false (sym on ∙ refused_sched s.napi refused off)),
          )
  ]

  link_changed-IsArmed : (e : Events) (s : Irq G) → IsArmed s → IsArmed (link_changed e s)
  link_changed-IsArmed e s h = elim (Bool-cases e.link_chg) [
    | inl changed ↦ rw changed h
    | inr same ↦ rw same h
  ]

  fifo_over-IsArmed :
      (version_11 : Bool) (e : Events) (s : Irq G) → IsArmed s → IsArmed (fifo_over version_11 e s)
  fifo_over-IsArmed version_11 e s h = elim (Bool-cases (e.rx_fifo_over && version_11)) [
    | inl over ↦ rw over h
    | inr not_over ↦ rw not_over h
  ]

  irq_stays-IsArmed :
      (version_11 : Bool) (e : Events) (s : Irq G)
      → IsArmed s
      → IsArmed (interrupt version_11 e s).1
  unfolding interrupt
  irq_stays-IsArmed version_11 e s h = elim (Bool-cases (e.all_ones || not e.wanted)) [
    | inl not_ours ↦ rw (not_ours, interrupt) h
    | inr ours ↦ elim (Bool-cases e.sys_err) [
      | inl broken ↦ rw (ours, broken, interrupt) h
      | inr well ↦
          rw (ours, well, interrupt)
            (schedule_poll-IsArmed (fifo_over version_11 e (link_changed e s))
              (fifo_over-IsArmed version_11 e (link_changed e s) (link_changed-IsArmed e s h)))
    ]
  ]

  -- What the two tests before the scheduling leave alone.
  untouched :
      (version_11 : Bool) (e : Events) (s : Irq G)
      → ((fifo_over version_11 e (link_changed e s)).irq_enabled ≡ s.irq_enabled)
        × ((fifo_over version_11 e (link_changed e s)).napi ≡ s.napi)
  untouched version_11 e s = elim (Bool-cases e.link_chg) [
    | inl changed ↦ elim (Bool-cases (e.rx_fifo_over && version_11)) [
      | inl over ↦ rw (changed, over) (refl, refl)
      | inr fits ↦ rw (changed, fits) (refl, refl)
    ]
    | inr same ↦ elim (Bool-cases (e.rx_fifo_over && version_11)) [
      | inl over ↦ rw (same, over) (refl, refl)
      | inr fits ↦ rw (same, fits) (refl, refl)
    ]
  ]

  interrupt-Queues :
      (version_11 : Bool) (e : Events) (s : Irq G) → Queues s (interrupt version_11 e s).1
  unfolding interrupt
  interrupt-Queues version_11 e s = elim (Bool-cases (e.all_ones || not e.wanted)) [
    | inl not_ours ↦ rw (not_ours, interrupt) (Queues-refl s)
    | inr ours ↦ elim (Bool-cases e.sys_err) [
      | inl broken ↦ rw (ours, broken, interrupt) (Queues-refl s)
      | inr well ↦
          rw (ours, well, interrupt)
            (let t = fifo_over version_11 e (link_changed e s) in
              let q = schedule_poll-Queues t in
              let kept = untouched version_11 e s in
              (
                λ on off. q.0 (kept.0 ∙ on) off,
                λ off on. q.1 (ap (λ n. n.state.sched) kept.1 ∙ off) on,
              ))
    ]
  ]

  -- If the chip's interrupts are enabled, or the instance is scheduled, or its timer is set, then
  -- one of these holds after an interrupt, whatever it reports. And if the interrupt masks the chip's
  -- interrupts, or schedules an instance that was not scheduled, then the instance is on a poll list
  -- with NET_RX raised, or its thread is not asleep.
  pub interrupt-IsArmed :
      (version_11 : Bool) (e : Events) (s : Irq G)
      → (IsArmed s → IsArmed (interrupt version_11 e s).1)
        × (s.irq_enabled ≡ true
            → (interrupt version_11 e s).1.irq_enabled ≡ false
            → IsQueued (interrupt version_11 e s).1.napi)
        × (s.napi.state.sched ≡ false
            → (interrupt version_11 e s).1.napi.state.sched ≡ true
            → IsQueued (interrupt version_11 e s).1.napi)
  interrupt-IsArmed version_11 e s =
      let queues = interrupt-Queues version_11 e s in
      (irq_stays-IsArmed version_11 e s, queues.0, queues.1)

  after_done :
      (s : Irq G) (ok : Bool) (m : Inst G)
      → IsArmed s
      → (ok ≡ true) ⊎ ((m ≡ s.napi) ⊎ ((m.state.sched ≡ true) ⊎ (is_set m.timer ≡ true)))
      → IsArmed (record s { napi = m; irq_enabled = if ok then true else s.irq_enabled })
  after_done s ok m h (inl rearm) = inl (rw rearm refl)
  after_done s ok m (inl on) (inr (inl same)) = inl (rw on (if_same ok true))
  after_done s ok m (inr (inl owned)) (inr (inl same)) =
      inr (inl (ap (λ n. n.state.sched) same ∙ owned))
  after_done s ok m (inr (inr timed)) (inr (inl same)) =
      inr (inr (ap (λ n. is_set n.timer) same ∙ timed))
  after_done s ok m h (inr (inr (inl owned))) = inr (inl owned)
  after_done s ok m h (inr (inr (inr timed))) = inr (inr timed)

  module _ (held : G → Bool) (gro_flush : Bool → G → G) (gro_normal_list : G → G) (c : Config) where
    abbrev completed : ℕ → Inst G → Bool × Inst G
    completed work_done n = napi_complete_done held gro_flush gro_normal_list c work_done n

    -- Either interrupts may be enabled, or there is a timeout.
    deferral_cases :
        (work_done : ℕ) (n : Inst G)
        → ((deferral held gro_flush gro_normal_list c work_done n).2 ≡ true)
          ⊎ ((deferral held gro_flush gro_normal_list c work_done n).1 == 0 ≡ false)
    unfolding deferral
    deferral_cases work_done n =
        elim (Bool-cases (
          ltb 0
            (if not (work_done == 0) then c.napi_defer_hard_irqs else n.defer_hard_irqs_count))) [
              | inl deferred ↦ elim (Bool-cases (c.gro_flush_timeout == 0)) [
                | inl at_once ↦ inl (rw (deferred, at_once, deferral) refl)
                | inr later ↦ inr (rw (deferred, later, deferral) refl)
              ]
              | inr now ↦ inl (rw (now, deferral) refl)
            ]

    -- Completing leaves the instance scheduled, or says that interrupts may be enabled, or sets the
    -- timer.
    complete_done_cases :
        (work_done : ℕ) (n : Inst G)
        → ((completed work_done n).0 ≡ true)
          ⊎ (((completed work_done n).1 ≡ n)
              ⊎ (((completed work_done n).1.state.sched ≡ true)
                  ⊎ (is_set (completed work_done n).1.timer ≡ true)))
    unfolding napi_complete_done napi_enqueue to_list
    complete_done_cases work_done n = elim (Bool-cases (n.state.npsvc || n.state.in_busy_poll)) [
      | inl other_owner ↦ inr (inl (rw (other_owner, napi_complete_done) refl))
      | inr ours ↦ elim (Bool-cases n.state.missed) [
        | inl missed ↦ inr (
            inr (
              inl (elim (Bool-cases n.state.threaded) [
                | inl threaded ↦ elim (Option-cases n.thread) [
                  | inl no_thread ↦
                      rw (ours, missed, threaded, no_thread, napi_complete_done, napi_enqueue)
                        missed
                  | inr (x, thread) ↦
                      rw (ours, missed, threaded, thread, napi_complete_done, napi_enqueue) missed
                ]
                | inr plain ↦ rw (ours, missed, plain, napi_complete_done, napi_enqueue) refl
              ])))
        | inr over ↦ elim (deferral_cases work_done n) [
          | inl rearm ↦ inl (rw (ours, over, rearm, napi_complete_done) refl)
          | inr later ↦ inr (inr (inr (rw (ours, over, later, napi_complete_done) refl)))
        ]
      ]
    ]

    -- If the chip's interrupts are enabled, or the instance is scheduled, or its timer is set,
    -- then one of these holds after the poll function ends, after any amount of work.
    pub poll_done-IsArmed :
        (budget work_done : ℕ) (s : Irq G)
        → IsArmed s
        → IsArmed (poll_done held gro_flush gro_normal_list c budget work_done s)
    unfolding poll_done
    poll_done-IsArmed budget work_done s h = elim (Bool-cases (ltb work_done budget)) [
      | inl short ↦
          rw (short, poll_done) (after_done s _ _ h (complete_done_cases work_done s.napi))
      | inr full ↦ rw (full, poll_done) h
    ]
