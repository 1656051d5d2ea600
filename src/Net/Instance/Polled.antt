-- ===== src/Net/Instance/Polled.antt =====
-- What completing or ending a poll does to an instance that is not threaded.
use cros_rt.Base.{
  true_ne_false, if◌then◌else◌, ltb, sym, lt→ltb, ◌∙◌, ℕ, ◌≤◌, ◌<◌, ◌≡◌, refl, Bool, true, false,
  ◌||◌, inl, inr, Bool-cases, arith,
}
use cros_rt.Net.Instance.{
  Inst, Config, napi_enqueue, to_list, napi_schedule_prep, napi_schedule, napi_complete_done,
  after_poll, napi_poll_end,
}

module _ {G : Type 0} (held : G → Bool) (gro_flush : Bool → G → G) (gro_normal_list : G → G)
    (c : Config) where
  -- What completing a plain instance does to it.
  pub record Completed (n m : Inst G) : Type 0 where
    pub on_list : m.on_list ≡ n.state.missed
    pub sched : m.state.sched ≡ n.state.missed
    pub cleared : m.state.missed ≡ false
    pub npsvc : m.state.npsvc ≡ false
    pub in_busy_poll : m.state.in_busy_poll ≡ false
    pub threaded : m.state.threaded ≡ false

  pub complete_done-Completed :
      (work : ℕ) (n : Inst G)
      → n.state.npsvc ≡ false
      → n.state.in_busy_poll ≡ false
      → n.state.threaded ≡ false
      → Completed n (napi_complete_done held gro_flush gro_normal_list c work n).1
  unfolding napi_complete_done napi_enqueue to_list
  complete_done-Completed work n a b d = elim (Bool-cases n.state.missed) [
    | inl again ↦
        rw (a, b, d, again, napi_complete_done, napi_enqueue)
          (record {
            on_list = refl;
            sched = refl;
            cleared = refl;
            npsvc = refl;
            in_busy_poll = refl;
            threaded = refl;
          })
    | inr over ↦
        rw (a, b, d, over, napi_complete_done)
          (record {
            on_list = refl;
            sched = refl;
            cleared = refl;
            npsvc = refl;
            in_busy_poll = refl;
            threaded = refl;
          })
  ]

  -- What a poll does to a plain instance that has SCHED, when it ends: off any list with SCHED
  -- clear and no event missed since, or on a list with SCHED set.
  pub record Ended (m : Inst G) : Type 0 where
    pub one_list : m.on_list ≡ m.state.sched
    pub npsvc : m.state.npsvc ≡ false
    pub in_busy_poll : m.state.in_busy_poll ≡ false
    pub threaded : m.state.threaded ≡ false

  Completed-Ended : {n m : Inst G} → Completed n m → Ended m
  Completed-Ended k = record {
    one_list = k.on_list ∙ sym k.sched;
    npsvc = k.npsvc;
    in_busy_poll = k.in_busy_poll;
    threaded = k.threaded;
  }

  pub short-after_poll :
      (work : ℕ) (n : Inst G)
      → work < c.weight
      → napi_poll_end held gro_flush gro_normal_list c work n ≡ n
  unfolding napi_poll_end after_poll
  short-after_poll work n lt = rw (lt→ltb work c.weight lt, napi_poll_end, after_poll) refl

  schedule-Ended :
      (m : Inst G)
      → m.state.sched ≡ false
      → m.on_list ≡ false
      → m.state.npsvc ≡ false
      → m.state.in_busy_poll ≡ false
      → m.state.threaded ≡ false
      → Ended (napi_schedule m)
  unfolding napi_schedule napi_schedule_prep napi_enqueue to_list
  schedule-Ended m a b d e f = record {
    one_list = ground (arith, a, b, f);
    npsvc = ground (arith, a, d, f);
    in_busy_poll = ground (arith, a, e, f);
    threaded = ground (arith, a, f);
  }

  -- The same, with an event that was missed during the poll on the list.
  pub record Requeued (n m : Inst G) : Type 0 where
    pub ended : Ended m
    pub requeued : n.state.missed ≡ true → m.on_list ≡ true

  Completed-Requeued : {n m : Inst G} → Completed n m → Requeued n m
  Completed-Requeued k = record {
    ended = Completed-Ended k;
    requeued = λ missed. k.on_list ∙ missed;
  }

  missed_no_rearm :
      (work : ℕ) (n : Inst G)
      → n.state.missed ≡ true
      → (napi_complete_done held gro_flush gro_normal_list c work n).0 ≡ false
  unfolding napi_complete_done
  missed_no_rearm work n missed = elim (Bool-cases (n.state.npsvc || n.state.in_busy_poll)) [
    | inl other ↦ rw (other, napi_complete_done) refl
    | inr mine ↦ rw (mine, missed, napi_complete_done) refl
  ]

  rearm-Requeued :
      (work : ℕ) (n m : Inst G) (rearm : Bool)
      → Completed n m
      → (n.state.missed ≡ true → rearm ≡ false)
      → Requeued n (if rearm then napi_schedule m else m)
  rearm-Requeued work n m false k dry = Completed-Requeued k
  rearm-Requeued work n m true k dry = elim (Bool-cases n.state.missed) [
    | inl missed ↦ absurd (true_ne_false (dry missed))
    | inr over ↦ record {
      ended =
          schedule-Ended m (k.sched ∙ over) (k.on_list ∙ over) k.npsvc k.in_busy_poll k.threaded;
      requeued = λ missed. absurd (true_ne_false (dry missed));
    }
  ]

  module _ (work : ℕ) (n : Inst G) (full : c.weight ≤ work) (off : n.on_list ≡ false)
      (owned : n.state.sched ≡ true) (npsvc : n.state.npsvc ≡ false)
      (no_busy : n.state.in_busy_poll ≡ false) (plain : n.state.threaded ≡ false) where
    completed :
        (done_work : ℕ)
        → Completed n (napi_complete_done held gro_flush gro_normal_list c done_work n).1
    completed done_work = complete_done-Completed done_work n npsvc no_busy plain

    used : ltb work c.weight ≡ false
    used = ground arith

    abbrev ended : Inst G
    ended = napi_poll_end held gro_flush gro_normal_list c work n

    abbrev complete_done : ℕ → Bool × Inst G
    complete_done done_work = napi_complete_done held gro_flush gro_normal_list c done_work n

    poll_end_disabling : n.state.disable ≡ true → ended ≡ (complete_done 0).1
    unfolding napi_poll_end after_poll
    poll_end_disabling h = rw (used, h, napi_poll_end, after_poll) refl

    poll_end_prefers :
        n.state.disable ≡ false
        → n.state.prefer_busy_poll ≡ true
        → ended ≡ (
            if (complete_done work).0
            then napi_schedule (complete_done work).1
            else (complete_done work).1)
    unfolding napi_poll_end after_poll
    poll_end_prefers h k = rw (used, h, k, napi_poll_end, after_poll) refl

    repolled-Requeued :
        n.state.disable ≡ false → n.state.prefer_busy_poll ≡ false → Requeued n ended
    unfolding napi_poll_end after_poll
    repolled-Requeued h k = record {
      ended = record {
        one_list = rw (used, h, k, off, napi_poll_end, after_poll) (sym owned);
        npsvc = rw (used, h, k, off, napi_poll_end, after_poll) npsvc;
        in_busy_poll = rw (used, h, k, off, napi_poll_end, after_poll) no_busy;
        threaded = rw (used, h, k, off, napi_poll_end, after_poll) plain;
      };
      requeued = λ missed. rw (used, h, k, off, napi_poll_end, after_poll) refl;
    }

    pub poll_end-Requeued : Requeued n ended
    poll_end-Requeued = elim (Bool-cases n.state.disable) [
      | inl disabling ↦ rw (poll_end_disabling disabling) (Completed-Requeued (completed 0))
      | inr goes_on ↦ elim (Bool-cases n.state.prefer_busy_poll) [
        | inl prefers ↦
            rw (poll_end_prefers goes_on prefers)
              (rearm-Requeued work n _ _ (completed work) (missed_no_rearm work n))
        | inr again ↦ repolled-Requeued goes_on again
      ]
    ]
