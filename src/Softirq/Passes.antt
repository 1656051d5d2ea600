-- ===== src/Softirq/Passes.antt =====
-- What one pass over the pending softirqs does.
use cros_rt.Base.{
  true_ne_false, ◌≢◌, ℕ, zero, suc, ◌+◌, ◌≤◌, ◌<◌, ◌≡◌, refl, ap, sym, ◌∙◌, ◌⊎◌, inl, inr, Bool,
  true, false, Option, none, some, ◌==◌, if◌then◌else◌, Bool-cases, arith,
}
use cros_rt.Sched.Task.{
  Task, TaskState, running, interruptible, uninterruptible, killable, waking, other, state_match,
  wake_up_process,
}
use cros_rt.Softirq.{
  Cpu, net_rx_softirq, any_from, is_pending, asleep, wake_daemon, wakeup_softirqd, enter,
  run_vectors, deferred_pass, full_pass,
}

pub any_from-false :
    (n i : ℕ) (pending : ℕ → Bool)
    → any_from n i pending ≡ false
    → (j : ℕ) → i ≤ j
    → j < i + n
    → pending j ≡ false
unfolding any_from
any_from-false zero i pending h j lo hi = absurd (omega (arith, lo, hi))
any_from-false (suc n) i pending h j lo hi = elim (Bool-cases (i == j)) [
  | inl same ↦ let e : i ≡ j = ground arith in rw⁻¹ e (ground (arith, h))
  | inr differ ↦
      any_from-false n (suc i) pending (ground (arith, h)) j (ground arith) (omega (arith, hi))
]

module _ {D : Type 0} where
  pub wake_daemon-asleep : (o : Option (Task D)) → asleep (wake_daemon o) ≡ false
  unfolding wake_daemon wake_up_process
  wake_daemon-asleep none = refl
  wake_daemon-asleep (some t) = by_state t.state refl
    where
      by_state : (x : TaskState) → t.state ≡ x → state_match (wake_up_process t).1.state ≡ false
      by_state running e = rw e refl
      by_state interruptible e = rw e refl
      by_state uninterruptible e = rw e refl
      by_state killable e = rw e refl
      by_state waking e = rw e refl
      by_state other e = rw e refl

module _ {D E : Type 0} (action : ℕ → E → (ℕ → Bool) × E) where
  -- What the loop over the bits from `lo` to `hi` of `pending` does from `s` to `t`.
  pub record Ran (lo hi : ℕ) (pending : ℕ → Bool) (s t : Cpu D E) : Type 0 where
    pub counted : (i : ℕ) → s.kstat i ≤ t.kstat i
    pub keeps : (i : ℕ) → s.pending i ≡ true → t.pending i ≡ true
    pub runs : (i : ℕ) → lo ≤ i → i < hi → pending i ≡ true → s.kstat i < t.kstat i
    pub skips : (i : ℕ) → pending i ≡ false → t.kstat i ≡ s.kstat i
    pub daemon : t.ksoftirqd ≡ s.ksoftirqd

  enter_counted : (vec i : ℕ) (s : Cpu D E) → s.kstat i ≤ (enter action vec s).kstat i
  unfolding enter
  enter_counted vec i s = ground arith

  enter_keeps :
      (vec i : ℕ) (s : Cpu D E) → s.pending i ≡ true → (enter action vec s).pending i ≡ true
  unfolding enter
  enter_keeps vec i s h = rw h refl

  enter_here : (vec : ℕ) (s : Cpu D E) → (enter action vec s).kstat vec ≡ s.kstat vec + 1
  unfolding enter
  enter_here vec s = ground arith

  enter_elsewhere : (vec i : ℕ) (s : Cpu D E) → vec ≢ i → (enter action vec s).kstat i ≡ s.kstat i
  unfolding enter
  enter_elsewhere vec i s n = ground (arith, n)

  enter_daemon : (vec : ℕ) (s : Cpu D E) → (enter action vec s).ksoftirqd ≡ s.ksoftirqd
  unfolding enter
  enter_daemon vec s = refl

  module _ (n vec : ℕ) (pending : ℕ → Bool) (s : Cpu D E) where
    Ran-enter :
        {t : Cpu D E}
        → Ran (suc vec) (suc vec + n) pending (enter action vec s) t
        → pending vec ≡ true
        → Ran vec (vec + suc n) pending s t
    Ran-enter r hit = record {
      counted = λ i. omega (arith, enter_counted vec i s, r.counted i);
      keeps = λ i h. r.keeps i (enter_keeps vec i s h);
      runs = λ i lo hi h. elim (Bool-cases (vec == i)) [
        | inl same ↦
            let e : vec ≡ i = ground arith in
            rw⁻¹ e (omega (arith, enter_here vec s, r.counted vec))
        | inr differ ↦
            omega (arith, r.runs i (ground arith) (omega (arith, hi)) h, enter_counted vec i s)
      ];
      skips = λ i h.
          r.skips i h ∙ enter_elsewhere vec i s (λ e. true_ne_false (sym hit ∙ ap pending e ∙ h));
      daemon = r.daemon ∙ enter_daemon vec s;
    }

    Ran-skip :
        {t : Cpu D E}
        → Ran (suc vec) (suc vec + n) pending s t
        → pending vec ≡ false
        → Ran vec (vec + suc n) pending s t
    Ran-skip r miss = record {
      counted = r.counted;
      keeps = r.keeps;
      runs = λ i lo hi h. elim (Bool-cases (vec == i)) [
        | inl same ↦
            let e : vec ≡ i = ground arith in
            absurd (true_ne_false (sym h ∙ ap pending (sym e) ∙ miss))
        | inr differ ↦ r.runs i (ground arith) (omega (arith, hi)) h
      ];
      skips = r.skips;
      daemon = r.daemon;
    }

  run_vectors-Ran :
      (n vec : ℕ) (pending : ℕ → Bool) (s : Cpu D E)
      → Ran vec (vec + n) pending s (run_vectors action n vec pending s)
  unfolding run_vectors
  run_vectors-Ran zero vec pending s = record {
    counted = λ i. omega arith;
    keeps = λ i h. h;
    runs = λ i lo hi h. absurd (omega (arith, lo, hi));
    skips = λ i h. refl;
    daemon = refl;
  }
  run_vectors-Ran (suc n) vec pending s = elim (Bool-cases (pending vec)) [
    | inl hit ↦
        rw (hit, run_vectors)
          (Ran-enter n vec pending s (run_vectors-Ran n (suc vec) pending (enter action vec s)) hit)
    | inr miss ↦
        rw (miss, run_vectors)
          (Ran-skip n vec pending s (run_vectors-Ran n (suc vec) pending s) miss)
  ]

  -- From `s` to `t` no softirq is lost: one that is pending is run or stays pending, and one that
  -- is pending at the end has a daemon that is not asleep.
  pub record Served (s t : Cpu D E) : Type 0 where
    pub counted : (i : ℕ) → s.kstat i ≤ t.kstat i
    pub run_or_pending :
        (i : ℕ) → i < 10 → s.pending i ≡ true → (s.kstat i < t.kstat i) ⊎ (t.pending i ≡ true)
    pub awake : (i : ℕ) → i < 10 → t.pending i ≡ true → asleep t.ksoftirqd ≡ false

  pub deferred-Ran :
      (s : Cpu D E)
      → Ran 0 10
          (λ i. if net_rx_softirq == i then false else s.pending i)
          (record s { pending = λ i. net_rx_softirq == i })
          (deferred_pass action s)
  unfolding deferred_pass
  deferred-Ran s = run_vectors-Ran 10 0 _ _

  pub deferred-Served : (s : Cpu D E) → Served s (wakeup_softirqd (deferred_pass action s))
  unfolding wakeup_softirqd
  deferred-Served s =
      let r = deferred-Ran s in
      record {
        counted = r.counted;
        run_or_pending = λ i lt h. elim (Bool-cases (net_rx_softirq == i)) [
          | inl same ↦ inr (r.keeps i same)
          | inr other_bit ↦ inl (r.runs i (omega arith) lt (rw (other_bit, h) refl))
        ];
        awake = λ i lt h. wake_daemon-asleep (deferred_pass action s).ksoftirqd;
      }

  pub full-Ran :
      (s : Cpu D E) → Ran 0 10 s.pending (record s { pending = λ i. false }) (full_pass action s)
  unfolding full_pass
  full-Ran s = run_vectors-Ran 10 0 _ _

  pub full_woken : (s : Cpu D E) → Served s (wakeup_softirqd (full_pass action s))
  unfolding wakeup_softirqd
  full_woken s =
      let r = full-Ran s in
      record {
        counted = r.counted;
        run_or_pending = λ i lt h. inl (r.runs i (omega arith) lt h);
        awake = λ i lt h. wake_daemon-asleep (full_pass action s).ksoftirqd;
      }

  pub full_idle :
      (s : Cpu D E)
      → is_pending (full_pass action s).pending ≡ false
      → Served s (full_pass action s)
  full_idle s none_left =
      let r = full-Ran s in
      record {
        counted = r.counted;
        run_or_pending = λ i lt h. inl (r.runs i (omega arith) lt h);
        awake = λ i lt h.
            absurd (true_ne_false (sym h ∙ any_from-false 10 0 _ none_left i (omega arith) lt));
      }

  pub full_then : (s t : Cpu D E) → Served (full_pass action s) t → Served s t
  full_then s t later =
      let r = full-Ran s in
      record {
        counted = λ i. omega (arith, r.counted i, later.counted i);
        run_or_pending =
            λ i lt h. inl (omega (arith, r.runs i (omega arith) lt h, later.counted i));
        awake = later.awake;
      }
