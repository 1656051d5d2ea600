-- ===== src/Softirq/Exit.antt =====
-- Leaving an interrupt, and ksoftirqd.
use cros_rt.Base.{
  true_ne_false, ℕ, zero, suc, ◌≤◌, ◌<◌, ◌≡◌, sym, ◌∙◌, ◌⊎◌, inl, inr, Bool, true, false, not, ◌&&◌,
  ◌||◌, ◌==◌, Bool-cases, arith,
}
use cros_rt.Softirq.{
  run_ksoftirqd, is_missing, Cpu, is_pending, defers, asleep, wakeup_softirqd, or_pending,
  raise_softirq_irqoff, full_pass, restart, do_softirq, invoke_softirq, irq_exit,
}
use cros_rt.Softirq.Passes.{any_from-false, wake_daemon-asleep, Served, full-Ran}
use cros_rt.Softirq.Laws.{restart-Served, do_softirq-Served}

never_defers :
    (ksoftirqd_test : ℕ) (pending : ℕ → Bool) → defers ksoftirqd_test true pending ≡ false
never_defers ksoftirqd_test pending = ground arith

module _ {D E : Type 0} (action : ℕ → E → (ℕ → Bool) × E) where
  module _ (force_irqthreads : Bool) (ksoftirqd_test : ℕ) (is_ksoftirqd : Bool) (go_on : ℕ → Bool)
      (nr : ℕ) (s : Cpu D E) where
    abbrev raised : Cpu D E
    raised = raise_softirq_irqoff true nr s

    abbrev left_irq : Cpu D E
    left_irq = irq_exit action false force_irqthreads ksoftirqd_test is_ksoftirqd go_on raised

    raised_pending : raised.pending nr ≡ true
    unfolding raise_softirq_irqoff or_pending
    raised_pending = ground arith

    some_pending : nr < 10 → is_pending raised.pending ≡ true
    some_pending lt = elim (Bool-cases (is_pending raised.pending)) [
      | inl e ↦ e
      | inr e ↦
          let no = any_from-false 10 0 raised.pending e nr (omega arith) lt in
          absurd (true_ne_false (sym raised_pending ∙ no))
    ]

    handled_by :
        (t : Cpu D E)
        → Served action raised t
        → nr < 10
        → (raised.kstat nr < t.kstat nr) ⊎ ((t.pending nr ≡ true) × (asleep t.ksoftirqd ≡ false))
    handled_by t served lt = elim (served.run_or_pending nr lt raised_pending) [
      | inl ran ↦ inl ran
      | inr left ↦ inr (left, served.awake nr lt left)
    ]

    -- A softirq that is raised in the outermost interrupt is run on the way out of it, or is then
    -- pending with a ksoftirqd that is not asleep.
    pub irq_exit-raise :
        nr < 10
        → (raised.kstat nr < left_irq.kstat nr)
          ⊎ ((left_irq.pending nr ≡ true) × (asleep left_irq.ksoftirqd ≡ false))
    unfolding irq_exit invoke_softirq
    irq_exit-raise lt = elim (Bool-cases (not force_irqthreads || is_missing raised.ksoftirqd)) [
      | inl here ↦
          rw (some_pending lt, here, irq_exit, invoke_softirq)
            (handled_by _ (do_softirq-Served action ksoftirqd_test is_ksoftirqd go_on raised) lt)
      | inr daemon ↦
          rw (some_pending lt, daemon, irq_exit, invoke_softirq)
            (inr (raised_pending, wake_daemon-asleep raised.ksoftirqd))
    ]

  module _ (ksoftirqd_test : ℕ) (is_ksoftirqd : Bool) (go_on : ℕ → Bool) where
    restart_counted :
        (m : ℕ) (s : Cpu D E) (i : ℕ)
        → go_on m && not (m == 0) ≡ true
        → s.kstat i ≤ (restart action ksoftirqd_test is_ksoftirqd go_on m s).kstat i
    restart_counted zero s i again = absurd (ground (arith, again))
    restart_counted (suc m) s i again =
        let served = restart-Served action ksoftirqd_test is_ksoftirqd go_on m s in served.counted i

    -- A first pass that defers nothing runs all that is pending.
    undeferred_run :
        (m : ℕ) (s : Cpu D E) (i : ℕ)
        → i < 10
        → s.pending i ≡ true
        → defers ksoftirqd_test is_ksoftirqd s.pending ≡ false
        → s.kstat i < (restart action ksoftirqd_test is_ksoftirqd go_on (suc m) s).kstat i
    unfolding restart wakeup_softirqd
    undeferred_run m s i lt h whole =
        let r = full-Ran action s in
        let ran : s.kstat i < (full_pass action s).kstat i = r.runs i (omega arith) lt h in
        elim (Bool-cases (is_pending (full_pass action s).pending)) [
          | inl more ↦ elim (Bool-cases (go_on m && not (m == 0))) [
            | inl again ↦
                rw (whole, more, again, restart)
                  (omega (arith, ran, restart_counted m (full_pass action s) i again))
            | inr enough ↦ rw (whole, more, enough, restart) ran
          ]
          | inr none_left ↦ rw (whole, none_left, restart) ran
        ]

  -- ksoftirqd runs every softirq that is pending when it gets the CPU, NET_RX as well, whether or not
  -- `ksoftirqd_test` is set.
  pub run_ksoftirqd_lem :
      (ksoftirqd_test : ℕ) (go_on : ℕ → Bool) (s : Cpu D E) (i : ℕ)
      → i < 10
      → s.pending i ≡ true
      → s.kstat i < (run_ksoftirqd action ksoftirqd_test go_on s).kstat i
  unfolding run_ksoftirqd do_softirq
  run_ksoftirqd_lem ksoftirqd_test go_on s i lt h = elim (Bool-cases (is_pending s.pending)) [
    | inl some_bit ↦
        rw (some_bit, run_ksoftirqd)
          (undeferred_run ksoftirqd_test true go_on 9 s i lt h
            (never_defers ksoftirqd_test s.pending))
    | inr no_bit ↦
        let no = any_from-false 10 0 s.pending no_bit i (omega arith) lt in
        absurd (true_ne_false (sym h ∙ no))
  ]
