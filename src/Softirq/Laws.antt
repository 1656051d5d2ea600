-- ===== src/Softirq/Laws.antt =====
-- The pending softirqs before and after `__do_softirq`.
use cros_rt.Base.{
  true_ne_false, ℕ, zero, suc, ◌≡◌, refl, sym, ◌∙◌, inl, inr, Bool, true, false, not, ◌&&◌, ◌==◌,
  Bool-cases, arith,
}
use cros_rt.Softirq.{
  Cpu, net_rx_softirq, is_pending, defers, wakeup_softirqd, deferred_pass, full_pass, restart,
  do_softirq,
}
use cros_rt.Softirq.Passes.{
  Served, deferred-Ran, deferred-Served, full-Ran, full_woken, full_idle, full_then,
}

module _ {D E : Type 0} (action : ℕ → E → (ℕ → Bool) × E) where
  module _ (ksoftirqd_test : ℕ) (is_ksoftirqd : Bool) (go_on : ℕ → Bool) where
    -- A pass from which the code restarts needs what the restart does.
    pass-Served :
        (m : ℕ) (s : Cpu D E)
        → (go_on m && not (m == 0) ≡ true
            → Served action
                (full_pass action s)
                (restart action ksoftirqd_test is_ksoftirqd go_on m (full_pass action s)))
        → Served action s (restart action ksoftirqd_test is_ksoftirqd go_on (suc m) s)
    unfolding restart
    pass-Served m s later = elim (Bool-cases (defers ksoftirqd_test is_ksoftirqd s.pending)) [
      | inl deferred ↦ rw (deferred, restart) (deferred-Served action s)
      | inr whole ↦ elim (Bool-cases (is_pending (full_pass action s).pending)) [
        | inl more ↦ elim (Bool-cases (go_on m && not (m == 0))) [
          | inl again ↦ rw (whole, more, again, restart) (full_then action s _ (later again))
          | inr enough ↦ rw (whole, more, enough, restart) (full_woken action s)
        ]
        | inr none_left ↦ rw (whole, none_left, restart) (full_idle action s none_left)
      ]
    ]

    pub restart-Served :
        (m : ℕ) (s : Cpu D E)
        → Served action s (restart action ksoftirqd_test is_ksoftirqd go_on (suc m) s)
    restart-Served zero s = pass-Served 0 s (λ h. absurd (ground (arith, h)))
    restart-Served (suc m) s = pass-Served (suc m) s (λ h. restart-Served m (full_pass action s))

    -- `__do_softirq` loses no softirq: each one that is pending when it starts is run or still
    -- pending when it ends, and if any is pending when it ends, ksoftirqd is not asleep.
    pub do_softirq-Served :
        (s : Cpu D E) → Served action s (do_softirq action ksoftirqd_test is_ksoftirqd go_on s)
    unfolding do_softirq
    do_softirq-Served s = restart-Served 9 s

  -- NET_RX has not run, and is still pending if it was.
  pub record NetRxLeft (s t : Cpu D E) : Type 0 where
    pub not_run : t.kstat net_rx_softirq ≡ s.kstat net_rx_softirq
    pub still_pending : s.pending net_rx_softirq ≡ true → t.pending net_rx_softirq ≡ true

  deferred-NetRxLeft : (s : Cpu D E) → NetRxLeft s (wakeup_softirqd (deferred_pass action s))
  unfolding wakeup_softirqd
  deferred-NetRxLeft s =
      let r = deferred-Ran action s in
      record { not_run = r.skips 3 refl; still_pending = λ h. r.keeps 3 refl }

  module _ (go_on : ℕ → Bool) where
    abbrev test_restart : ℕ → Cpu D E → Cpu D E
    test_restart = restart action 1 false go_on

    absent-NetRxLeft :
        (s : Cpu D E) → s.pending net_rx_softirq ≡ false → NetRxLeft s (full_pass action s)
    absent-NetRxLeft s h =
        let r = full-Ran action s in
        record { not_run = r.skips 3 h; still_pending = λ k. absurd (true_ne_false (sym k ∙ h)) }

    NetRxLeft-trans :
        (s t u : Cpu D E)
        → s.pending net_rx_softirq ≡ false
        → NetRxLeft s t
        → NetRxLeft t u
        → NetRxLeft s u
    NetRxLeft-trans s t u h p q = record {
      not_run = q.not_run ∙ p.not_run;
      still_pending = λ k. absurd (true_ne_false (sym k ∙ h));
    }

    pass-NetRxLeft :
        (m : ℕ) (s : Cpu D E)
        → (go_on m && not (m == 0) ≡ true
            → NetRxLeft (full_pass action s) (test_restart m (full_pass action s)))
        → NetRxLeft s (test_restart (suc m) s)
    unfolding restart wakeup_softirqd
    pass-NetRxLeft m s later = elim (Bool-cases (s.pending net_rx_softirq)) [
      | inl set ↦ rw (set, restart) (deferred-NetRxLeft s)
      | inr clear ↦
          let first_pass = absent-NetRxLeft s clear in
          elim (Bool-cases (is_pending (full_pass action s).pending)) [
            | inl more ↦ elim (Bool-cases (go_on m && not (m == 0))) [
              | inl again ↦
                  rw (clear, more, again, restart)
                    (NetRxLeft-trans s _ _ clear first_pass (later again))
              | inr enough ↦
                  rw (clear, more, enough, restart)
                    (record {
                      not_run = first_pass.not_run;
                      still_pending = first_pass.still_pending;
                    })
            ]
            | inr none_left ↦ rw (clear, none_left, restart) first_pass
          ]
    ]

    restart-NetRxLeft : (m : ℕ) (s : Cpu D E) → NetRxLeft s (test_restart (suc m) s)
    restart-NetRxLeft zero s = pass-NetRxLeft 0 s (λ h. absurd (ground (arith, h)))
    restart-NetRxLeft (suc m) s =
        pass-NetRxLeft (suc m) s (λ h. restart-NetRxLeft m (full_pass action s))

    -- With `ksoftirqd_test` at 1 and another task than ksoftirqd current, `__do_softirq` never runs
    -- NET_RX, whatever its handlers raise; NET_RX stays pending if it was.
    pub do_softirq-NetRxLeft : (s : Cpu D E) → NetRxLeft s (do_softirq action 1 false go_on s)
    unfolding do_softirq
    do_softirq-NetRxLeft s = restart-NetRxLeft 9 s
