-- ===== src/Softirq.antt =====
-- kernel/softirq.c on one CPU: raising softirqs, `__do_softirq` with the deferral of NET_RX that
-- CROS-RT adds, ksoftirqd, and the way out of an interrupt. Interrupts that arrive while the handlers
-- run are not modelled; what a handler itself raises is. Accounting, lockdep and RCU are left out.
pub mod Passes
pub mod Laws
pub mod Exit
use cros_rt.Base.{
  ℕ, zero, suc, ◌+◌, Bool, true, false, not, ◌&&◌, ◌||◌, Option, none, some, ◌==◌, if◌then◌else◌,
}
use cros_rt.Sched.Task.{Task, state_match, wake_up_process}

abbrev pub nr_softirqs : ℕ
nr_softirqs = 10

abbrev pub net_rx_softirq : ℕ
net_rx_softirq = 3

abbrev pub max_softirq_restart : ℕ
max_softirq_restart = 10

-- The pending bits, by number; the counters of `kstat_incr_softirqs_this_cpu`; the daemon, once it is
-- created; and what the handlers work on.
pub record Cpu (D E : Type 0) : Type 0 where
  pub pending : ℕ → Bool
  pub kstat : ℕ → ℕ
  pub ksoftirqd : Option (Task D)
  pub env : E

-- Is there a bit among the `n` from `i` on?
unfoldable pub any_from : ℕ → ℕ → (ℕ → Bool) → Bool
any_from zero i pending = false
any_from (suc n) i pending = pending i || any_from n (suc i) pending

abbrev pub is_pending : (ℕ → Bool) → Bool
is_pending pending = any_from nr_softirqs 0 pending

abbrev pub asleep : {D : Type 0} → Option (Task D) → Bool
asleep none = false
asleep (some t) = state_match t.state

abbrev pub is_missing : {D : Type 0} → Option (Task D) → Bool
is_missing none = true
is_missing (some t) = false

unfoldable pub wake_daemon : {D : Type 0} → Option (Task D) → Option (Task D)
unfolding wake_up_process
wake_daemon none = none
wake_daemon (some t) = some (wake_up_process t).1

-- The test of CROS-RT: an interrupt leaves NET_RX to the daemon.
abbrev pub defers : ℕ → Bool → (ℕ → Bool) → Bool
defers ksoftirqd_test is_ksoftirqd pending =
    ksoftirqd_test == 1 && not is_ksoftirqd && pending net_rx_softirq

module _ {D E : Type 0} where
  unfoldable pub wakeup_softirqd : Cpu D E → Cpu D E
  unfolding wake_daemon
  wakeup_softirqd s = record s { ksoftirqd = wake_daemon s.ksoftirqd }

  -- `__raise_softirq_irqoff`
  unfoldable pub or_pending : ℕ → Cpu D E → Cpu D E
  or_pending nr s = record s { pending = λ i. s.pending i || nr == i }

  unfoldable pub raise_softirq_irqoff : Bool → ℕ → Cpu D E → Cpu D E
  unfolding or_pending wakeup_softirqd
  raise_softirq_irqoff in_interrupt nr s =
      if not in_interrupt then wakeup_softirqd (or_pending nr s) else or_pending nr s

  -- A handler is given by what it raises and what it does to the environment.
  module _ (action : ℕ → E → (ℕ → Bool) × E) where
    unfoldable pub enter : ℕ → Cpu D E → Cpu D E
    enter vec_nr s =
        let (raised, env) = action vec_nr s.env in
        record s {
          pending = λ i. s.pending i || raised i;
          kstat = λ i. if vec_nr == i then s.kstat i + 1 else s.kstat i;
          env = env;
        }

    -- The loop over the bits of `pending`, lowest first.
    unfoldable pub run_vectors : ℕ → ℕ → (ℕ → Bool) → Cpu D E → Cpu D E
    unfolding enter
    run_vectors zero vec_nr pending s = s
    run_vectors (suc n) vec_nr pending s =
        run_vectors n (suc vec_nr) pending (if pending vec_nr then enter vec_nr s else s)

    -- A pass without NET_RX, whose bit stays pending.
    unfoldable pub deferred_pass : Cpu D E → Cpu D E
    unfolding run_vectors
    deferred_pass s =
        run_vectors nr_softirqs 0 (λ i. if net_rx_softirq == i then false else s.pending i)
          (record s { pending = λ i. net_rx_softirq == i })

    unfoldable pub full_pass : Cpu D E → Cpu D E
    unfolding run_vectors
    full_pass s = run_vectors nr_softirqs 0 s.pending (record s { pending = λ i. false })

    -- `ksoftirqd_test` is the module's parameter, `is_ksoftirqd` tells whether the daemon is current,
    -- and `go_on` answers `time_before(jiffies, end) && !need_resched()` for each count of restarts.
    module _ (ksoftirqd_test : ℕ) (is_ksoftirqd : Bool) (go_on : ℕ → Bool) where
      -- From `restart:` on; the argument is `max_restart`, which the code starts at 10 and never
      -- restarts at 0.
      unfoldable pub restart : ℕ → Cpu D E → Cpu D E
      unfolding deferred_pass full_pass wakeup_softirqd any_from
      restart zero s = wakeup_softirqd s
      restart (suc max_restart) s =
          let t = full_pass s in
          elim (defers ksoftirqd_test is_ksoftirqd s.pending) [
            | true ↦ wakeup_softirqd (deferred_pass s)
            | false ↦ elim (is_pending t.pending) [
              | true ↦ elim (go_on max_restart && not (max_restart == 0)) [
                | true ↦ restart max_restart t
                | false ↦ wakeup_softirqd t
              ]
              | false ↦ t
            ]
          ]

      unfoldable pub do_softirq : Cpu D E → Cpu D E
      unfolding restart
      do_softirq s = restart max_softirq_restart s

    -- `run_ksoftirqd`
    unfoldable pub run_ksoftirqd : ℕ → (ℕ → Bool) → Cpu D E → Cpu D E
    unfolding do_softirq any_from
    run_ksoftirqd ksoftirqd_test go_on s =
        if is_pending s.pending then do_softirq ksoftirqd_test true go_on s else s

    -- `invoke_softirq`, in an interrupt of a task that is not ksoftirqd unless `is_ksoftirqd`.
    unfoldable pub invoke_softirq : Bool → ℕ → Bool → (ℕ → Bool) → Cpu D E → Cpu D E
    unfolding do_softirq wakeup_softirqd
    invoke_softirq force_irqthreads ksoftirqd_test is_ksoftirqd go_on s =
        if not force_irqthreads || is_missing s.ksoftirqd
        then do_softirq ksoftirqd_test is_ksoftirqd go_on s
        else wakeup_softirqd s

    -- `irq_exit`; `nested` tells whether another interrupt or softirq is still being served.
    unfoldable pub irq_exit : Bool → Bool → ℕ → Bool → (ℕ → Bool) → Cpu D E → Cpu D E
    unfolding invoke_softirq any_from
    irq_exit nested force_irqthreads ksoftirqd_test is_ksoftirqd go_on s =
        if not nested && is_pending s.pending
        then invoke_softirq force_irqthreads ksoftirqd_test is_ksoftirqd go_on s
        else s
