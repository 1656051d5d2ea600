-- ===== src/Framework/RtHandler/Init.antt =====
-- Loading and unloading rt_handler.c: `rt_handler_init` with its error labels, `rt_handler_exit`.
use cros_rt.Base.{
  ◌≡◌, ◌⊎◌, Bool, true, false, not, ◌&&◌, ◌||◌, if◌then◌else◌, Outcome, done, fault, ◌>>=◌, arith,
  subst,
}
use cros_rt.Framework.Threads.{
  ThreadPtr, null_ptr, Kthread, is_null, is_err, is_task, new_thread, deref, set_fifo, pin,
  StopsThreads, stop_live, StopsThreads-unique, is_fault,
}

pub record Threads : Type 0 where
  pub krtd : Kthread
  pub kmond : Kthread

-- What `kthread_run` returns, and whether each call that may fail succeeds.
pub record Steps : Type 0 where
  pub krtd : ThreadPtr
  pub kmond : ThreadPtr
  pub fifo_set : Bool
  pub krtd_pinned : Bool
  pub kmond_pinned : Bool

module _ (kthread_stop : Kthread → Outcome Kthread) where
  -- The labels `kmond_err` and `err`, each falling through to the one before; `krtd_err` does nothing.
  unfoldable pub at_kmond_err : Threads → Outcome Threads
  at_kmond_err s = kthread_stop s.krtd >>= λ k. done (record s { krtd = k })

  unfoldable pub at_err : Threads → Outcome Threads
  unfolding at_kmond_err
  at_err s = kthread_stop s.kmond >>= λ k. at_kmond_err (record s { kmond = k })

  -- From the call of `sched_setscheduler` on.
  unfoldable pub set_up : Steps → Threads → Outcome Threads
  unfolding set_fifo pin at_err
  set_up c s = set_fifo c.fifo_set s.kmond >>= λ monitor.
      if not c.fifo_set
      then at_err (record s { kmond = monitor })
      else pin c.krtd_pinned s.krtd >>= λ handler.
          if not c.krtd_pinned
          then at_err (record { krtd = handler; kmond = monitor })
          else pin c.kmond_pinned monitor >>= λ pinned_monitor.
              if not c.kmond_pinned
              then at_err (record { krtd = handler; kmond = pinned_monitor })
              else done (record { krtd = handler; kmond = pinned_monitor })

  -- The function returns 0 on every path; the pointers are null before.
  unfoldable pub rt_handler_init : Steps → Outcome Threads
  unfolding set_up at_kmond_err
  rt_handler_init c =
      let s : Threads = record { krtd = new_thread c.krtd; kmond = new_thread null_ptr } in
      if is_null c.krtd
      then done s
      else let t = record s { kmond = new_thread c.kmond } in
        if is_null c.kmond then at_kmond_err t else set_up c t

  unfoldable pub rt_handler_exit : Threads → Outcome Threads
  rt_handler_exit s = kthread_stop s.krtd >>= λ handler.
      kthread_stop s.kmond >>= λ monitor. done (record { krtd = handler; kmond = monitor })

abbrev pub all_done : Steps → Bool
all_done c =
    is_task c.krtd && (is_task c.kmond && (c.fifo_set && (c.krtd_pinned && c.kmond_pinned)))

abbrev pub is_ready : Threads → Bool
is_ready s = s.krtd.alive && (s.krtd.pinned && (s.kmond.alive && (s.kmond.fifo && s.kmond.pinned)))

-- An ERR_PTR is taken for a thread.
abbrev pub unseen_error : Steps → Bool
unseen_error c = is_err c.krtd || is_task c.krtd && is_err c.kmond

abbrev pub Loaded : (Kthread → Outcome Kthread) → Steps → Type 0
Loaded kthread_stop c =
    ((unseen_error c ≡ true) × (rt_handler_init kthread_stop c ≡ fault))
    ⊎ ((unseen_error c ≡ false)
        × ((s : Threads) × (rt_handler_init kthread_stop c ≡ done s)
            × (is_ready s ≡ all_done c)
            × ((s.krtd.alive || s.kmond.alive) ≡ all_done c)
            × (is_fault (rt_handler_exit kthread_stop s) ≡ not (all_done c))))

stop_live-Loaded : (c : Steps) → Loaded stop_live c
unfolding rt_handler_init rt_handler_exit set_up set_fifo pin deref stop_live at_err at_kmond_err
stop_live-Loaded c = ground arith

-- For a `kthread_stop` that stops a running thread and faults on anything else: where `kthread_run`
-- answers with an ERR_PTR, for krtd, or for kmond after krtd is created, loading faults. Otherwise
-- loading ends, and if every step has succeeded then both threads run, pinned, and kmond with a
-- policy of real time, and unloading ends; and if a step has failed then no thread runs and
-- unloading, which is not prevented, faults.
pub rt_handler_init_lem :
    (kthread_stop : Kthread → Outcome Kthread)
    → StopsThreads kthread_stop
    → (c : Steps) → Loaded kthread_stop c
rt_handler_init_lem kthread_stop law c =
    subst (λ f. Loaded f c) (StopsThreads-unique law) (stop_live-Loaded c)
