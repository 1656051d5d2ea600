-- ===== src/Framework/NonRt/Init.antt =====
-- Loading and unloading non_rt_bg.c and non_rt_pl.c: `non_rt_handler_init` and
-- `non_rt_handler_exit` of each.
use cros_rt.Base.{
  ◌≡◌, ◌⊎◌, Bool, true, false, not, ◌&&◌, if◌then◌else◌, Outcome, done, fault, ◌>>=◌, arith, subst,
}
use cros_rt.Framework.Threads.{
  ThreadPtr, Kthread, is_null, is_err, is_task, new_thread, deref, set_fifo, pin, StopsThreads,
  stop_live, StopsThreads-unique, is_fault,
}

-- `created` is what `kthread_run` returns. The functions return 0 on every path.
unfoldable pub background_init : (created : ThreadPtr) (pinned : Bool) → Outcome Kthread
unfolding pin
background_init created pinned =
    if is_null created then done (new_thread created) else pin pinned (new_thread created)

module _ (kthread_stop : Kthread → Outcome Kthread) where
  unfoldable pub server_init : (created : ThreadPtr) (fifo_set pinned : Bool) → Outcome Kthread
  unfolding set_fifo pin
  server_init created fifo_set pinned =
      if is_null created
      then done (new_thread created)
      else set_fifo fifo_set (new_thread created) >>= λ k.
          if not fifo_set then kthread_stop k else pin pinned k

  -- Both modules have the same one.
  unfoldable pub non_rt_handler_exit : Kthread → Outcome Kthread
  non_rt_handler_exit knonrtd = kthread_stop knonrtd

abbrev pub BackgroundLoaded : (Kthread → Outcome Kthread) → ThreadPtr → Bool → Type 0
BackgroundLoaded kthread_stop created pinned =
    ((is_err created ≡ true) × (background_init created pinned ≡ fault))
    ⊎ ((is_err created ≡ false)
        × ((k : Kthread) × (background_init created pinned ≡ done k)
            × (k.alive ≡ is_task created)
            × (k.pinned ≡ (is_task created && pinned))
            × (is_fault (non_rt_handler_exit kthread_stop k) ≡ not (is_task created))))

abbrev pub ServerLoaded : (Kthread → Outcome Kthread) → ThreadPtr → Bool → Bool → Type 0
ServerLoaded kthread_stop created fifo_set pinned =
    ((is_err created ≡ true) × (server_init kthread_stop created fifo_set pinned ≡ fault))
    ⊎ ((is_err created ≡ false)
        × ((k : Kthread) × (server_init kthread_stop created fifo_set pinned ≡ done k)
            × (k.alive ≡ (is_task created && fifo_set))
            × (k.fifo ≡ (is_task created && fifo_set))
            × (k.pinned ≡ (is_task created && (fifo_set && pinned)))
            × (is_fault (non_rt_handler_exit kthread_stop k) ≡ not (is_task created && fifo_set))))

stop_live-Loaded :
    (created : ThreadPtr) (fifo_set pinned : Bool)
    → BackgroundLoaded stop_live created pinned × ServerLoaded stop_live created fifo_set pinned
unfolding background_init server_init non_rt_handler_exit set_fifo pin deref stop_live
stop_live-Loaded created fifo_set pinned = (ground arith, ground arith)

module _ (kthread_stop : Kthread → Outcome Kthread) (law : StopsThreads kthread_stop) where
  -- An ERR_PTR makes loading non_rt_bg.c fault. Otherwise loading ends, the thread runs if it was
  -- created, and is pinned if that succeeded too; and unloading faults if it was not created.
  pub background_init_lem :
      (created : ThreadPtr) (pinned : Bool) → BackgroundLoaded kthread_stop created pinned
  background_init_lem created pinned =
      subst (λ f. BackgroundLoaded f created pinned) (StopsThreads-unique law)
        (stop_live-Loaded created true pinned).0

  -- For a `kthread_stop` that stops a running thread and faults on anything else: an ERR_PTR makes
  -- loading non_rt_pl.c fault. Otherwise loading ends, and the thread runs, with a policy of real
  -- time, if it was created and the policy could be set, and is pinned if that succeeded too; in
  -- every other case no thread runs and unloading faults.
  pub server_init_lem :
      (created : ThreadPtr) (fifo_set pinned : Bool)
      → ServerLoaded kthread_stop created fifo_set pinned
  server_init_lem created fifo_set pinned =
      subst (λ f. ServerLoaded f created fifo_set pinned) (StopsThreads-unique law)
        (stop_live-Loaded created fifo_set pinned).1
