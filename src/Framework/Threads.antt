-- ===== src/Framework/Threads.antt =====
-- What rt_handler.c, non_rt_bg.c and non_rt_pl.c do with kernel threads when they are loaded and
-- unloaded. What `kthread_run` returns, and whether a call succeeds, are arguments, and so is
-- `kthread_stop`, of which StopsThreads says what the modules rely on. A call on a pointer that is no
-- thread, or on a thread that is gone, is a fault.
use cros_rt.Base.{
  ◌≡◌, refl, inl, inr, Bool-cases, Bool, true, false, ◌&&◌, if◌then◌else◌, Outcome, done, fault,
  ◌>>=◌,
}

-- `kthread_run` returns a thread or an ERR_PTR; NULL is what the modules test for.
pub data ThreadPtr : Type 0 where
  null_ptr err_ptr task_ptr : ThreadPtr

pub record Kthread : Type 0 where
  pub ptr : ThreadPtr
  pub alive : Bool
  pub fifo : Bool
  pub pinned : Bool

abbrev pub is_null : ThreadPtr → Bool
is_null null_ptr = true
is_null _ = false

abbrev pub is_err : ThreadPtr → Bool
is_err err_ptr = true
is_err _ = false

abbrev pub is_task : ThreadPtr → Bool
is_task task_ptr = true
is_task _ = false

-- The pointer that `kthread_run` returned, with its new thread if it is one.
abbrev pub new_thread : ThreadPtr → Kthread
new_thread p = record { ptr = p; alive = is_task p; fifo = false; pinned = false }

abbrev pub is_live : Kthread → Bool
is_live k = is_task k.ptr && k.alive

-- The thread behind the pointer.
unfoldable pub deref : Kthread → Outcome Kthread
deref k = if is_live k then done k else fault

-- `sched_setscheduler(k, SCHED_FIFO, &param)` with priority 99, and whether it succeeds.
unfoldable pub set_fifo : Bool → Kthread → Outcome Kthread
unfolding deref
set_fifo succeeds k = deref k >>= λ k. done (if succeeds then record k { fifo = true } else k)

-- `set_cpus_allowed_ptr(k, &mask)` with a mask of CPU 0.
unfoldable pub pin : Bool → Kthread → Outcome Kthread
unfolding deref
pin succeeds k = deref k >>= λ k. done (if succeeds then record k { pinned = true } else k)

-- A thread that runs is told to stop and waited for; any other pointer is not to be used.
pub record StopsThreads (kthread_stop : Kthread → Outcome Kthread) : Type 0 where
  pub stops : (k : Kthread) → is_live k ≡ true → kthread_stop k ≡ done (record k { alive = false })
  pub gone : (k : Kthread) → is_live k ≡ false → kthread_stop k ≡ fault

unfoldable pub stop_live : Kthread → Outcome Kthread
unfolding deref
stop_live k = deref k >>= λ k. done (record k { alive = false })

pub stop_live-StopsThreads : StopsThreads stop_live
unfolding stop_live deref
stop_live-StopsThreads = record { stops = λ k h. rw h refl; gone = λ k h. rw h refl }

pub StopsThreads-unique :
    {kthread_stop : Kthread → Outcome Kthread}
    → StopsThreads kthread_stop
    → stop_live ≡ kthread_stop
unfolding stop_live deref
StopsThreads-unique {kthread_stop} law = λ i k. same k i
  where
    same : (k : Kthread) → stop_live k ≡ kthread_stop k
    same k = elim (Bool-cases (is_live k)) [
      | inl live ↦ rw (live, law.stops k live) refl
      | inr dead ↦ rw (dead, law.gone k dead) refl
    ]

abbrev pub is_fault : {A : Type 0} → Outcome A → Bool
is_fault fault = true
is_fault (done a) = false
