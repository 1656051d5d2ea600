-- ===== src/Net/Tids.antt =====
-- Thread priorities, net/core/dev.c: `tid_priority_map`, `add_tid_priority`, `remove_tid_priority`
-- and `wake_up_by_priority`. `hash` is `hash_min` at 8 bits; `printk` is left out.
pub mod Laws
use cros_rt.Base.{
  ℕ, zero, suc, ◌+◌, Bool, true, false, List, [], ◌∷◌, Option, none, some, ◌==◌, if◌then◌else◌,
  ◌&&◌,
}
use cros_rt.Base.Int.{ℤ, eqb_ℤ}
use cros_rt.Buckets.{Table, hash_size, put_bucket, delete_entry}
use cros_rt.Sched.Task.{Task, TaskState, interruptible, uninterruptible, wake_up_process}

-- `struct tid_entry`
pub record TidEntry : Type 0 where
  pub tid : ℤ
  pub priority : ℤ

abbrev pub tid_of : TidEntry → ℤ
tid_of e = e.tid

module _ (hash : ℤ → ℕ) where
  -- `allocated` tells whether `kmalloc` succeeds.
  unfoldable pub add_tid_priority : Bool → ℤ → ℤ → Table TidEntry → Table TidEntry
  add_tid_priority allocated tid priority t =
      if allocated
      then put_bucket t (hash tid) (record { tid = tid; priority = priority } ∷ t (hash tid))
      else t

  unfoldable pub remove_tid_priority : ℤ → Table TidEntry → Table TidEntry
  unfolding delete_entry
  remove_tid_priority tid t = put_bucket t (hash tid) (delete_entry tid_of tid (t (hash tid)))

-- `__state == TASK_INTERRUPTIBLE || __state == TASK_UNINTERRUPTIBLE`
abbrev pub is_asleep : TaskState → Bool
is_asleep interruptible = true
is_asleep uninterruptible = true
is_asleep _ = false

-- The tasks that `pid_task` finds, by thread id.
abbrev pub Tasks : Type 0 → Type 0
Tasks D = ℤ → Option (Task D)

module _ {D : Type 0} where
  abbrev pub put_task : Tasks D → ℤ → Task D → Tasks D
  put_task tasks tid p k = if eqb_ℤ tid k then some p else tasks k

  -- What `pid_task` finds for the thread id is woken in one of two states.
  unfoldable pub wake_found : Option (Task D) → ℤ → Tasks D → Tasks D
  unfolding wake_up_process
  wake_found none tid tasks = tasks
  wake_found (some p) tid tasks =
      if is_asleep p.state then put_task tasks tid (wake_up_process p).1 else tasks

  -- The body of the loop.
  unfoldable pub wake_entry : ℤ → TidEntry → Tasks D → Tasks D
  unfolding wake_found
  wake_entry prio e tasks =
      if eqb_ℤ e.priority prio then wake_found (tasks e.tid) e.tid tasks else tasks

  unfoldable pub wake_bucket : ℤ → List TidEntry → Tasks D → Tasks D
  unfolding wake_entry
  wake_bucket prio [] tasks = tasks
  wake_bucket prio (e ∷ l) tasks = wake_bucket prio l (wake_entry prio e tasks)

  -- `hash_for_each` over `n` buckets from bucket `b`.
  unfoldable pub wake_buckets : ℤ → Table TidEntry → ℕ → ℕ → Tasks D → Tasks D
  unfolding wake_bucket
  wake_buckets prio t zero b tasks = tasks
  wake_buckets prio t (suc n) b tasks = wake_buckets prio t n (b + 1) (wake_bucket prio (t b) tasks)

  -- The variable `prio` is read before it is set: it is an argument here, beside the parameter of
  -- the function, `priority`, which the function never reads.
  unfoldable pub wake_up_by_priority : ℤ → ℤ → Table TidEntry → Tasks D → Tasks D
  unfolding wake_buckets
  wake_up_by_priority prio priority t tasks = wake_buckets prio t hash_size 0 tasks
