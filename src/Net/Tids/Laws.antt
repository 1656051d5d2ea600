-- ===== src/Net/Tids/Laws.antt =====
-- What a wake-up by priority does to each task.
use cros_rt.Base.{
  ℕ, zero, suc, ◌+◌, ◌≡◌, refl, ap, sym, ◌∙◌, inl, inr, Bool, true, false, List, [], ◌∷◌, Option,
  none, some, arith, if◌then◌else◌, ◌&&◌, ◌||◌, Bool-cases,
}
use cros_rt.Base.Int.{ℤ, eqb_ℤ, eqb_ℤ_iff, eqb_ℤ_refl}
use cros_rt.Buckets.{Table, hash_size, put_bucket, delete_entry}
use cros_rt.Buckets.Laws.{put_bucket-put}
use cros_rt.Sched.Task.{Task, TaskState, running, interruptible, uninterruptible, wake_up_process}
use cros_rt.Net.Tids.{
  TidEntry, tid_of, add_tid_priority, remove_tid_priority, Tasks, wake_found, wake_entry,
  wake_bucket, wake_buckets, wake_up_by_priority,
}

-- Taking a thread out right after adding it restores the table.
pub remove-add :
    (hash : ℤ → ℕ) (tid priority : ℤ) (t : Table TidEntry)
    → remove_tid_priority hash tid (add_tid_priority hash true tid priority t) ≡ t
unfolding remove_tid_priority add_tid_priority delete_entry
remove-add hash tid priority t = rw (head, delete_head) (put_bucket-put t (hash tid) _)
  where
    entry : TidEntry
    entry = record { tid = tid; priority = priority }

    head : put_bucket t (hash tid) (entry ∷ t (hash tid)) (hash tid) ≡ entry ∷ t (hash tid)
    head = ground arith

    delete_head : delete_entry tid_of tid (entry ∷ t (hash tid)) ≡ t (hash tid)
    delete_head = rw (eqb_ℤ_refl tid, delete_entry) refl

-- Whether a list, or one of `n` buckets from bucket `b`, has the thread at the priority.
unfoldable pub listed : ℤ → ℤ → List TidEntry → Bool
listed prio k [] = false
listed prio k (e ∷ l) = (eqb_ℤ e.tid k && eqb_ℤ e.priority prio) || listed prio k l

unfoldable pub listed_from : ℤ → ℤ → Table TidEntry → ℕ → ℕ → Bool
unfolding listed
listed_from prio k t zero b = false
listed_from prio k t (suc n) b = listed prio k (t b) || listed_from prio k t n (b + 1)

abbrev pub awake : TaskState → TaskState
awake interruptible = running
awake uninterruptible = running
awake x = x

module _ {D : Type 0} where
  -- A task in one of these two states runs; any other, a killable sleeper too, stays as it is.
  abbrev pub wake : Option (Task D) → Option (Task D)
  wake none = none
  wake (some p) = some (record p { state = awake p.state })

  wake_twice : (o : Option (Task D)) → wake (wake o) ≡ wake o
  unfolding wake_up_process
  wake_twice none = refl
  wake_twice (some p) = ground arith

  wake_found_lem :
      (o : Option (Task D)) (tid k : ℤ) (tasks : Tasks D)
      → tasks tid ≡ o
      → wake_found o tid tasks k ≡ (if eqb_ℤ tid k then wake (tasks k) else tasks k)
  unfolding wake_found wake_up_process
  wake_found_lem none tid k tasks h = elim (Bool-cases (eqb_ℤ tid k)) [
    | inl hit ↦
        let at : tasks k ≡ none = ap tasks (sym ((eqb_ℤ_iff tid k).0 hit)) ∙ h in rw (hit, at) refl
    | inr miss ↦ rw miss refl
  ]
  wake_found_lem (some p) tid k tasks h = elim (Bool-cases (eqb_ℤ tid k)) [
    | inl hit ↦
        let at : tasks k ≡ some p = ap tasks (sym ((eqb_ℤ_iff tid k).0 hit)) ∙ h in ground arith
    | inr miss ↦ ground arith
  ]

  wake_entry_lem :
      (prio : ℤ) (e : TidEntry) (tasks : Tasks D) (k : ℤ)
      → wake_entry prio e tasks k
        ≡ (if eqb_ℤ e.tid k && eqb_ℤ e.priority prio then wake (tasks k) else tasks k)
  unfolding wake_entry
  wake_entry_lem prio e tasks k = ground (arith, wake_found_lem (tasks e.tid) e.tid k tasks refl)

  wake_bucket_lem :
      (prio : ℤ) (l : List TidEntry) (tasks : Tasks D) (k : ℤ)
      → wake_bucket prio l tasks k ≡ (if listed prio k l then wake (tasks k) else tasks k)
  unfolding wake_bucket listed
  wake_bucket_lem prio [] tasks k = refl
  wake_bucket_lem prio (e ∷ l) tasks k = ground (
    arith,
    wake_bucket_lem prio l (wake_entry prio e tasks) k,
    wake_entry_lem prio e tasks k,
    wake_twice (tasks k),
  )

  wake_buckets_lem :
      (prio : ℤ) (t : Table TidEntry) (n b : ℕ) (tasks : Tasks D) (k : ℤ)
      → wake_buckets prio t n b tasks k
        ≡ (if listed_from prio k t n b then wake (tasks k) else tasks k)
  unfolding wake_buckets listed_from
  wake_buckets_lem prio t zero b tasks k = refl
  wake_buckets_lem prio t (suc n) b tasks k = ground (
    arith,
    wake_buckets_lem prio t n (b + 1) (wake_bucket prio (t b) tasks) k,
    wake_bucket_lem prio (t b) tasks k,
    wake_twice (tasks k),
  )

  -- Of the threads that some bucket lists at the priority which the unset variable happens to hold,
  -- whatever priority the call is asked for, it sets running those whose state is exactly
  -- TASK_INTERRUPTIBLE or TASK_UNINTERRUPTIBLE; every other task stays as it was.
  pub wake_up_by_priority_lem :
      (prio priority : ℤ) (t : Table TidEntry) (tasks : Tasks D) (k : ℤ)
      → wake_up_by_priority prio priority t tasks k
        ≡ (if listed_from prio k t hash_size 0 then wake (tasks k) else tasks k)
  unfolding wake_up_by_priority
  wake_up_by_priority_lem prio priority t tasks k = wake_buckets_lem prio t hash_size 0 tasks k
