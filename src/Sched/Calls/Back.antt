-- ===== src/Sched/Calls/Back.antt =====
-- Writing back the attributes that have been read.
use cros_rt.Base.{ap, ◌∙◌, ℕ, ◌≤◌, ◌≡◌, refl, true, false, some, arith, leb, if◌then◌else◌}
use cros_rt.Base.Int.{pos}
use cros_rt.Sched.Task.{Task, dl_policy}
use cros_rt.Sched.Setscheduler.{
  Flags, success, Answers, sched_setscheduler_attr, resolve, set_resolved, task_nice,
}
use cros_rt.Sched.Setscheduler.Laws.{IsConsistent}
use cros_rt.Sched.Setscheduler.Success.{Agrees}
use cros_rt.Sched.Abi.{mapped, RawAttr, UserAttr, good, clamp_nice, page_size}
use cros_rt.Sched.Calls.{
  Threads, target, sched_copy_attr, with_thread, get_params, set_copied, set_checked,
  sys_sched_setattr, put_thread, to_attr,
}
use cros_rt.Sched.Calls.Kept.{put_thread_same}
use cros_rt.Sched.Calls.Read.{kernel_attr, sys_sched_getattr}
use cros_rt.Sched.Calls.Copies.{
  policy_of_number, policy_number-small, IsNice, clamp_nice-eq, Copies, write_back,
  write_back_succeeds, kernel_attr-Copies,
}

module _ {D : Type 0} where
  module _ (getparam_dl : Task D → RawAttr D → RawAttr D) (zero : D) where
    -- What sched_getattr writes for a task and a size of the memory.
    abbrev pub attr_read : ℕ → Task D → ℕ × RawAttr D
    attr_read usize p = (if leb usize 56 then usize else 56, kernel_attr getparam_dl zero p)

    -- The same in user memory, copied from there as it is.
    abbrev pub attr_held : ℕ × RawAttr D → UserAttr D
    attr_held k = record { size = k.0; copy = λ _. good k.1 }

    clamped-Copies :
        (k : RawAttr D) (p : Task D)
        → IsNice (task_nice p)
        → Copies k p
        → Copies (record k { sched_nice = clamp_nice k.sched_nice }) p
    clamped-Copies k p nice same = record {
      number = same.number;
      no_keep = same.no_keep;
      flags = same.flags;
      nice = λ fair. ap clamp_nice (same.nice fair) ∙ clamp_nice-eq (task_nice p) nice;
      priority = same.priority;
      no_priority = same.no_priority;
    }

    copy_held :
        (usize : ℕ) (p : Task D)
        → 48 ≤ usize
        → Copies (kernel_attr getparam_dl zero p) p
        → sched_copy_attr (mapped (attr_held (attr_read usize p)))
          ≡ good (record (kernel_attr getparam_dl zero p) {
            sched_nice = clamp_nice (kernel_attr getparam_dl zero p).sched_nice;
          })
    unfolding sched_copy_attr
    copy_held usize p lo same = let u = ap (λ (f : Flags). f.util_clamp) same.flags in ground arith

    module _ (a : Answers D) (sec : Task D → ℕ) (s : Threads D) (pid : ℕ) (p : Task D)
        (here : s.thread (target s pid) ≡ some p) (agrees : sec p ≡ 0)
        (no_dl : dl_policy p.policy ≡ false) (c : IsConsistent p) (nice : IsNice (task_nice p))
        (usize : ℕ) (lo : 48 ≤ usize) (hi : usize ≤ page_size) where
      getattr_lem :
          (old : ℕ × RawAttr D)
          → sys_sched_getattr sec getparam_dl zero (pos pid) (mapped old) usize 0 s
            ≡ (success, mapped (attr_read usize p))
      unfolding sys_sched_getattr
      getattr_lem old = ground (arith, here, agrees)

      resolved :
          (k : RawAttr D)
          → Copies k p
          → sched_setscheduler_attr a true true (to_attr k) p
            ≡ set_resolved a true true p.policy p.sched_reset_on_fork (to_attr k) p
      unfolding sched_setscheduler_attr resolve
      resolved k same =
          rw
            (
              same.no_keep,
              same.number,
              policy_of_number p.policy,
              same.flags,
              sched_setscheduler_attr,
            )
            refl

      checked_lem :
          (k : RawAttr D)
          → Copies k p
          → set_checked getparam_dl a pid (good k) s
            ≡ with_thread s pid
                (set_resolved a true true p.policy p.sched_reset_on_fork (to_attr k) p)
      unfolding set_checked set_copied
      checked_lem k same =
          let small = policy_number-small p.policy k.sched_policy same.number in
          let no_params = ap (λ (f : Flags). f.keep_params) same.flags in
          rw (small, set_checked)
            (rw (here, set_copied)
              (ap
                  (λ b. with_thread s pid (
                    sched_setscheduler_attr a true true
                      (to_attr (if b then get_params getparam_dl p k else k)) p))
                  no_params
                ∙ ap (with_thread s pid) (resolved k same)))

      -- For a consistent task that is not under SCHED_DEADLINE, has a nice value in range and may be
      -- read by leave of the security module: sched_getattr succeeds at any size of memory from 48 to
      -- 4096, and giving what it has written to sched_setattr leaves all tasks as they are; that call
      -- succeeds if its caller is privileged and nothing else in the kernel objects.
      pub setattr-getattr :
          (old : ℕ × RawAttr D)
          → (sys_sched_getattr sec getparam_dl zero (pos pid) (mapped old) usize 0 s
              ≡ (success, mapped (attr_read usize p)))
            × ((i : ℕ)
                → (sys_sched_setattr getparam_dl a
                      (pos pid)
                      (mapped (attr_held (attr_read usize p)))
                      0
                      s).1.thread
                    i
                  ≡ s.thread i)
            × (Agrees a
                → (sys_sched_setattr getparam_dl a
                    (pos pid)
                    (mapped (attr_held (attr_read usize p)))
                    0
                    s).0
                  ≡ success)
      unfolding sys_sched_setattr put_thread
      setattr-getattr old =
          let same = kernel_attr-Copies getparam_dl zero p no_dl in
          let same' = clamped-Copies (kernel_attr getparam_dl zero p) p nice same in
          let k' = record (kernel_attr getparam_dl zero p) {
            sched_nice = clamp_nice (kernel_attr getparam_dl zero p).sched_nice;
          } in
          let copied = copy_held usize p lo same in
          (
            getattr_lem old,
            λ i.
                rw (copied, checked_lem k' same', write_back a p no_dl c k' same')
                  (put_thread_same s (target s pid) p here i),
            λ g. rw (copied, checked_lem k' same', write_back_succeeds a p no_dl c k' same' g) refl,
          )
