-- ===== src/Sched/Calls/ReadBack.antt =====
-- What has been set is what is read back.
use cros_rt.Base.{
  ap, ◌∙◌, ℕ, ◌+◌, ◌≤◌, ◌<◌, ◌^◌, ◌≡◌, refl, sym, Bool, true, false, some, arith, if◌then◌else◌,
  Bool-cases, inl, inr,
}
use cros_rt.Base.Int.{ℤ, pos, negsuc}
use cros_rt.Base.Cint.{fits_int}
use cros_rt.Sched.Task.{Policy, Task, rt_policy}
use cros_rt.Sched.Setscheduler.{success, Answers}
use cros_rt.Sched.Setscheduler.Laws.{IsConsistent}
use cros_rt.Sched.Abi.{mapped, policy_number, policy_arg, reset_bit, to_u32}
use cros_rt.Sched.Calls.{
  Threads, target, put_thread, do_sched_setscheduler, sys_sched_setscheduler, sys_sched_setparam,
}
use cros_rt.Sched.Calls.Read.{value, policy_word, sys_sched_getscheduler, sys_sched_getparam}
use cros_rt.Sched.Calls.Written.{
  policy_arg-word, policy_arg-ne_setparam, IsWritten, arg-IsWritten, setparam-IsWritten,
}

-- An int whose image in the field of the structure is at most 99 is that number.
from_u32 :
    (priority : ℤ)
    → fits_int priority ≡ true
    → to_u32 priority ≤ 99
    → pos (to_u32 priority) ≡ priority
from_u32 (pos n) fits low = ground arith
from_u32 (negsuc n) fits low = ground arith

module _ {D : Type 0} where
  priority_read :
      (policy : Policy) {reset : Bool} {priority : ℕ} (q : Task D)
      → IsWritten policy reset priority q
      → (if rt_policy q.policy then q.rt_priority else 0) ≡ priority
  priority_read policy q w = rw w.same_policy (elim (Bool-cases (rt_policy policy)) [
    | inl is_rt ↦ rw is_rt w.same_priority
    | inr is_not ↦ rw is_not (sym (w.not_rt is_not))
  ])

  module _ (sec : Task D → ℕ) (agrees : (q : Task D) → sec q ≡ 0) where
    pub getscheduler_found :
        (s : Threads D) (pid : ℕ) (q : Task D)
        → s.thread (target s pid) ≡ some q
        → sys_sched_getscheduler sec (pos pid) s ≡ value (policy_word q)
    unfolding sys_sched_getscheduler
    getscheduler_found s pid q here = rw (here, agrees q, sys_sched_getscheduler) refl

    getparam_found :
        (s : Threads D) (pid : ℕ) (old : ℤ) (q : Task D)
        → s.thread (target s pid) ≡ some q
        → sys_sched_getparam sec (pos pid) (mapped old) s
          ≡ (success, mapped (pos (if rt_policy q.policy then q.rt_priority else 0)))
    unfolding sys_sched_getparam
    getparam_found s pid old q here = rw (here, agrees q, sys_sched_getparam) refl

    -- What the two calls read of a task that has been written.
    IsWritten-read :
        (s : Threads D) (pid : ℕ) (old : ℤ) (policy : Policy) (reset : Bool) (priority : ℕ)
        (q : Task D)
        → IsWritten policy reset priority q
        → (sys_sched_getscheduler sec (pos pid) (put_thread s (target s pid) q)
            ≡ value (policy_number policy + (if reset then reset_bit else 0)))
          × (sys_sched_getparam sec (pos pid) (mapped old) (put_thread s (target s pid) q)
              ≡ (success, mapped (pos priority)))
    unfolding put_thread
    IsWritten-read s pid old policy reset priority q w =
        let s' = put_thread s (target s pid) q in
        let here : s'.thread (target s' pid) ≡ some q = ground arith in
        (
          rw (getscheduler_found s' pid q here, w.same_policy, w.same_flag) refl,
          getparam_found s' pid old q here
              ∙ ap (λ n. (success, mapped (pos n))) (priority_read policy q w),
        )

    module _ (a : Answers D) (s : Threads D) (pid : ℕ) (priority old : ℤ) (p : Task D)
        (here : s.thread (target s pid) ≡ some p) (c : IsConsistent p)
        (is_int : fits_int priority ≡ true) where
      -- The two readings of a task that has been written with the priority of the call.
      read_back :
          (n : ℕ) (policy : Policy) (reset : Bool) (q : Task D)
          → IsWritten policy reset (to_u32 priority) q
          → policy_number policy + (if reset then reset_bit else 0) ≡ n
          → (sys_sched_getscheduler sec (pos pid) (put_thread s (target s pid) q) ≡ value n)
            × (sys_sched_getparam sec (pos pid) (mapped old) (put_thread s (target s pid) q)
                ≡ (success, mapped priority))
      read_back n policy reset q w e =
          let (word, param) = IsWritten-read s pid old policy reset (to_u32 priority) q w in
          (
            word ∙ ap value e,
            param ∙ ap (λ z. (success, mapped z)) (from_u32 priority is_int w.in_range),
          )

      -- If the security module lets every task be read, and the system call sched_setscheduler
      -- succeeds on a consistent task, with a policy argument below 2 ^ 31 and a priority that is an
      -- int, then afterwards sched_getscheduler returns the very number of the policy, with its flag
      -- for forked children, and sched_getparam the very priority, both for the same task number.
      pub setscheduler_read :
          (n : ℕ)
          → n < 2 ^ 31
          → (sys_sched_setscheduler a (pos pid) (pos n) (mapped priority) s).0 ≡ success
          → (sys_sched_getscheduler sec
                (pos pid)
                (sys_sched_setscheduler a (pos pid) (pos n) (mapped priority) s).1
              ≡ value n)
            × (sys_sched_getparam sec
                  (pos pid)
                  (mapped old)
                  (sys_sched_setscheduler a (pos pid) (pos n) (mapped priority) s).1
                ≡ (success, mapped priority))
      unfolding sys_sched_setscheduler
      setscheduler_read n lt =
          rw (here, do_sched_setscheduler)
            (λ h.
              let reset = (policy_arg (some n)).1 in
              let (policy, e, w) =
                arg-IsWritten a reset (to_u32 priority) p (policy_arg (some n)).0 c h
                  (policy_arg-ne_setparam n) in
              read_back n policy reset _ w
                (policy_arg-word n policy reset lt (ap (λ arg. (arg, reset)) e)))

      -- If the system call sched_setparam succeeds on a consistent task, then afterwards
      -- sched_getscheduler returns what it returned before, and sched_getparam the very priority,
      -- both for the same task number.
      pub setparam_read :
          (sys_sched_setparam a (pos pid) (mapped priority) s).0 ≡ success
          → (sys_sched_getscheduler sec
                (pos pid)
                (sys_sched_setparam a (pos pid) (mapped priority) s).1
              ≡ sys_sched_getscheduler sec (pos pid) s)
            × (sys_sched_getparam sec
                  (pos pid)
                  (mapped old)
                  (sys_sched_setparam a (pos pid) (mapped priority) s).1
                ≡ (success, mapped priority))
      unfolding sys_sched_setparam policy_arg
      setparam_read =
          rw (here, do_sched_setscheduler, getscheduler_found s pid p here)
            (λ h.
              read_back (policy_word p) p.policy p.sched_reset_on_fork _
                (setparam-IsWritten a false (to_u32 priority) p c h) refl)
