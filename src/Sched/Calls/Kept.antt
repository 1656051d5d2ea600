-- ===== src/Sched/Calls/Kept.antt =====
-- What a system call may do to the tasks: it changes one of them, or none.
use cros_rt.Base.{
  ◌-◌, ◌^◌, subst, ℕ, ◌≡◌, ◌≢◌, refl, sym, true, Option, none, some, arith, ltb, ◌==◌,
  if◌then◌else◌, Option-cases, Bool-cases, inl, inr,
}
use cros_rt.Base.Int.{ℤ, pos, negsuc}
use cros_rt.Sched.Task.{Task}
use cros_rt.Sched.Setscheduler.{
  Attr, Ret, success, Answers, sched_setscheduler, sched_setscheduler_attr, param_attr,
}
use cros_rt.Sched.Setscheduler.Laws.{
  IsConsistent, sched_setscheduler_attr-IsConsistent, sched_setscheduler_attr_error,
}
use cros_rt.Sched.Abi.{
  Ptr, null, unmapped, mapped, RawAttr, UserAttr, Copied, no_access, bad_value, too_big, good,
  to_u32, policy_arg,
}
use cros_rt.Sched.Calls.{
  Threads, target, put_thread, with_thread, Call, setscheduler, setparam_only, setattr, perform,
  do_sched_setscheduler, sys_sched_setscheduler, sys_sched_setparam, sys_sched_setattr, set_copied,
  set_checked, sched_copy_attr, to_attr, get_params,
}

module _ {D : Type 0} where
  -- The two ways a call ends: with an error and nothing changed, or with `__sched_setscheduler`
  -- called on the task that its number names.
  pub data Touches (a : Answers D) (pid : ℤ) (s : Threads D) : Ret × Threads D → Type 0 where
    untouched : (e : Ret) → e ≢ success → Touches a pid s (e, s)
    touched :
        (n : ℕ) (p : Task D) (attr : Attr D)
        → pid ≡ pos n
        → s.thread (target s n) ≡ some p
        → Touches a pid s (with_thread s n (sched_setscheduler_attr a true true attr p))

  abbrev pub pid_of : Call D → ℤ
  pid_of (setscheduler pid policy param) = pid
  pid_of (setparam_only pid param) = pid
  pid_of (setattr pid uattr flags) = pid

  module _ (a : Answers D) (s : Threads D) where
    do-Touches :
        (pid : ℤ) (policy : Option ℕ) (param : Ptr ℤ)
        → Touches a pid s (do_sched_setscheduler a pid policy param s)
    unfolding do_sched_setscheduler sched_setscheduler
    do-Touches (negsuc n) policy param = untouched _ (λ e. cc)
    do-Touches (pos pid) policy null = untouched _ (λ e. cc)
    do-Touches (pos pid) policy unmapped = untouched _ (λ e. cc)
    do-Touches (pos pid) policy (mapped v) = elim (Option-cases (s.thread (target s pid))) [
      | inl nothing ↦ rw (nothing, do_sched_setscheduler) (untouched _ (λ e. cc))
      | inr (p, here) ↦
          let (arg, reset) = policy_arg policy in
          rw (here, do_sched_setscheduler)
            (touched pid p (param_attr arg reset (to_u32 v) p) refl here)
    ]

    module _ (getparam_dl : Task D → RawAttr D → RawAttr D) where
      copied-Touches :
          (pid : ℕ) (attr : RawAttr D) → Touches a (pos pid) s (set_copied getparam_dl a pid attr s)
      unfolding set_copied
      copied-Touches pid attr = elim (Option-cases (s.thread (target s pid))) [
        | inl nothing ↦ rw (nothing, set_copied) (untouched _ (λ e. cc))
        | inr (p, here) ↦
            let attr' =
              if attr.sched_flags.keep_params then get_params getparam_dl p attr else attr in
            rw (here, set_copied) (touched pid p (to_attr attr') refl here)
      ]

      checked-Touches :
          (pid : ℕ) (c : Copied D) → Touches a (pos pid) s (set_checked getparam_dl a pid c s)
      unfolding set_checked
      checked-Touches pid no_access = untouched _ (λ e. cc)
      checked-Touches pid bad_value = untouched _ (λ e. cc)
      checked-Touches pid too_big = untouched _ (λ e. cc)
      checked-Touches pid (good attr) = elim (Bool-cases (ltb (2 ^ 31 - 1) attr.sched_policy)) [
        | inl negative ↦ rw (negative, set_checked) (untouched _ (λ e. cc))
        | inr fine ↦ rw (fine, set_checked) (copied-Touches pid attr)
      ]

      flags-Touches :
          (pid flags : ℕ) (uattr : Ptr (UserAttr D))
          → Touches a (pos pid) s (sys_sched_setattr getparam_dl a (pos pid) uattr flags s)
      unfolding sys_sched_setattr
      flags-Touches pid flags null = untouched _ (λ e. cc)
      flags-Touches pid flags unmapped = elim (Bool-cases (flags == 0)) [
        | inl none_set ↦ rw (none_set, sys_sched_setattr) (untouched _ (λ e. cc))
        | inr some_set ↦ rw (some_set, sys_sched_setattr) (untouched _ (λ e. cc))
      ]
      flags-Touches pid flags (mapped u) = elim (Bool-cases (flags == 0)) [
        | inl none_set ↦
            rw (none_set, sys_sched_setattr) (checked-Touches pid (sched_copy_attr (mapped u)))
        | inr some_set ↦ rw (some_set, sys_sched_setattr) (untouched _ (λ e. cc))
      ]

      pub perform-Touches : (c : Call D) → Touches a (pid_of c) s (perform getparam_dl a c s)
      unfolding perform sys_sched_setscheduler sys_sched_setparam
      perform-Touches (setscheduler pid (pos n) param) = do-Touches pid (some n) param
      perform-Touches (setscheduler pid (negsuc n) param) = untouched _ (λ e. cc)
      perform-Touches (setparam_only pid param) = do-Touches pid none param
      perform-Touches (setattr (negsuc n) uattr flags) = untouched _ (λ e. cc)
      perform-Touches (setattr (pos pid) uattr flags) = flags-Touches pid flags uattr

  -- Putting a task back where it was changes nothing.
  pub put_thread_same :
      (s : Threads D) (t : ℕ) (p : Task D)
      → s.thread t ≡ some p
      → (i : ℕ) → (put_thread s t p).thread i ≡ s.thread i
  unfolding put_thread
  put_thread_same s t p here i = elim (Bool-cases (i == t)) [
    | inl it ↦ let j : i ≡ t = ground arith in rw (it, j) (sym here)
    | inr other ↦ rw other refl
  ]

  abbrev pub AllConsistent : Threads D → Type 0
  AllConsistent s = (i : ℕ) (p : Task D) → s.thread i ≡ some p → IsConsistent p

  put-AllConsistent :
      (s : Threads D) (t : ℕ) (q : Task D)
      → AllConsistent s
      → IsConsistent q
      → AllConsistent (put_thread s t q)
  unfolding put_thread
  put-AllConsistent s t q all one i p h = elim (Bool-cases (i == t)) [
    | inl same ↦ let e : q ≡ p = ground arith in subst IsConsistent e one
    | inr different ↦ all i p (ground arith)
  ]

  Touches-AllConsistent :
      {a : Answers D} {pid : ℤ} {s : Threads D} {r : Ret × Threads D}
      → Touches a pid s r
      → AllConsistent s
      → AllConsistent r.1
  Touches-AllConsistent (untouched e bad) all = all
  Touches-AllConsistent {a} {s} (touched n p attr e here) all =
      put-AllConsistent s (target s n) _ all
        (sched_setscheduler_attr-IsConsistent a true true attr p (all _ p here))

  -- The task with number `i` is not the one that the call is about.
  abbrev pub IsOther : Threads D → ℤ → ℕ → Type 0
  IsOther s (pos n) i = i ≢ target s n
  IsOther s (negsuc n) i = Unit

  module _ (getparam_dl : Task D → RawAttr D → RawAttr D) (a : Answers D) (c : Call D)
      (s : Threads D) where
    pub perform-AllConsistent : AllConsistent s → AllConsistent (perform getparam_dl a c s).1
    perform-AllConsistent = Touches-AllConsistent (perform-Touches a s getparam_dl c)

    Touches-unchanged :
        {r : Ret × Threads D}
        → Touches a (pid_of c) s r
        → r.0 ≢ success
        → (i : ℕ) → r.1.thread i ≡ s.thread i
    unfolding put_thread
    Touches-unchanged (untouched e bad) h i = refl
    Touches-unchanged (touched n p attr e here) h i =
        let same = sched_setscheduler_attr_error a true true attr p h in
        rw same (put_thread_same s (target s n) p here i)

    pub perform_error :
        (perform getparam_dl a c s).0 ≢ success
        → (i : ℕ) → (perform getparam_dl a c s).1.thread i ≡ s.thread i
    perform_error = Touches-unchanged (perform-Touches a s getparam_dl c)

    Touches-other :
        {pid : ℤ} {r : Ret × Threads D}
        → Touches a pid s r
        → (i : ℕ) → IsOther s pid i
        → r.1.thread i ≡ s.thread i
    unfolding put_thread
    Touches-other (untouched e bad) i h = refl
    Touches-other (touched n p attr e here) i h =
        let other : i ≢ target s n = subst (λ t. IsOther s t i) e h in ground arith

    pub perform_other :
        (i : ℕ) → IsOther s (pid_of c) i → (perform getparam_dl a c s).1.thread i ≡ s.thread i
    perform_other = Touches-other (perform-Touches a s getparam_dl c)

    -- Whatever a system call that sets something asks, and whatever it is answered: if all tasks are
    -- consistent they are so after it, if it does not succeed it leaves every task as it was, and in
    -- any case it leaves every task but the one with its number as it was.
    pub perform_keeps :
        (AllConsistent s → AllConsistent (perform getparam_dl a c s).1)
        × ((perform getparam_dl a c s).0 ≢ success
            → (i : ℕ) → (perform getparam_dl a c s).1.thread i ≡ s.thread i)
        × ((i : ℕ) → IsOther s (pid_of c) i → (perform getparam_dl a c s).1.thread i ≡ s.thread i)
    perform_keeps = (perform-AllConsistent, perform_error, perform_other)
