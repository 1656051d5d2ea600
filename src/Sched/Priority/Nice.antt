-- ===== src/Sched/Priority/Nice.antt =====
-- What the system call nice grants.
use cros_rt.Base.{ℕ, ◌≡◌, ◌⊎◌, inl, inr, true, false, not, ◌&&◌, ◌||◌, arith, ◌==◌, Bool-cases}
use cros_rt.Base.Int.{ℤ, pos, negsuc, eqb_ℤ, eqb_ℤ_iff, ltb_ℤ, ◌+ℤ◌, ◌≤ℤ◌, +ℤ_parts}
use cros_rt.Sched.Abi.{clamp_nice}
use cros_rt.Sched.Task.{Task, dl_policy, rt_policy, effective_prio, rt_prio}
use cros_rt.Sched.Setscheduler.{success, task_nice}
use cros_rt.Sched.Calls.Copies.{IsNice}
use cros_rt.Sched.Priority.{
  set_user_nice, sys_nice, new_nice, can_nice, clamp_width, nice_to_rlimit,
}
use cros_rt.Sched.Priority.Laws.{prio_of_nice}

clamp_nice-IsNice : (nice : ℤ) → IsNice (clamp_nice nice)
unfolding clamp_nice
clamp_nice-IsNice nice = ground arith

clamp_nice-le : (nice x : ℤ) → IsNice nice → nice ≤ℤ x → nice ≤ℤ clamp_nice x
unfolding clamp_nice
clamp_nice-le nice x range le = ground arith

add_le : (a b : ℤ) → ltb_ℤ b (pos 0) ≡ false → a ≤ℤ a +ℤ b
add_le a b h = let e = +ℤ_parts a b in ground arith

can_nice_limit :
    (limit : ℕ) (nice : ℤ) → can_nice limit false nice ≡ true → nice_to_rlimit nice ≤ℤ pos limit
unfolding can_nice
can_nice_limit limit nice h = ground arith

module _ {D : Type 0} where
  -- A nice value in range is the task's afterwards.
  set_user_nice_lem :
      (p : Task D) (nice : ℤ) → IsNice nice → task_nice (set_user_nice p nice) ≡ nice
  unfolding set_user_nice effective_prio
  set_user_nice_lem p nice range =
      let low : ltb_ℤ nice (negsuc 19) ≡ false = ground arith in
      let high : ltb_ℤ (pos 19) nice ≡ false = ground arith in
      elim (Bool-cases (eqb_ℤ (task_nice p) nice)) [
        | inl same ↦ rw (same, set_user_nice) ((eqb_ℤ_iff (task_nice p) nice).0 same)
        | inr new ↦ elim (Bool-cases (dl_policy p.policy || rt_policy p.policy)) [
          | inl has_priority ↦ rw (new, low, high, has_priority, set_user_nice) (prio_of_nice nice)
          | inr has_none ↦ elim (Bool-cases (rt_prio p.prio)) [
            | inl lifted ↦ rw (new, low, high, has_none, lifted, set_user_nice) (prio_of_nice nice)
            | inr plain ↦ rw (new, low, high, has_none, plain, set_user_nice) (prio_of_nice nice)
          ]
        ]
      ]

  -- Without CAP_SYS_NICE a call of nice that succeeds gives the caller the nice value that it asks
  -- for, cut to the range; and this is not below the one it has, or is within the limit of its
  -- process.
  pub sys_nice_lem :
      (limit security : ℕ) (increment : ℤ) (p : Task D)
      → IsNice (task_nice p)
      → (sys_nice limit false security increment p).0 ≡ success
      → (task_nice (sys_nice limit false security increment p).1 ≡ new_nice p increment)
        × ((task_nice p ≤ℤ new_nice p increment)
            ⊎ (nice_to_rlimit (new_nice p increment) ≤ℤ pos limit))
  unfolding sys_nice
  sys_nice_lem limit security increment p range =
      let k = clamp_width increment in
      let asked =
        set_user_nice_lem p (new_nice p increment) (clamp_nice-IsNice (task_nice p +ℤ k)) in
      elim (Bool-cases (security == 0)) [
        | inl agrees ↦ elim (Bool-cases (ltb_ℤ k (pos 0))) [
          | inl up ↦ elim (Bool-cases (can_nice limit false (new_nice p increment))) [
            | inl allowed ↦
                rw (up, allowed, agrees, sys_nice)
                  (λ h. (asked, inr (can_nice_limit limit (new_nice p increment) allowed)))
            | inr denied ↦ rw (up, denied, sys_nice) (λ h. absurd (ground arith))
          ]
          | inr down ↦
              rw (down, agrees, sys_nice)
                (λ h. (
                  asked,
                  inl (
                      clamp_nice-le (task_nice p) (task_nice p +ℤ k) range
                        (add_le (task_nice p) k down)),
                ))
        ]
        | inr objects ↦
            elim (Bool-cases
              (ltb_ℤ k (pos 0) && not (can_nice limit false (new_nice p increment)))) [
                | inl stop ↦ rw (stop, sys_nice) (λ h. absurd (ground arith))
                | inr pass ↦ rw (pass, objects, sys_nice) (λ h. absurd (ground arith))
              ]
      ]
