-- ===== src/Tests/Calls.antt =====
-- System calls of a shell on a task under SCHED_FIFO, which is task 7.
use cros_rt.Base.{
  subst, ◌+◌, ℕ, ◌≡◌, ◌≢◌, ◌≤◌, ◌↔◌, refl, false, none, some, arith, if◌then◌else◌, ◌==◌,
}
use cros_rt.Sched.Calls.Copies.{IsNice}
use cros_rt.Base.Int.{◌-ℤ◌, pos}
use cros_rt.Tests.Data.{fifo_task, fifo_task-IsConsistent, agreeing, agreeing-Agrees, unprivileged}
use cros_rt.Sched.Task.{Task}
use cros_rt.Sched.Setscheduler.{task_nice, success, eperm}
use cros_rt.Sched.Setscheduler.Laws.{IsConsistent}
use cros_rt.Sched.Abi.{mapped, RawAttr, reset_bit}
use cros_rt.Sched.Calls.{
  Threads, Call, setscheduler, perform, sys_sched_setscheduler, sys_sched_setattr, sched_set_fifo,
}
use cros_rt.Sched.Setscheduler.Success.{Agrees}
use cros_rt.Sched.Calls.Kept.{AllConsistent, perform-AllConsistent, perform_error, perform_keeps}
use cros_rt.Sched.Calls.Read.{
  value, sys_sched_getscheduler, sys_sched_getparam, sys_sched_getattr, sys_sched_get_priority_max,
  sys_sched_get_priority_min,
}
use cros_rt.Sched.Calls.ReadBack.{setscheduler_read}
use cros_rt.Sched.Calls.Granted.{setscheduler_iff}
use cros_rt.Sched.Calls.Back.{setattr-getattr, attr_read, attr_held}

abbrev tasks : Threads ℕ
tasks = record { thread = λ i. if i == 7 then some fifo_task else none; current = 7 }

tasks-AllConsistent : AllConsistent tasks
tasks-AllConsistent i p h =
    let e : fifo_task ≡ p = ground arith in subst IsConsistent e fifo_task-IsConsistent

-- `__getparam_dl`, which is not reached here.
abbrev keep_dl : Task ℕ → RawAttr ℕ → RawAttr ℕ
keep_dl p attr = attr

-- `chrt -f -R -p 20 7`
abbrev raise : Call ℕ
raise = setscheduler (pos 7) (pos (reset_bit + 1)) (mapped (pos 20))

denied : (perform keep_dl unprivileged raise tasks).0 ≡ eperm
unfolding perform
denied = refl

not_done : (perform keep_dl unprivileged raise tasks).0 ≢ success
not_done = rw denied (λ e. cc)

perform_keeps_example :
    (AllConsistent tasks → AllConsistent (perform keep_dl unprivileged raise tasks).1)
    × ((perform keep_dl unprivileged raise tasks).0 ≢ success
        → (i : ℕ) → (perform keep_dl unprivileged raise tasks).1.thread i ≡ tasks.thread i)
    × ((i : ℕ) → i ≢ 7 → (perform keep_dl unprivileged raise tasks).1.thread i ≡ tasks.thread i)
perform_keeps_example = perform_keeps keep_dl unprivileged raise tasks

still_there : (perform keep_dl unprivileged raise tasks).1.thread 7 ≡ some fifo_task
still_there = perform_error keep_dl unprivileged raise tasks not_done 7

all_consistent : AllConsistent (perform keep_dl agreeing raise tasks).1
all_consistent = perform-AllConsistent keep_dl agreeing raise tasks tasks-AllConsistent

granted :
    (sys_sched_setscheduler agreeing (pos 7) (pos (reset_bit + 1)) (mapped (pos 20)) tasks).0
    ≡ success
unfolding sys_sched_setscheduler
granted = refl

setscheduler_read_example :
    (sys_sched_getscheduler
        (λ q. 0)
        (pos 7)
        (sys_sched_setscheduler agreeing (pos 7) (pos (reset_bit + 1)) (mapped (pos 20)) tasks).1
      ≡ value (reset_bit + 1))
    × (sys_sched_getparam
          (λ q. 0)
          (pos 7)
          (mapped (pos 0))
          (sys_sched_setscheduler agreeing (pos 7) (pos (reset_bit + 1)) (mapped (pos 20)) tasks).1
        ≡ (success, mapped (pos 20)))
setscheduler_read_example =
    setscheduler_read (λ q. 0) (λ q. refl) agreeing tasks 7 (pos 20) (pos 0) fifo_task refl
      fifo_task-IsConsistent refl (reset_bit + 1) (omega arith) granted

from_1 : sys_sched_get_priority_min (pos 2) ≡ value 1
unfolding sys_sched_get_priority_min
from_1 = refl

to_99 : sys_sched_get_priority_max (pos 2) ≡ value 99
unfolding sys_sched_get_priority_max
to_99 = refl

setscheduler_iff_example :
    ((sys_sched_setscheduler agreeing (pos 7) (pos 2) (mapped (pos 40)) tasks).0 ≡ success)
    ↔ (1 ≤ 40) × (40 ≤ 99)
setscheduler_iff_example =
    setscheduler_iff agreeing tasks 7 2 1 99 40 fifo_task refl agreeing-Agrees (omega arith) from_1
      to_99 (omega arith)

plain : IsNice (task_nice fifo_task)
unfolding ◌-ℤ◌
plain = (omega arith, omega arith)

setattr-getattr_example :
    (sys_sched_getattr
        (λ q. 0)
        keep_dl
        0
        (pos 7)
        (mapped (attr_read keep_dl 0 56 fifo_task))
        48
        0
        tasks
      ≡ (success, mapped (attr_read keep_dl 0 48 fifo_task)))
    × ((i : ℕ)
        → (sys_sched_setattr keep_dl agreeing
              (pos 7)
              (mapped (attr_held keep_dl 0 (attr_read keep_dl 0 48 fifo_task)))
              0
              tasks).1.thread
            i
          ≡ tasks.thread i)
    × (Agrees agreeing
        → (sys_sched_setattr keep_dl agreeing
            (pos 7)
            (mapped (attr_held keep_dl 0 (attr_read keep_dl 0 48 fifo_task)))
            0
            tasks).0
          ≡ success)
setattr-getattr_example =
    setattr-getattr keep_dl 0 agreeing (λ q. 0) tasks 7 fifo_task refl refl refl
      fifo_task-IsConsistent plain 48 (omega arith) (omega arith) (attr_read keep_dl 0 56 fifo_task)

-- The kernel's own way: it asks nobody.
fifo_50 :
    ((sched_set_fifo unprivileged fifo_task).0 ≡ false)
    × ((sched_set_fifo unprivileged fifo_task).1.rt_priority ≡ 50)
unfolding sched_set_fifo
fifo_50 = (refl, refl)
