-- ===== src/Net/Instance/Served.antt =====
-- Who has a NAPI instance, and the events that wait for it.
use cros_rt.Base.{sym, ◌∙◌, ℕ, ◌+◌, ◌≤◌, ◌<◌, ◌≡◌, refl, Bool, true, false, ◌⊎◌, arith}
use cros_rt.Net.Instance.{
  Config, napi_enqueue, to_list, napi_schedule_prep, napi_schedule, napi_watchdog,
  napi_disable_begin, napi_disable_end, napi_enable, napi_complete_done, napi_poll_begin,
}
use cros_rt.Net.Instance.Polled.{complete_done-Completed, short-after_poll, poll_end-Requeued}
use cros_rt.Net.Instance.Steps.{
  on_exhausted, on_timer, on_complete, on_enable, on_disable_begin, on_start, on_disable_end, Sys,
  Step, Steps, event, timer, start, complete, exhausted, disable_begin, disable_end, enable, here,
  after, on_event,
}

abbrev bit : Bool → ℕ
bit true = 1
bit false = 0

module _ {G : Type 0} where
  -- SCHED is set exactly while one of a poll list, a running poll and `napi_disable` has the
  -- instance; and an event that waits has it on a list, or polled with MISSED set.
  pub record IsOwned (s : Sys G) : Type 0 where
    pub one_owner : bit s.napi.on_list + bit s.polling + bit s.taken ≡ bit s.napi.state.sched
    pub waiting :
        s.unserved ≡ true
        → (s.napi.on_list ≡ true) ⊎ ((s.polling ≡ true) × (s.napi.state.missed ≡ true))
    pub netpoll : s.napi.state.npsvc ≡ s.taken
    pub no_busy_poll : s.napi.state.in_busy_poll ≡ false
    pub not_threaded : s.napi.state.threaded ≡ false

module _ {G : Type 0} (held : G → Bool) (gro_flush : Bool → G → G) (gro_normal_list : G → G)
    (c : Config) where
  complete-IsOwned :
      (work : ℕ) (s : Sys G)
      → s.polling ≡ true
      → work < c.weight
      → IsOwned s
      → IsOwned (on_complete held gro_flush gro_normal_list c work s)
  complete-IsOwned work s polled lt h =
      let idle : s.taken ≡ false = ground (arith, h.one_owner, polled) in
      let off : s.napi.on_list ≡ false = ground (arith, h.one_owner, polled) in
      let m = (napi_complete_done held gro_flush gro_normal_list c work s.napi).1 in
      let k =
        complete_done-Completed held gro_flush gro_normal_list c work s.napi (h.netpoll ∙ idle)
          h.no_busy_poll h.not_threaded in
      rw (short-after_poll held gro_flush gro_normal_list c work m lt) (record {
        one_owner = ground (arith, k.on_list, k.sched, idle);
        waiting = λ w. ground (arith, h.waiting, off, k.on_list);
        netpoll = k.npsvc ∙ sym idle;
        no_busy_poll = k.in_busy_poll;
        not_threaded = k.threaded;
      })

  exhausted-IsOwned :
      (work : ℕ) (s : Sys G)
      → s.polling ≡ true
      → c.weight ≤ work
      → IsOwned s
      → IsOwned (on_exhausted held gro_flush gro_normal_list c work s)
  exhausted-IsOwned work s polled full h =
      let idle : s.taken ≡ false = ground (arith, h.one_owner, polled) in
      let off : s.napi.on_list ≡ false = ground (arith, h.one_owner, polled) in
      let owned : s.napi.state.sched ≡ true = ground (arith, h.one_owner, polled) in
      let r =
        poll_end-Requeued held gro_flush gro_normal_list c work s.napi full off owned
          (h.netpoll ∙ idle) h.no_busy_poll h.not_threaded in
      let e = r.ended in
      record {
        one_owner = ground (arith, e.one_list, idle);
        waiting = λ w. ground (arith, h.waiting, off, r.requeued);
        netpoll = e.npsvc ∙ sym idle;
        no_busy_poll = e.in_busy_poll;
        not_threaded = e.threaded;
      }

module _ {G : Type 0} (held : G → Bool) (gro_flush : Bool → G → G) (gro_normal_list : G → G)
    (c : Config) (plain : c.threaded ≡ false) where
  event-IsOwned : (s : Sys G) → IsOwned s → IsOwned (on_event held gro_flush gro_normal_list c s)
  unfolding napi_schedule napi_schedule_prep napi_enqueue to_list
  event-IsOwned s h = record {
    one_owner = ground (arith, h.one_owner, h.not_threaded);
    waiting = λ w. ground (arith, h.one_owner, h.not_threaded, h.waiting);
    netpoll = ground (arith, h.netpoll, h.not_threaded);
    no_busy_poll = ground (arith, h.no_busy_poll, h.not_threaded);
    not_threaded = ground (arith, h.not_threaded);
  }

  timer-IsOwned : (s : Sys G) → IsOwned s → IsOwned (on_timer held gro_flush gro_normal_list c s)
  unfolding napi_watchdog napi_enqueue to_list
  timer-IsOwned s h = record {
    one_owner = ground (arith, h.one_owner, h.not_threaded);
    waiting = λ w. ground (arith, h.one_owner, h.not_threaded, h.waiting);
    netpoll = ground (arith, h.netpoll, h.not_threaded);
    no_busy_poll = ground (arith, h.no_busy_poll, h.not_threaded);
    not_threaded = ground (arith, h.not_threaded);
  }

  start-IsOwned :
      (s : Sys G)
      → s.napi.on_list ≡ true
      → IsOwned s
      → IsOwned (on_start held gro_flush gro_normal_list c s)
  unfolding napi_poll_begin
  start-IsOwned s listed h = record {
    one_owner = ground (arith, h.one_owner, listed);
    waiting = λ w. ground (arith, h.one_owner, listed, w);
    netpoll = h.netpoll;
    no_busy_poll = h.no_busy_poll;
    not_threaded = h.not_threaded;
  }

  disable_begin-IsOwned :
      (s : Sys G) → IsOwned s → IsOwned (on_disable_begin held gro_flush gro_normal_list c s)
  unfolding napi_disable_begin
  disable_begin-IsOwned s h = record {
    one_owner = h.one_owner;
    waiting = h.waiting;
    netpoll = h.netpoll;
    no_busy_poll = h.no_busy_poll;
    not_threaded = h.not_threaded;
  }

  disable_end-IsOwned :
      (s : Sys G)
      → s.napi.state.sched ≡ false
      → IsOwned s
      → IsOwned (on_disable_end held gro_flush gro_normal_list c s)
  unfolding napi_disable_end
  disable_end-IsOwned s idle h = record {
    one_owner = ground (arith, h.one_owner, idle);
    waiting = h.waiting;
    netpoll = refl;
    no_busy_poll = h.no_busy_poll;
    not_threaded = refl;
  }

  enable-IsOwned :
      (s : Sys G)
      → s.taken ≡ true
      → IsOwned s
      → IsOwned (on_enable held gro_flush gro_normal_list c s)
  unfolding napi_enable
  enable-IsOwned s taken h = record {
    one_owner = ground (arith, h.one_owner, taken);
    waiting = h.waiting;
    netpoll = refl;
    no_busy_poll = h.no_busy_poll;
    not_threaded = ground (arith, h.not_threaded, plain);
  }

  Step-IsOwned : (s t : Sys G) → Step held gro_flush gro_normal_list c s t → IsOwned s → IsOwned t
  Step-IsOwned s _ event h = event-IsOwned s h
  Step-IsOwned s _ timer h = timer-IsOwned s h
  Step-IsOwned s _ (start listed) h = start-IsOwned s listed h
  Step-IsOwned s _ (complete work polled lt) h =
      complete-IsOwned held gro_flush gro_normal_list c work s polled lt h
  Step-IsOwned s _ (exhausted work polled full) h =
      exhausted-IsOwned held gro_flush gro_normal_list c work s polled full h
  Step-IsOwned s _ (disable_begin free) h = disable_begin-IsOwned s h
  Step-IsOwned s _ (disable_end asked idle clear) h = disable_end-IsOwned s idle h
  Step-IsOwned s _ (enable taken) h = enable-IsOwned s taken h

  -- In any state that steps in any order lead to, from one where this holds, and where the device
  -- does not ask for threads: SCHED is set exactly while one of a poll list, a running poll and
  -- `napi_disable` has the instance; an event that waits has it on a list, or in a poll with
  -- MISSED set; NPSVC is set exactly while `napi_disable` has it; and it is neither busy-polled
  -- nor threaded.
  pub Steps-IsOwned :
      (s t : Sys G) → IsOwned s → Steps held gro_flush gro_normal_list c s t → IsOwned t
  Steps-IsOwned s _ h here = h
  Steps-IsOwned s _ h (after {t} {u} steps step) = Step-IsOwned t u step (Steps-IsOwned s t h steps)
