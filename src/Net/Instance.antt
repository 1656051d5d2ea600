-- ===== src/Net/Instance.antt =====
-- Scheduling one NAPI instance, net/core/dev.c: its state word, `napi_schedule`,
-- `napi_complete_done`, `napi_disable`, `napi_enable`, the timer, and what `__napi_poll` does
-- after the driver's poll function. An update of the word by cmpxchg is one step. The GRO layer is
-- a parameter.
pub mod Polled
pub mod Steps
pub mod Served
pub mod Bits
use cros_rt.Base.{
  ℕ, ◌-◌, Bool, true, false, not, ◌&&◌, ◌||◌, Option, none, some, ltb, ◌==◌, if◌then◌else◌,
}
use cros_rt.Sched.Task.{TaskState, running, interruptible, state_match}

-- The bits NAPI_STATE_*.
pub record Word : Type 0 where
  pub sched : Bool
  pub missed : Bool
  pub disable : Bool
  pub npsvc : Bool
  pub listed : Bool
  pub no_busy_poll : Bool
  pub in_busy_poll : Bool
  pub prefer_busy_poll : Bool
  pub threaded : Bool
  pub sched_threaded : Bool

-- `struct napi_struct` as far as it is scheduled; `on_list` tells whether its `poll_list` is
-- linked in a list, and `net_rx_raised` whether it has raised NET_RX.
pub record Inst (G : Type 0) : Type 0 where
  pub state : Word
  pub on_list : Bool
  pub net_rx_raised : Bool
  pub thread : Option TaskState
  pub gro : G
  pub defer_hard_irqs_count : ℕ
  pub timer : Option ℕ

-- What the instance and its device are set to.
pub record Config : Type 0 where
  pub weight : ℕ
  pub gro_flush_timeout : ℕ
  pub napi_defer_hard_irqs : ℕ
  pub threaded : Bool

abbrev pub is_interruptible : TaskState → Bool
is_interruptible interruptible = true
is_interruptible _ = false

abbrev pub woken_state : TaskState → TaskState
woken_state x = if state_match x then running else x

abbrev pub has_thread : Option TaskState → Bool
has_thread none = false
has_thread (some x) = true

abbrev pub completed_word : Word → Word
completed_word val = record val {
  missed = false;
  sched = val.missed;
  sched_threaded = false;
  prefer_busy_poll = false;
}

module _ {G : Type 0} where
  unfoldable pub to_list : Inst G → Inst G
  to_list n = record n { on_list = true; net_rx_raised = true }

  -- `____napi_schedule`
  unfoldable pub napi_enqueue : Inst G → Inst G
  unfolding to_list
  napi_enqueue n =
      if n.state.threaded
      then elim n.thread [
        | none ↦ to_list n
        | some x ↦ record n {
          state = record (n.state) {
            sched_threaded = if not (is_interruptible x) then true else n.state.sched_threaded;
          };
          thread = some (woken_state x);
        }
      ]
      else to_list n

  unfoldable pub napi_schedule_prep : Inst G → Bool × Inst G
  napi_schedule_prep n = if n.state.disable then (false, n) else (
    not n.state.sched,
    record n {
      state = record (n.state) { sched = true; missed = n.state.missed || n.state.sched };
    },
  )

  unfoldable pub napi_schedule : Inst G → Inst G
  unfolding napi_schedule_prep napi_enqueue
  napi_schedule n =
      let (prepared, m) = napi_schedule_prep n in if prepared then napi_enqueue m else m

  -- `napi_watchdog`, when the timer goes off.
  unfoldable pub napi_watchdog : Inst G → Inst G
  unfolding napi_enqueue
  napi_watchdog n =
      let m = record n { timer = none } in
      if not m.state.disable && not m.state.sched
      then napi_enqueue
          (record m { state = record (m.state) { sched = true; prefer_busy_poll = false } })
      else m

  -- The first store of `napi_disable`.
  unfoldable pub napi_disable_begin : Inst G → Inst G
  napi_disable_begin n = record n { state = record (n.state) { disable = true } }

  -- The rest of `napi_disable`, from where it finds SCHED and NPSVC clear.
  unfoldable pub napi_disable_end : Inst G → Inst G
  napi_disable_end n = record n {
    state = record (n.state) {
      sched = true;
      npsvc = true;
      prefer_busy_poll = false;
      disable = false;
      threaded = false;
    };
    timer = none;
  }

  unfoldable pub napi_enable : Config → Inst G → Inst G
  napi_enable c n = record n {
    state = record (n.state) {
      sched = false;
      npsvc = false;
      threaded = if c.threaded && has_thread n.thread then true else n.state.threaded;
    };
  }

  -- `napi_poll` up to the call of the poll function, and whether it is called.
  unfoldable pub napi_poll_begin : Inst G → Bool × Inst G
  napi_poll_begin n = (n.state.sched, record n { on_list = false })

  -- `held` tells whether `gro_bitmask` is not 0.
  module _ (held : G → Bool) (gro_flush : Bool → G → G) (gro_normal_list : G → G) where
    -- Count, timeout and result, after the two tests on `work_done` and on the count.
    unfoldable pub deferral : Config → ℕ → Inst G → ℕ × ℕ × Bool
    deferral c work_done n =
        let timeout = if not (work_done == 0) && held n.gro then c.gro_flush_timeout else 0 in
        let count =
          if not (work_done == 0) then c.napi_defer_hard_irqs else n.defer_hard_irqs_count in
        if ltb 0 count
        then (count - 1, c.gro_flush_timeout, c.gro_flush_timeout == 0)
        else (count, timeout, true)

    unfoldable pub napi_complete_done : Config → ℕ → Inst G → Bool × Inst G
    unfolding deferral napi_enqueue
    napi_complete_done c work_done n =
        let (count, timeout, ret) = deferral c work_done n in
        let flushed = if held n.gro then gro_flush (not (timeout == 0)) n.gro else n.gro in
        let m : Inst G = record n {
          state = completed_word n.state;
          on_list = false;
          gro = gro_normal_list flushed;
          defer_hard_irqs_count = count;
        } in
        if n.state.npsvc || n.state.in_busy_poll
        then (false, n)
        else if n.state.missed
        then (false, napi_enqueue m)
        else (ret, record m { timer = if not (timeout == 0) then some timeout else m.timer })

    -- `__napi_poll` from where the poll function has returned `work`; the result is `*repoll`.
    unfoldable pub after_poll : Config → ℕ → Inst G → Bool × Inst G
    unfolding napi_complete_done napi_schedule
    after_poll c work n =
        let (rearm, done_n) = napi_complete_done c work n in
        let m : Inst G = record n {
          gro = gro_normal_list (if held n.gro then gro_flush false n.gro else n.gro);
        } in
        if ltb work c.weight
        then (false, n)
        else if n.state.disable
        then (false, (napi_complete_done c 0 n).1)
        else if n.state.prefer_busy_poll
        then (false, (if rearm then napi_schedule done_n else done_n))
        else if m.on_list
        then (false, m)
        else (true, m)

    -- `napi_poll` after that call; an instance that is polled again goes to the list.
    unfoldable pub napi_poll_end : Config → ℕ → Inst G → Inst G
    unfolding after_poll
    napi_poll_end c work n =
        let (repoll, m) = after_poll c work n in if repoll then record m { on_list = true } else m
