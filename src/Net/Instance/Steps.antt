-- ===== src/Net/Instance/Steps.antt =====
-- One NAPI instance under interrupts, polling, its timer, and disabling, as steps in any order. The
-- instance is not threaded, and no other CPU busy-polls it.
use cros_rt.Base.{ℕ, ◌≤◌, ◌<◌, ◌≡◌, Bool, true, false, not, ◌&&◌, ◌||◌}
use cros_rt.Net.Instance.{
  Inst, Config, napi_schedule, napi_watchdog, napi_disable_begin, napi_disable_end, napi_enable,
  napi_complete_done, napi_poll_begin, napi_poll_end,
}

-- The instance; whether its poll function is running; whether `napi_disable` has taken it; and
-- whether there is an event that no poll has started after.
pub record Sys (G : Type 0) : Type 0 where
  pub napi : Inst G
  pub polling : Bool
  pub taken : Bool
  pub unserved : Bool

module _ {G : Type 0} (held : G → Bool) (gro_flush : Bool → G → G) (gro_normal_list : G → G)
    (c : Config) where
  -- Events while the instance is being disabled, or is disabled, are not asked for.
  abbrev pub on_event : Sys G → Sys G
  on_event s = record s {
    napi = napi_schedule s.napi;
    unserved = (not s.napi.state.disable && not s.taken) || s.unserved;
  }

  abbrev pub on_timer : Sys G → Sys G
  on_timer s = record s { napi = napi_watchdog s.napi }

  -- The poll function looks at the device after it has started.
  abbrev pub on_start : Sys G → Sys G
  on_start s =
      let (called, n) = napi_poll_begin s.napi in
      record s { napi = n; polling = called; unserved = not called && s.unserved }

  -- The poll function has done less than its weight: it completes, and `napi_poll` ends.
  abbrev pub on_complete : ℕ → Sys G → Sys G
  on_complete work s = record s {
    napi =
        napi_poll_end held gro_flush gro_normal_list c work
          (napi_complete_done held gro_flush gro_normal_list c work s.napi).1;
    polling = false;
  }

  -- It has used up its weight, and does not complete.
  abbrev pub on_exhausted : ℕ → Sys G → Sys G
  on_exhausted work s = record s {
    napi = napi_poll_end held gro_flush gro_normal_list c work s.napi;
    polling = false;
  }

  abbrev pub on_disable_begin : Sys G → Sys G
  on_disable_begin s = record s { napi = napi_disable_begin s.napi }

  abbrev pub on_disable_end : Sys G → Sys G
  on_disable_end s = record s { napi = napi_disable_end s.napi; taken = true }

  abbrev pub on_enable : Sys G → Sys G
  on_enable s = record s { napi = napi_enable c s.napi; taken = false }

  pub data Step (s : Sys G) : Sys G → Type 0 where
    event : Step s (on_event s)
    timer : Step s (on_timer s)
    start : s.napi.on_list ≡ true → Step s (on_start s)
    complete : (work : ℕ) → s.polling ≡ true → work < c.weight → Step s (on_complete work s)
    exhausted : (work : ℕ) → s.polling ≡ true → c.weight ≤ work → Step s (on_exhausted work s)
    disable_begin : s.taken ≡ false → Step s (on_disable_begin s)
    disable_end :
        s.napi.state.disable ≡ true
        → s.napi.state.sched ≡ false
        → s.napi.state.npsvc ≡ false
        → Step s (on_disable_end s)
    enable : s.taken ≡ true → Step s (on_enable s)

  pub data Steps (s : Sys G) : Sys G → Type 0 where
    here : Steps s s
    after : {t u : Sys G} → Steps s t → Step t u → Steps s u
