-- ===== src/Tests/Ids.antt =====
-- Numbers of NAPI instances on concrete inputs.
use cros_rt.Base.{ℕ, ◌+◌, ◌*◌, ◌≡◌, ◌≤◌, ◌<◌, ◌^◌, refl, false, none, some, [], ◌∷◌, arith, done}
use cros_rt.Base.Int.{pos}
use cros_rt.Net.Glue.{napi_by_id, find_napi}
use cros_rt.Net.Ids.{Registry, Instance, netif_napi_add, netif_napi_del}
use cros_rt.Net.Ids.Fresh.{registered}
use cros_rt.Net.Ids.Added.{IsNumbered, Adds, netif_napi_add-Adds}
use cros_rt.Net.Ids.Reached.{LeadsNowhere}
use cros_rt.Net.Ids.Reload.{add, run, IsPassed}
use cros_rt.Net.Ids.Enough.{run-LeadsNowhere}

abbrev bare : Instance ℕ
bare = record {
  napi = record {
    napi_id = 0;
    set_port_priority = none;
    remove_port_priority = none;
    rt_poll = some (λ s. done (s, pos 1));
    non_rt_poll = none;
    non_rt_pl_poll = none;
    highest_prio = none;
  };
  state = record {
    sched = false;
    missed = false;
    disable = false;
    npsvc = false;
    listed = false;
    no_busy_poll = false;
    in_busy_poll = false;
    prefer_busy_poll = false;
    threaded = false;
    sched_threaded = false;
  };
}

-- The next number wraps.
abbrev at_end : Registry ℕ
at_end = record { gen_id = 4294967295; hash = λ b. [] }

at_end-IsNumbered : IsNumbered at_end
at_end-IsNumbered = record { word = omega arith; unique = λ b. tt }

nothing_registered : 2 * registered 256 at_end.hash + 1 < 3
unfolding registered
nothing_registered = omega arith

netif_napi_add-Adds_example :
    (f : Instance ℕ) × (t : Registry ℕ) × (netif_napi_add 257 3 bare at_end ≡ some (f, t))
    × Adds f.napi at_end t
    × (257 ≤ f.napi.napi_id)
    × (f.napi.napi_id < 2 ^ 32)
    × ((netif_napi_del f t).1.hash ≡ at_end.hash)
netif_napi_add-Adds_example =
    netif_napi_add-Adds 257 (omega arith) (omega arith) 3 bare at_end refl refl at_end-IsNumbered
      nothing_registered (omega arith)

-- The driver's instance had 257 and was removed.
abbrev unloaded : Registry ℕ
unloaded = record { gen_id = 257; hash = λ b. [] }

unloaded-IsPassed : IsPassed unloaded
unfolding napi_by_id find_napi
unloaded-IsPassed = record { passed = omega arith; absent = refl }

none_left : registered 256 unloaded.hash < 1
unfolding registered
none_left = omega arith

run-LeadsNowhere_example :
    (t : Registry ℕ) × (run (add 1 bare ∷ []) unloaded ≡ some t) × LeadsNowhere t.hash
run-LeadsNowhere_example =
    run-LeadsNowhere (add 1 bare ∷ []) unloaded unloaded-IsPassed (none_left, tt) (omega arith)
