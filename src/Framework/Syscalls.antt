-- ===== src/Framework/Syscalls.antt =====
-- ros2_framework/priority_identifier.c: the system calls by which a node names the priority of a port
-- or of a thread. Each returns 0.
pub mod Laws
use cros_rt.Base.{ℕ, ◌%◌, Bool, true, false, ◌==◌, if◌then◌else◌, Outcome, done, ◌>>=◌}
use cros_rt.Base.Int.{ℤ, pos, negsuc}
use cros_rt.Buckets.{Table}
use cros_rt.Net.Glue.{NapiHash, connect_port_priority, disconnect_port_priority}
use cros_rt.Net.Tids.{TidEntry, add_tid_priority, remove_tid_priority}

-- `port % 2 == 1`: the remainder of a negative number is not positive in C.
abbrev pub is_odd : ℤ → Bool
is_odd (pos n) = n % 2 == 1
is_odd (negsuc n) = false

abbrev pub returns_zero : {S : Type 0} → Outcome S → Outcome (S × ℤ)
returns_zero o = o >>= λ s. done (s, pos 0)

module _ {S : Type 0} (table : NapiHash S) where
  unfoldable pub connect_pp_syscall : ℤ → ℤ → S → Outcome (S × ℤ)
  unfolding connect_port_priority
  connect_pp_syscall priority port s =
      returns_zero (if is_odd port then connect_port_priority table priority port s else done s)

  unfoldable pub disconnect_pp_syscall : ℤ → S → Outcome (S × ℤ)
  unfolding disconnect_port_priority
  disconnect_pp_syscall port s = returns_zero (disconnect_port_priority table port s)

module _ (hash : ℤ → ℕ) where
  unfoldable pub add_tp_syscall : Bool → ℤ → ℤ → Table TidEntry → Table TidEntry × ℤ
  unfolding add_tid_priority
  add_tp_syscall allocated tid priority t = (add_tid_priority hash allocated tid priority t, pos 0)

  unfoldable pub remove_tp_syscall : ℤ → Table TidEntry → Table TidEntry × ℤ
  unfolding remove_tid_priority
  remove_tp_syscall tid t = (remove_tid_priority hash tid t, pos 0)
