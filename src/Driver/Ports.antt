-- ===== src/Driver/Ports.antt =====
-- The table of port priorities and the search for the next priority in use: `port_priority_table`,
-- `priority_in_use`, `set_port_priority`, `remove_port_priority`, `get_port_priority` and
-- `get_next_highest_priority` of r8169_main.c. An `int` is an integer; `printk` is left out.
pub mod Laws
pub mod Next
pub mod Refine
pub mod Stacks
use cros_rt.Base.{
  ℕ, zero, suc, ◌-◌, Bool, true, false, List, Option, none, some, ltb, ◌==◌, if◌then◌else◌, Outcome,
  done, fault, ◌∷◌,
}
use cros_rt.Base.Int.{ℤ, pos, negsuc}
use cros_rt.Buckets.{Table, hash_size, put_bucket, find_entry, delete_entry, has_entry, find_bucket}

-- `struct port_priority`; its `node` is its place in a bucket.
pub record PortPriority : Type 0 where
  pub port : ℤ
  pub priority : ℤ

abbrev pub port_of : PortPriority → ℤ
port_of e = e.port

-- The static state: the table and the array `priority_in_use[100]`.
pub record Ports : Type 0 where
  pub table : Table PortPriority
  pub in_use : ℕ → Bool

abbrev pub priority_count : ℕ
priority_count = 100

-- `if (priority < 100) priority_in_use[priority] = value;`: below 0 it writes outside the array.
unfoldable pub mark_in_use : ℤ → Bool → Ports → Outcome Ports
mark_in_use (pos n) value s =
    if ltb n priority_count
    then done (record s { in_use = λ i. if n == i then value else s.in_use i })
    else done s
mark_in_use (negsuc n) value s = fault

-- `hash` is `hash_min` at 8 bits.
module _ (hash : ℤ → ℕ) where
  -- `allocated` tells whether `kmalloc` succeeds.
  unfoldable pub set_port_priority : Bool → ℤ → ℤ → Ports → Outcome Ports
  unfolding mark_in_use
  set_port_priority allocated priority port s =
      if allocated
      then mark_in_use priority true (record s {
        table =
            put_bucket s.table (hash port)
              (record { port = port; priority = priority } ∷ s.table (hash port));
      })
      else done s

  unfoldable pub get_port_priority : ℤ → Ports → ℤ
  unfolding find_entry
  get_port_priority port s = elim (find_entry port_of port (s.table (hash port))) [
    | none ↦ pos 0
    | some e ↦ e.priority
  ]

  -- `found` is the bucket where the walk over the table stopped.
  unfoldable pub remove_found : Option ℕ → ℤ → ℤ → Ports → Outcome Ports
  unfolding mark_in_use delete_entry
  remove_found (some b) priority port s =
      done (record s { table = put_bucket s.table b (delete_entry port_of port (s.table b)) })
  remove_found none priority port s = mark_in_use priority false s

  unfoldable pub remove_port_priority : ℤ → Ports → Outcome Ports
  unfolding remove_found get_port_priority find_bucket has_entry
  remove_port_priority port s =
      let priority = get_port_priority port s in
      remove_found (find_bucket port_of s.table port hash_size 0) priority port s

-- The loop of `get_next_highest_priority`, from index `i` down to 1.
unfoldable pub scan_in_use : (ℕ → Bool) → ℕ → ℕ
scan_in_use in_use zero = 1
scan_in_use in_use (suc i) = if in_use (suc i) then suc i else scan_in_use in_use i

unfoldable pub get_next_highest_priority : (ℕ → Bool) → ℕ → ℕ
unfolding scan_in_use
get_next_highest_priority in_use current = scan_in_use in_use (current - 1)
