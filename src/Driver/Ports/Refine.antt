-- ===== src/Driver/Ports/Refine.antt =====
-- The port table's interface, `set_port_priority`, `remove_port_priority`, `get_port_priority` and
-- `get_next_highest_priority` of r8169_main.c, and what it promises a caller: a stack of priorities
-- for each port.
use cros_rt.Base.{
  ◌⊎◌, ℕ, ◌≡◌, refl, sym, ap, ◌∙◌, inl, inr, Bool, true, false, List, [], ◌∷◌, is_nil, rest, not,
  ltb, ◌==◌, if◌then◌else◌, Bool-cases, arith, Outcome, done, fault, ◌>>=◌, ◌<◌,
}
use cros_rt.Base.Int.{ℤ, pos, negsuc, eqb_ℤ}
use cros_rt.Buckets.{delete_entry, put_bucket, hash_size, has_entry, empty_table}
use cros_rt.Driver.Ports.{
  port_of, Ports, priority_count, mark_in_use, set_port_priority, get_port_priority,
  remove_port_priority, get_next_highest_priority,
}
use cros_rt.Driver.Ports.Laws.{
  get-find, IsWellFormed, set-IsWellFormed, remove-IsWellFormed, remove_present, remove_absent,
}
use cros_rt.Driver.Ports.Stacks.{
  newest, has_entry-priorities, find_entry-priorities, stacks_of, stacks_of-set, stacks_of-delete,
}

-- A call. `set` carries whether memory is allocated.
pub data Call : Type 0 where
  set : Bool → ℤ → ℤ → Call
  remove : ℤ → Call
  get : ℤ → Call
  next : ℕ → Call

-- What a sequence of calls answers, up to the first that faults; a call without a value answers 0.
unfoldable pub observe :
    {S : Type 0} → (Call → S → Outcome (ℤ × S)) → List Call → S → List (Outcome ℤ)
observe step [] s = []
observe step (c ∷ l) s = elim (step c s) [
  | fault ↦ fault ∷ []
  | done (v, t) ↦ done v ∷ observe step l t
]

abbrev silent : {S : Type 0} → Outcome S → Outcome (ℤ × S)
silent o = o >>= λ s. done (pos 0, s)

-- The calls on the table of the driver.
unfoldable pub table_call : (ℤ → ℕ) → Call → Ports → Outcome (ℤ × Ports)
table_call hash (set allocated priority port) s =
    silent (set_port_priority hash allocated priority port s)
table_call hash (remove port) s = silent (remove_port_priority hash port s)
table_call hash (get port) s = done (get_port_priority hash port s, s)
table_call hash (next current) s = done (pos (get_next_highest_priority s.in_use current), s)

-- The state that a caller may think of: the priorities of each port, newest first, and the marks.
pub record Stacks : Type 0 where
  pub stacks : ℤ → List ℤ
  pub in_use : ℕ → Bool

abbrev change : ℤ → List ℤ → Stacks → Stacks
change port l s = record s { stacks = λ q. if eqb_ℤ port q then l else s.stacks q }

abbrev mark : ℕ → Bool → Stacks → Stacks
mark n value s = record s { in_use = λ i. if n == i then value else s.in_use i }

-- The calls on such a state: `set` pushes, and marks the priority; `remove` pops, or clears the
-- mark of 0 where there is nothing to pop; `get` reads the top, or 0.
unfoldable pub stack_call : Call → Stacks → Outcome (ℤ × Stacks)
stack_call (set false priority port) s = done (pos 0, s)
stack_call (set true (negsuc n) port) s = fault
stack_call (set true (pos n) port) s =
    let pushed = change port (pos n ∷ s.stacks port) s in
    done (pos 0, (if ltb n priority_count then mark n true pushed else pushed))
stack_call (remove port) s = done (
  pos 0,
  (if is_nil (s.stacks port) then mark 0 false s else change port (rest (s.stacks port)) s),
)
stack_call (get port) s = done (newest (s.stacks port), s)
stack_call (next current) s = done (pos (get_next_highest_priority s.in_use current), s)

module _ (hash : ℤ → ℕ) (hash_lt : (k : ℤ) → hash k < hash_size) where
  abbrev pub view : Ports → Stacks
  view s = record { stacks = stacks_of hash s.table; in_use = s.in_use }

  -- Both fault, or both answer the same and lead to the same stacks.
  abbrev Agree : Ports → Call → Type 0
  Agree s c =
      ((table_call hash c s ≡ fault) × (stack_call c (view s) ≡ fault))
      ⊎ ((v : ℤ) × (t : Ports) × (table_call hash c s ≡ done (v, t))
          × (stack_call c (view s) ≡ done (v, view t))
          × IsWellFormed hash hash_lt t)

  -- The table with a new entry.
  abbrev stored : ℤ → ℤ → (ℕ → Bool) → Ports → Ports
  stored priority port in_use s = record {
    table =
        put_bucket s.table (hash port)
          (record { port = port; priority = priority } ∷ s.table (hash port));
    in_use = in_use;
  }

  -- One call of `set` with memory for the entry.
  set-Agree :
      (priority port : ℤ) (s : Ports)
      → IsWellFormed hash hash_lt s
      → Agree s (set true priority port)
  unfolding table_call stack_call set_port_priority mark_in_use
  set-Agree (negsuc n) port s w = inl (refl, refl)
  set-Agree (pos n) port s w = elim (Bool-cases (ltb n priority_count)) [
    | inl small ↦
        by_marks (λ i. if n == i then true else s.in_use i) (rw small refl)
          (rw (small, stacks_of-set hash s.table port (pos n)) refl)
    | inr large ↦
        by_marks s.in_use (rw large refl) (rw (large, stacks_of-set hash s.table port (pos n)) refl)
  ]
    where
      by_marks :
          (in_use : ℕ → Bool)
          → set_port_priority hash true (pos n) port s ≡ done (stored (pos n) port in_use s)
          → stack_call (set true (pos n) port) (view s)
            ≡ done (pos 0, view (stored (pos n) port in_use s))
          → Agree s (set true (pos n) port)
      by_marks in_use run spec =
          let t = stored (pos n) port in_use s in
          inr (
            pos 0,
            t,
            ap silent run,
            spec,
            set-IsWellFormed hash hash_lt true (pos n) port s t w run,
          )

  nothing_left :
      (port : ℤ) (s : Ports) (b : Bool)
      → has_entry port_of port (s.table (hash port)) ≡ b
      → is_nil (stacks_of hash s.table port) ≡ not b
  nothing_left port s b h = let e = has_entry-priorities port (s.table (hash port)) in ground arith

  remove-Agree : (port : ℤ) (s : Ports) → IsWellFormed hash hash_lt s → Agree s (remove port)
  unfolding table_call stack_call
  remove-Agree port s w = elim (Bool-cases (has_entry port_of port (s.table (hash port)))) [
    | inl has ↦
        let run = remove_present hash hash_lt port s w has in
        inr (
          pos 0,
          record s {
            table =
                put_bucket s.table (hash port) (delete_entry port_of port (s.table (hash port)));
          },
          rw run refl,
          rw (nothing_left port s true has, stacks_of-delete hash s.table port) refl,
          remove-IsWellFormed hash hash_lt port s _ w run,
        )
    | inr gone ↦
        let run = remove_absent hash hash_lt port s w gone in
        inr (
          pos 0,
          record s { in_use = λ i. if 0 == i then false else s.in_use i },
          rw run refl,
          rw (nothing_left port s false gone) refl,
          remove-IsWellFormed hash hash_lt port s _ w run,
        )
  ]

  get_newest :
      (port : ℤ) (s : Ports) → get_port_priority hash port s ≡ newest (stacks_of hash s.table port)
  get_newest port s =
      get-find hash hash_lt port s ∙ find_entry-priorities port (s.table (hash port))

  call-Agree : (c : Call) (s : Ports) → IsWellFormed hash hash_lt s → Agree s c
  unfolding table_call stack_call set_port_priority
  call-Agree (set true priority port) s w = set-Agree priority port s w
  call-Agree (set false priority port) s w = inr (pos 0, s, refl, refl, w)
  call-Agree (remove port) s w = remove-Agree port s w
  call-Agree (get port) s w = inr (_, s, refl, rw (get_newest port s) refl, w)
  call-Agree (next current) s w = inr (_, s, refl, refl, w)

  -- Where each entry stands in its bucket, the table answers any sequence of calls as the stacks
  -- do, and faults where they do.
  pub table-refines :
      (l : List Call) (s : Ports)
      → IsWellFormed hash hash_lt s
      → observe (table_call hash) l s ≡ observe stack_call l (view s)
  unfolding observe
  table-refines [] s w = refl
  table-refines (c ∷ l) s w = elim (call-Agree c s w) [
    | inl (a, b) ↦ rw (a, b, observe) refl
    | inr (v, t, a, b, w') ↦ rw (a, b, observe) (ap (λ k. done v ∷ k) (table-refines l t w'))
  ]

abbrev pub no_ports : Ports
no_ports = record { table = empty_table; in_use = λ i. false }

-- From the table that the driver starts with, no sequence of calls tells one hash function from
-- another.
pub table_hash_free :
    (hash hash' : ℤ → ℕ)
    → ((k : ℤ) → hash k < hash_size)
    → ((k : ℤ) → hash' k < hash_size)
    → (l : List Call) → observe (table_call hash) l no_ports ≡ observe (table_call hash') l no_ports
table_hash_free hash hash' h h' l =
    table-refines hash h l no_ports (λ b. tt) ∙ sym (table-refines hash' h' l no_ports (λ b. tt))
