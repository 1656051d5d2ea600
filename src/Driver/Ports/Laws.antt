-- ===== src/Driver/Ports/Laws.antt =====
-- Setting, looking up and removing the priority of a port.
use cros_rt.Base.{
  done-injective, ◌↔◌, ltb, ℕ, ◌<◌, ◌≡◌, ◌≢◌, refl, sym, ap, ◌∙◌, inl, inr, Bool, true, false,
  arith, ◌==◌, if◌then◌else◌, Bool-cases, Option-cases, done, fault, ◌∷◌,
}
use cros_rt.Base.Int.{ℤ, pos, negsuc, eqb_ℤ, eqb_ℤ_refl, ltb_ℤ}
use cros_rt.Buckets.{
  Table, hash_size, put_bucket, find_entry, delete_entry, has_entry, find_bucket, IsPlaced,
}
use cros_rt.Buckets.Laws.{
  has_entry-find, delete_entry-InBucket, has_entry-hash, find_bucket-has, find_bucket-none,
  put_bucket-IsPlaced, find_entry-add, put_bucket-put, find_entry-delete_bucket,
}
use cros_rt.Driver.Ports.Stacks.{priority_or_zero}
use cros_rt.Driver.Ports.{
  PortPriority, port_of, Ports, set_port_priority, get_port_priority, remove_port_priority,
  remove_found,
}

done_if {ℓ} :
    {A : Type ℓ} (b : Bool) (x y : A) → (z : A) × ((if b then done x else done y) ≡ done z)
done_if true x y = (x, refl)
done_if false x y = (y, refl)

module _ (hash : ℤ → ℕ) (hash_lt : (k : ℤ) → hash k < hash_size) where
  -- Each entry stands in the bucket of its port.
  abbrev pub IsWellFormed : Ports → Type 0
  IsWellFormed s = IsPlaced port_of hash s.table

  set-table :
      (priority port : ℤ) (s t : Ports)
      → set_port_priority hash true priority port s ≡ done t
      → t.table
        ≡ put_bucket s.table
            (hash port)
            (record { port = port; priority = priority } ∷ s.table (hash port))
  unfolding set_port_priority
  set-table (pos n) port s t h = ground arith
  set-table (negsuc n) port s t h = cc

  -- A priority that is not negative is stored wherever memory is allocated.
  pub set_total :
      (priority : ℕ) (port : ℤ) (s : Ports)
      → (t : Ports) × (set_port_priority hash true (pos priority) port s ≡ done t)
  unfolding set_port_priority
  set_total priority port s = done_if (ltb priority 100) _ _

  pub set-fault :
      (allocated : Bool) (priority port : ℤ) (s : Ports)
      → (set_port_priority hash allocated priority port s ≡ fault)
        ↔ ((allocated ≡ true) × (ltb_ℤ priority (pos 0) ≡ true))
  unfolding set_port_priority
  set-fault false priority port s = (λ h. cc, λ h. cc (h.0))
  set-fault true (pos n) port s = (λ h. ground arith, λ h. ground arith)
  set-fault true (negsuc n) port s = (λ h. (refl, ground arith), λ h. refl)

  pub get-find :
      (q : ℤ) (s : Ports)
      → get_port_priority hash q s ≡ priority_or_zero (find_entry port_of q (s.table (hash q)))
  unfolding get_port_priority
  get-find q s = ground arith

  -- After setting a port's priority, looking up a port gives that priority for this port and what
  -- it gave before for any other.
  pub get-set :
      (priority port q : ℤ) (s t : Ports)
      → set_port_priority hash true priority port s ≡ done t
      → get_port_priority hash q t ≡ (if eqb_ℤ port q then priority else get_port_priority hash q s)
  get-set priority port q s t h =
      rw
        (
          get-find q t,
          get-find q s,
          set-table priority port s t h,
          find_entry-add port_of hash s.table (record { port = port; priority = priority }) q,
        )
        (ground arith)

  get_missing :
      (port : ℤ) (s : Ports)
      → has_entry port_of port (s.table (hash port)) ≡ false
      → get_port_priority hash port s ≡ pos 0
  get_missing port s h =
      get-find port s ∙ ap priority_or_zero (has_entry-find port_of port (s.table (hash port)) h)

  pub remove_present :
      (port : ℤ) (s : Ports)
      → IsWellFormed s
      → has_entry port_of port (s.table (hash port)) ≡ true
      → remove_port_priority hash port s
        ≡ done (record s {
          table = put_bucket s.table (hash port) (delete_entry port_of port (s.table (hash port)));
        })
  unfolding remove_port_priority
  remove_present port s w h = elim (Option-cases (find_bucket port_of s.table port hash_size 0)) [
    | inl none_found ↦
        let gone =
          find_bucket-none port_of s.table port hash_size 0 (hash port) none_found (omega arith)
            (omega (arith, hash_lt port)) in
        cc
    | inr (b, at) ↦
        let has = find_bucket-has port_of s.table port hash_size 0 b at in
        let home = has_entry-hash port_of hash port b (s.table b) (w b) has in
        rw (at, remove_found, home) refl
  ]

  pub remove_absent :
      (port : ℤ) (s : Ports)
      → IsWellFormed s
      → has_entry port_of port (s.table (hash port)) ≡ false
      → remove_port_priority hash port s
        ≡ done (record s { in_use = λ i. if 0 == i then false else s.in_use i })
  unfolding remove_port_priority
  remove_absent port s w h = elim (Option-cases (find_bucket port_of s.table port hash_size 0)) [
    | inl none_found ↦ rw (none_found, get_missing port s h) refl
    | inr (b, at) ↦
        let has = find_bucket-has port_of s.table port hash_size 0 b at in
        let home = has_entry-hash port_of hash port b (s.table b) (w b) has in
        absurd (present_here b home has)
  ]
    where
      present_here : (b : ℕ) → hash port ≡ b → has_entry port_of port (s.table b) ≡ true → ⊥
      present_here b home has = cc (ap (λ c. has_entry port_of port (s.table c)) home)

  pub set-IsWellFormed :
      (allocated : Bool) (priority port : ℤ) (s t : Ports)
      → IsWellFormed s
      → set_port_priority hash allocated priority port s ≡ done t
      → IsWellFormed t
  unfolding set_port_priority
  set-IsWellFormed false priority port s t w h = let e : s ≡ t = ground arith in rw (← e) w
  set-IsWellFormed true priority port s t w h =
      rw (set-table priority port s t h)
        (put_bucket-IsPlaced port_of hash s.table (hash port) _ w (refl, w (hash port)))

  -- A priority that is not negative never makes the call fault.
  pub set_any :
      (allocated : Bool) (priority : ℕ) (port : ℤ) (s : Ports)
      → IsWellFormed s
      → (t : Ports) × (set_port_priority hash allocated (pos priority) port s ≡ done t)
        × IsWellFormed t
  unfolding set_port_priority
  set_any false priority port s w = (s, refl, w)
  set_any true priority port s w =
      let (t, e) = set_total priority port s in
      (t, e, set-IsWellFormed true (pos priority) port s t w e)

  pub remove-IsWellFormed :
      (port : ℤ) (s t : Ports)
      → IsWellFormed s
      → remove_port_priority hash port s ≡ done t
      → IsWellFormed t
  remove-IsWellFormed port s t w h =
      elim (Bool-cases (has_entry port_of port (s.table (hash port)))) [
        | inl has ↦
            let e = done-injective (sym (remove_present port s w has) ∙ h) in
            rw (← e) (
              put_bucket-IsPlaced port_of hash s.table (hash port) _ w
                (delete_entry-InBucket port_of hash port (hash port) _ (w (hash port))))
        | inr gone ↦ let e = done-injective (sym (remove_absent port s w gone) ∙ h) in rw (← e) w
      ]

  -- Removing a port changes the priority of no other port.
  pub get-remove_ne :
      (port q : ℤ) (s t : Ports)
      → IsWellFormed s
      → remove_port_priority hash port s ≡ done t
      → port ≢ q
      → get_port_priority hash q t ≡ get_port_priority hash q s
  get-remove_ne port q s t w h apart =
      elim (Bool-cases (has_entry port_of port (s.table (hash port)))) [
        | inl has ↦
            let e = done-injective (sym (remove_present port s w has) ∙ h) in
            rw (← e, get-find q s, get-find q _)
              (ap priority_or_zero (find_entry-delete_bucket port_of hash s.table port q apart))
        | inr gone ↦
            let e = done-injective (sym (remove_absent port s w gone) ∙ h) in
            rw (← e, get-find q s, get-find q _) refl
      ]

  -- Removal never faults, and leaves the mark of every priority above 0 as it was: a priority stays
  -- marked as in use when its last port is removed.
  pub remove-marks :
      (port : ℤ) (s : Ports)
      → IsWellFormed s
      → (t : Ports) × (remove_port_priority hash port s ≡ done t)
        × ((i : ℕ) → 0 < i → t.in_use i ≡ s.in_use i)
  remove-marks port s w = elim (Bool-cases (has_entry port_of port (s.table (hash port)))) [
    | inl has ↦ (_, remove_present port s w has, λ i h. refl)
    | inr gone ↦ (_, remove_absent port s w gone, λ i h. ground arith)
  ]

  -- Setting a port's priority and removing the port again restores the table, and so the priority
  -- the port had before; the marks stay as the setting left them.
  pub remove-set :
      (priority port : ℤ) (s t : Ports)
      → IsWellFormed s
      → set_port_priority hash true priority port s ≡ done t
      → remove_port_priority hash port t ≡ done (record s { in_use = t.in_use })
  unfolding has_entry delete_entry
  remove-set priority port s t w h =
      remove_present port t (set-IsWellFormed true priority port s t w h) present
      ∙ ap (λ (l : Table PortPriority). done (record s { table = l; in_use = t.in_use })) restored
    where
      entry : PortPriority
      entry = record { port = port; priority = priority }

      bucket : t.table (hash port) ≡ entry ∷ s.table (hash port)
      bucket = rw (set-table priority port s t h) (ground arith)

      present : has_entry port_of port (t.table (hash port)) ≡ true
      present = rw (bucket, has_entry, eqb_ℤ_refl port) refl

      restored :
          put_bucket t.table (hash port) (delete_entry port_of port (t.table (hash port))) ≡ s.table
      restored =
          rw (bucket, delete_entry, eqb_ℤ_refl port, set-table priority port s t h)
            (put_bucket-put s.table (hash port) _)
