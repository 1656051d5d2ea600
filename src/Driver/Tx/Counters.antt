-- ===== src/Driver/Tx/Counters.antt =====
-- The two counters of the ring as numbers that wrap.
use cros_rt.Base.{
  true_ne_false, ltb→lt, lt→ltb, ℕ, ◌+◌, ◌-◌, ◌%◌, ◌^◌, ◌≤◌, ◌<◌, ◌≡◌, ◌≢◌, refl, sym, ◌∙◌, Bool,
  true, false, not, ◌&&◌, ltb, if◌then◌else◌, arith,
}
use cros_rt.Driver.Tx.{num_tx_desc, max_skb_frags}

-- `cur_tx - dirty_tx`, an unsigned int.
abbrev pub in_flight : ℕ → ℕ → ℕ
in_flight cur dirty = (cur + (2 ^ 32 - dirty)) % 2 ^ 32

pub avail_iff :
    (cur dirty : ℕ)
    → cur < 2 ^ 32
    → dirty < 2 ^ 32
    → in_flight cur dirty ≤ 256
    → ltb max_skb_frags ((dirty + num_tx_desc + (2 ^ 32 - cur)) % 2 ^ 32)
      ≡ ltb (in_flight cur dirty) 239
avail_iff cur dirty c d h = ground (arith, h)

pub in_flight_add :
    (cur dirty n : ℕ)
    → cur < 2 ^ 32
    → dirty < 2 ^ 32
    → in_flight cur dirty + n < 2 ^ 32
    → in_flight ((cur + n) % 2 ^ 32) dirty ≡ in_flight cur dirty + n
in_flight_add cur dirty n c d h = omega (arith, h)

pub in_flight_next :
    (cur dirty : ℕ)
    → cur < 2 ^ 32
    → dirty < 2 ^ 32
    → cur ≢ dirty
    → in_flight cur ((dirty + 1) % 2 ^ 32) + 1 ≡ in_flight cur dirty
in_flight_next cur dirty c d n = omega (arith, n)

pub stop_false :
    (avail stopped : Bool) → (if not avail then true else stopped) ≡ false → avail ≡ true
stop_false true stopped h = refl
stop_false false stopped h = absurd (true_ne_false h)

abbrev pub room_at : ℕ → ℕ → Bool
room_at cur dirty = ltb max_skb_frags ((dirty + num_tx_desc + (2 ^ 32 - cur)) % 2 ^ 32)

-- Fewer in flight leave as much room.
pub avail_mono :
    (cur dirty later : ℕ)
    → cur < 2 ^ 32
    → dirty < 2 ^ 32
    → later < 2 ^ 32
    → in_flight cur later ≤ in_flight cur dirty
    → in_flight cur dirty ≤ 256
    → room_at cur dirty ≡ true
    → room_at cur later ≡ true
avail_mono cur dirty later c d l less bounded h =
    let room = sym (avail_iff cur dirty c d bounded) ∙ h in
    let small = ltb→lt (in_flight cur dirty) 239 room in
    avail_iff cur later c l (omega (arith, less, bounded))
    ∙ lt→ltb (in_flight cur later) 239 (omega (arith, less, small))

pub woken_fits :
    (avail stopped : Bool)
    → (if stopped && avail then false else stopped) ≡ false
    → (stopped ≡ false → avail ≡ true)
    → avail ≡ true
woken_fits true stopped h f = refl
woken_fits false true h f = absurd (true_ne_false h)
woken_fits false false h f = f refl

pub woken_runs :
    (avail stopped : Bool)
    → (stopped ≡ false → avail ≡ true)
    → (if stopped && avail then false else stopped) ≡ not avail
woken_runs true true f = refl
woken_runs true false f = refl
woken_runs false true f = refl
woken_runs false false f = absurd (true_ne_false (sym (f refl)))
