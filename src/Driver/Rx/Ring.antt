-- ===== src/Driver/Rx/Ring.antt =====
-- How far `rtl_rx` goes over the ring of descriptors.
use cros_rt.Base.{
  ap, ℕ, suc, ◌+◌, ◌%◌, ◌^◌, ◌≤◌, ◌<◌, ◌≡◌, refl, ◌∙◌, ◌⊎◌, inl, inr, true, ◌==◌, Bool-cases, arith,
}
use cros_rt.Driver.Rx.{RxDesc, RxRing, mark_to_asic, entry_of, current, release}

-- With a budget of `n` the loop goes over `count` descriptors: as many as the budget, or up to one
-- of the hardware; `cur_rx` moves on by as many; each descriptor is as it was or the hardware's,
-- and the mark of the ring's end stays.
pub record Received (n count : ℕ) (r t : RxRing) : Type 0 where
  pub bounded : count ≤ n
  pub stopped : (count ≡ n) ⊎ ((current t).own ≡ true)
  pub moved : t.cur_rx ≡ (r.cur_rx + count) % 2 ^ 32
  pub handed : (i : ℕ) → (t.desc i ≡ r.desc i) ⊎ ((t.desc i).own ≡ true)
  pub ring_end : (i : ℕ) → (t.desc i).ring_end ≡ (r.desc i).ring_end

pub Received-stop :
    (n : ℕ) (r : RxRing) → r.cur_rx < 2 ^ 32 → (0 ≡ n) ⊎ ((current r).own ≡ true) → Received n 0 r r
Received-stop n r word why = record {
  bounded = omega arith;
  stopped = why;
  moved = omega (arith, word);
  handed = λ i. inl refl;
  ring_end = λ i. refl;
}

pub release_word : (r : RxRing) → (release r).cur_rx < 2 ^ 32
unfolding release
release_word r = omega arith

release_moved : (r : RxRing) → (release r).cur_rx ≡ (r.cur_rx + 1) % 2 ^ 32
unfolding release
release_moved r = refl

release_end : (r : RxRing) (i : ℕ) → ((release r).desc i).ring_end ≡ (r.desc i).ring_end
unfolding release mark_to_asic
release_end r i = ground arith

release_handed :
    (r : RxRing) (i : ℕ) → ((release r).desc i ≡ r.desc i) ⊎ (((release r).desc i).own ≡ true)
unfolding release mark_to_asic
release_handed r i = elim (Bool-cases (entry_of r == i)) [
  | inl here ↦ inr (rw (here, release) refl)
  | inr elsewhere ↦ inl (rw (elsewhere, release) refl)
]

handed_on :
    (a b d : RxDesc)
    → (b ≡ a) ⊎ (b.own ≡ true)
    → (d ≡ b) ⊎ (d.own ≡ true)
    → (d ≡ a) ⊎ (d.own ≡ true)
handed_on a b d h (inr own) = inr own
handed_on a b d (inl same) (inl e) = inl (e ∙ same)
handed_on a b d (inr own) (inl e) = inr (ap (λ x. x.own) e ∙ own)

pub Received-release :
    (n count : ℕ) (r t : RxRing) → Received n count (release r) t → Received (suc n) (count + 1) r t
Received-release n count r t k =
    let start = release_moved r in
    record {
      bounded = omega (arith, k.bounded);
      stopped = ground (arith, k.stopped);
      moved = omega (arith, k.moved, start);
      handed = λ i.
          handed_on (r.desc i) ((release r).desc i) (t.desc i) (release_handed r i) (k.handed i);
      ring_end = λ i. k.ring_end i ∙ release_end r i;
    }
