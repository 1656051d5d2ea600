-- ===== src/Driver/Tx/Packets.antt =====
-- The packets that wait in the Tx ring, seen as a list.
use mathlib.Core.Path.{ap₂}
use cros_rt.Base.{
  ◌≢◌, some, Option, ℕ, zero, suc, ◌+◌, ◌%◌, ◌≤◌, ◌<◌, ◌≡◌, refl, ap, sym, ◌∙◌, none, List, [],
  ◌++◌, ◌∷◌, append_assoc, arith, to_list, some, ◌≢◌, Option,
}
use cros_rt.Driver.Tx.{RingInfo, Tx}
use cros_rt.Driver.Tx.Counters.{in_flight}

module _ {Skb : Type 0} where
  abbrev pub skb_at : Tx Skb → ℕ → Option Skb
  skb_at s i = (s.tx_skb i).skb

  -- The packets of `n` entries from `start` on.
  abbrev pub packets : (ℕ → RingInfo Skb) → ℕ → ℕ → List Skb
  packets f start zero = []
  packets f start (suc n) = to_list ((f (start % 256)).skb) ++ packets f (start + 1) n

  -- Those from `dirty_tx` up to `cur_tx`.
  abbrev pub in_ring : Tx Skb → List Skb
  in_ring s = packets s.tx_skb s.dirty_tx (in_flight s.cur_tx s.dirty_tx)

  pub packets-same :
      (f g : ℕ → RingInfo Skb) (n start other : ℕ)
      → start % 256 ≡ other % 256
      → ((i k : ℕ) → k < n → (start + k) % 256 ≡ i → (f i).skb ≡ (g i).skb)
      → packets f start n ≡ packets g other n
  packets-same f g zero start other e h = refl
  packets-same f g (suc n) start other e h =
      ap₂ (λ skb l. to_list skb ++ l)
        (h (start % 256) 0 (omega arith) (omega arith) ∙ ap (λ i. (g i).skb) e)
        (packets-same f g n (start + 1) (other + 1) (omega (arith, e))
          (λ i k lt at. h i (suc k) (omega (arith, lt)) (omega (arith, at))))

  pub packets-append :
      (f : ℕ → RingInfo Skb) (n m start : ℕ)
      → packets f start (n + m) ≡ packets f start n ++ packets f (start + n) m
  packets-append f zero m start =
      ap (packets f start) no_more
      ∙ packets-same f f m start (start + 0) (omega arith) (λ i k lt at. refl)
    where
      no_more : 0 + m ≡ m
      no_more = omega arith
  packets-append f (suc n) m start =
      ap (packets f start) same_sum
      ∙ ap (λ l. to_list ((f (start % 256)).skb) ++ l)
          (packets-append f n m (start + 1)
            ∙ ap (λ k. packets f (start + 1) n ++ packets f k m) shift)
      ∙ sym (
          append_assoc (to_list ((f (start % 256)).skb)) (packets f (start + 1) n)
            (packets f (start + suc n) m))
    where
      same_sum : suc n + m ≡ suc (n + m)
      same_sum = omega arith

      shift : start + 1 + n ≡ start + suc n
      shift = omega arith

  pub packets-none :
      (f : ℕ → RingInfo Skb) (n start : ℕ)
      → ((i k : ℕ) → k < n → (start + k) % 256 ≡ i → (f i).skb ≡ none)
      → packets f start n ≡ []
  packets-none f zero start h = refl
  packets-none f (suc n) start h = rw (h (start % 256) 0 (omega arith) (omega arith)) (
      packets-none f n (start + 1)
        (λ i k lt at. h i (suc k) (omega (arith, lt)) (omega (arith, at))))

  -- Outside of the window from `dirty` up to `cur_tx` no entry has a packet, and where one has a
  -- packet it has a length.
  pub record IsTidy (dirty : ℕ) (s : Tx Skb) : Type 0 where
    pub free :
        (i k : ℕ)
        → in_flight s.cur_tx dirty ≤ k
        → k < 256
        → (dirty + k) % 256 ≡ i
        → skb_at s i ≡ none
    pub mapped : (i : ℕ) → (s.tx_skb i).len ≡ 0 → skb_at s i ≡ none

  -- A packet at the last of `m + 1` entries after a window of `n`.
  pub packets-push :
      (f g : ℕ → RingInfo Skb) (skb : Skb) (n m start last : ℕ)
      → n + m < 256
      → (start + (n + m)) % 256 ≡ last
      → (f last).skb ≡ some skb
      → ((i : ℕ) → last ≢ i → (f i).skb ≡ (g i).skb)
      → ((i k : ℕ) → n ≤ k → k < 256 → (start + k) % 256 ≡ i → (g i).skb ≡ none)
      → packets f start (n + (m + 1)) ≡ packets g start n ++ (skb ∷ [])
  packets-push f g skb n m start last small at here other free =
      packets-append f n (m + 1) start
      ∙ ap₂ (λ l r. l ++ r)
          (packets-same f g n start start refl
            (λ i k lt at'. other i (omega (arith, at, at', lt, small))))
          (packets-append f m 1 (start + n)
            ∙ ap₂ (λ l r. l ++ r)
                (packets-none f m (start + n) (λ i k lt at'.
                  other i (omega (arith, at, at', lt, small))
                  ∙ free i (n + k) (omega arith) (omega (arith, lt, small)) (omega (arith, at'))))
                (ap (λ skb. to_list skb ++ []) (ap (λ i. (f i).skb) (omega (arith, at)) ∙ here)))
