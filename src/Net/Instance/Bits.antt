-- ===== src/Net/Instance/Bits.antt =====
-- The state word of a NAPI instance as the number that net/core/dev.c computes with: the updates of
-- `napi_schedule_prep` and `napi_complete_done`, bit by bit.
use cros_rt.Base.{
  ℕ, ◌+◌, ◌-◌, ◌*◌, ◌/◌, ◌%◌, ◌≤◌, ◌≡◌, refl, ◌∙◌, Bool, true, false, not, ◌||◌, arith, ◌==◌,
  if◌then◌else◌,
}
use cros_rt.Net.Instance.{Word, Inst, completed_word, napi_schedule_prep}

abbrev pub bit : Bool → ℕ
bit true = 1
bit false = 0

bit_le : (b : Bool) → bit b ≤ 1
bit_le true = omega arith
bit_le false = omega arith

-- The enumeration NAPI_STATE_* numbers the bits.
unfoldable pub encode : Word → ℕ
encode w =
    bit w.sched
    + bit w.missed * 2
    + bit w.disable * 4
    + bit w.npsvc * 8
    + bit w.listed * 16
    + bit w.no_busy_poll * 32
    + bit w.in_busy_poll * 64
    + bit w.prefer_busy_poll * 128
    + bit w.threaded * 256
    + bit w.sched_threaded * 512

-- `val & mask` for a mask of one bit.
unfoldable pub and_bit : ℕ → ℕ → ℕ
and_bit mask val = val / mask % 2 * mask

-- `val | times * mask`, where `times` is 0 or 1.
unfoldable pub or_bit : ℕ → ℕ → ℕ → ℕ
unfolding and_bit
or_bit mask times val = if times == 0 then val else val + (mask - and_bit mask val)

-- `val & ~mask`
unfoldable pub clear_bit : ℕ → ℕ → ℕ
unfolding and_bit
clear_bit mask val = val - and_bit mask val

-- The loop body of `napi_schedule_prep`: what it returns, and the new word.
unfoldable pub prep_word : ℕ → Bool × ℕ
unfolding and_bit or_bit
prep_word val =
    if not (and_bit 4 val == 0)
    then (false, val)
    else (and_bit 1 val == 0, or_bit 2 (and_bit 1 val / 1) (or_bit 1 1 val))

-- The loop body of `napi_complete_done`.
unfoldable pub complete_word : ℕ → ℕ
unfolding and_bit or_bit clear_bit
complete_word val =
    or_bit 1 (and_bit 2 val / 2) (clear_bit 128 (clear_bit 512 (clear_bit 1 (clear_bit 2 val))))

-- A word by its ten bits.
abbrev ten : (a b c d e f g h i j : ℕ) → ℕ
ten a b c d e f g h i j =
    a + b * 2 + c * 4 + d * 8 + e * 16 + f * 32 + g * 64 + h * 128 + i * 256 + j * 512

-- The three bits that decide, and any others.
prep_bits :
    (sched missed disable : Bool) (d e f g h i j : ℕ)
    → prep_word (ten (bit sched) (bit missed) (bit disable) d e f g h i j) ≡ (
        if disable
        then (false, ten (bit sched) (bit missed) (bit disable) d e f g h i j)
        else (not sched, ten 1 (bit (missed || sched)) (bit disable) d e f g h i j))
unfolding prep_word and_bit or_bit
prep_bits sched missed true d e f g h i j = ground (arith, bit_le sched, bit_le missed)
prep_bits true true false d e f g h i j = ground arith
prep_bits true false false d e f g h i j = ground arith
prep_bits false true false d e f g h i j = ground arith
prep_bits false false false d e f g h i j = ground arith

complete_bits :
    (sched missed prefer sched_threaded : Bool) (c d e f g i : ℕ)
    → c ≤ 1
    → d ≤ 1
    → e ≤ 1
    → f ≤ 1
    → g ≤ 1
    → i ≤ 1
    → complete_word (ten (bit sched) (bit missed) c d e f g (bit prefer) i (bit sched_threaded))
      ≡ ten (bit missed) 0 c d e f g 0 i 0
unfolding complete_word and_bit or_bit clear_bit
complete_bits sched true prefer sched_threaded c d e f g i lc ld le lf lg li =
    ground (arith, bit_le sched, bit_le prefer, bit_le sched_threaded)
complete_bits sched false prefer sched_threaded c d e f g i lc ld le lf lg li =
    ground (arith, bit_le sched, bit_le prefer, bit_le sched_threaded)

complete_word-encode : (w : Word) → complete_word (encode w) ≡ encode (completed_word w)
unfolding encode
complete_word-encode w =
    complete_bits w.sched w.missed w.prefer_busy_poll w.sched_threaded (bit w.disable) (bit w.npsvc)
      (bit w.listed) (bit w.no_busy_poll) (bit w.in_busy_poll) (bit w.threaded) (bit_le w.disable)
      (bit_le w.npsvc) (bit_le w.listed) (bit_le w.no_busy_poll) (bit_le w.in_busy_poll)
      (bit_le w.threaded)

prep_word-encode :
    {G : Type 0} (n : Inst G)
    → prep_word (encode n.state) ≡ ((napi_schedule_prep n).0, encode (napi_schedule_prep n).1.state)
unfolding encode napi_schedule_prep
prep_word-encode n =
    let w = n.state in
    prep_bits w.sched w.missed w.disable (bit w.npsvc) (bit w.listed) (bit w.no_busy_poll)
      (bit w.in_busy_poll) (bit w.prefer_busy_poll) (bit w.threaded) (bit w.sched_threaded)
    ∙ by_disable w.disable refl
  where
    by_disable :
        (b : Bool)
        → n.state.disable ≡ b
        → ◌≡◌ {A = Bool × ℕ}
            (if b then (false, encode n.state) else (
              not n.state.sched,
              encode (record (n.state) { sched = true; missed = n.state.missed || n.state.sched }),
            ))
            ((napi_schedule_prep n).0, encode (napi_schedule_prep n).1.state)
    by_disable true e = simp e refl
    by_disable false e = simp e refl

-- The bit arithmetic of the state word is the update of its flags: on the word of any instance, the
-- loop of `napi_schedule_prep` returns what the flags say and stores SCHED, with MISSED where SCHED
-- was set, unless DISABLE is set; and the loop of `napi_complete_done` clears MISSED, SCHED,
-- SCHED_THREADED and PREFER_BUSY_POLL, with SCHED set again where MISSED was.
pub word-encode :
    {G : Type 0} (n : Inst G)
    → (prep_word (encode n.state)
        ≡ ((napi_schedule_prep n).0, encode (napi_schedule_prep n).1.state))
      × (complete_word (encode n.state) ≡ encode (completed_word n.state))
word-encode n = (prep_word-encode n, complete_word-encode n.state)
