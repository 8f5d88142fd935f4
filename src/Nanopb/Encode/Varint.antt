-- ===== src/Nanopb/Encode/Varint.antt =====
-- `pb_encode_varint` writes the varint of its value.
use teta.Prelude.{ℕ, zero, suc, ◌+◌, ◌/◌, ◌%◌, ◌^◌, ◌≤◌, ◌<◌, ◌≡◌, refl, ap, ◌∙◌, arith, inl, inr}
use teta.Prelude.{List, [], ◌∷◌, length, ltb, leb, IsU64, bit_and, bit_or, u8, and_ones, or_shifted}
use teta.Prelude.{Bool-cases, ltb→lt, ltb→ge, leb→le, leb→gt}
use mathlib.Core.Path.{subst}
use teta.Nanopb.Ostream.{pb_write}
use teta.Nanopb.Ostream.Emits.{Emits, pb_write-Emits}
use teta.Nanopb.Wire.{base128, varint}
use teta.Nanopb.Encode.{varint_loop, unset_top_bit, pb_encode_varint}

digit : (v : ℕ) → bit_and v 0x7f ≡ v % 128
digit v = and_ones 7 v

marked_digit : (v : ℕ) → u8 (bit_or (bit_and v 0x7f) 0x80) ≡ v % 128 + 128
marked_digit v =
    omega (arith, ap (λ (t : ℕ). bit_or t 0x80) (digit v), or_shifted 7 (v % 128) 1 (omega arith))

last_digit : (v : ℕ) → 0 < v → v < 128 → bit_and (v % 128 + 128) 0x7f ≡ v
last_digit v h lt = omega (arith, digit (v % 128 + 128))

loop_zero : (room : ℕ) → varint_loop room 0 ≡ []
unfolding varint_loop
loop_zero zero = refl
loop_zero (suc room) = refl

loop_round :
    (room v : ℕ) → 0 < v → varint_loop (suc room) v ≡ (v % 128 + 128) ∷ varint_loop room (v / 128)
unfolding varint_loop
loop_round room v h = ground (arith, marked_digit v)

loop_last : (room v : ℕ) → 0 < v → v < 128 → unset_top_bit (varint_loop (suc room) v) ≡ v ∷ []
loop_last room v h small =
    rw (loop_round room v h, done, loop_zero room)
      (unfold unset_top_bit in rw (last_digit v h small))
  where
    done : v / 128 ≡ 0
    done = omega arith

unset_behind :
    (b room v : ℕ)
    → 0 < v
    → unset_top_bit (b ∷ varint_loop (suc room) v) ≡ b ∷ unset_top_bit (varint_loop (suc room) v)
unset_behind b room v h = rw (loop_round room v h) (unfold unset_top_bit in refl)

-- The loop ends by its test within `k + 1` rounds, when `v` has at most that many digits.
loop-base128 :
    (k v : ℕ) → 0 < v → v < 128 ^ suc k → unset_top_bit (varint_loop (suc k) v) ≡ base128 k v
loop-base128 zero v pos h = loop_last 0 v pos (omega arith) ∙ unfold base128 in refl
loop-base128 (suc k) v pos h = elim (Bool-cases (ltb v 128)) [
  | inl small ↦ loop_last (suc k) v pos (ltb→lt _ _ small) ∙ unfold base128 in rw small
  | inr large ↦
      let more : 0 < v / 128 = omega (arith, ltb→ge _ _ large) in
      ap unset_top_bit (loop_round (suc k) v pos)
      ∙ unset_behind (v % 128 + 128) k (v / 128) more
      ∙ ap (◌∷◌ (v % 128 + 128)) (loop-base128 k (v / 128) more (omega arith))
      ∙ unfold base128 in rw large
]

-- `buffer[10]` is long enough: after ten rounds no digit is left.
pub varint_loop_ends : (v : ℕ) → IsU64 v → v / 128 ^ 10 ≡ 0
varint_loop_ends v h = omega arith

varint_small : (v : ℕ) → v ≤ 0x7f → u8 v ∷ [] ≡ varint v
unfolding base128
varint_small v h = ground arith

pub writes-Emits : {bs cs : List ℕ} → bs ≡ cs → Emits (pb_write bs (length bs)) cs
writes-Emits {bs} e = subst (λ cs. Emits (pb_write bs (length bs)) cs) e (pb_write-Emits bs)

pub pb_encode_varint-Emits : (v : ℕ) → IsU64 v → Emits (pb_encode_varint v) (varint v)
unfolding pb_encode_varint
pb_encode_varint-Emits v h = elim (Bool-cases (leb v 0x7f)) [
  | inl small ↦ rw small (writes-Emits (varint_small v (leb→le v 0x7f small)))
  | inr large ↦
      rw large (writes-Emits (loop-base128 9 v (omega (arith, leb→gt v 0x7f large)) (omega arith)))
]
