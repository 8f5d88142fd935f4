-- ===== src/Nanopb/Decoder/Copies/Stored.antt =====
-- The stores of the decoders of numbers: the whole value is stored, or the call fails.
use teta.Prelude.{
  ℕ, ◌+◌, ◌*◌, ◌^◌, ◌%◌, ◌≤◌, ◌<◌, ◌≡◌, ◌≢◌, refl, ap, ◌∙◌, arith, true, false, Option, some, List,
  ◌++◌, length, ◌==◌, ◌⊎◌, inl, inr, ltb, ltb→lt, ltb→ge, Bool-cases, if◌then◌else◌,
}
use native.Mathlib.Nat.{mod-eq_of_lt, mod-lt, one-le-pow}
use teta.Nanopb.Action.{Errmsg, Action, ◌>>=◌, then_on, integer_too_large}
use teta.Nanopb.Istream.{Istream}
use teta.Nanopb.Istream.Accepts.{Accepts, on_memory}
use teta.Nanopb.Memory.{write_uint, sign_extend}
use teta.Nanopb.Machine.{Machine, fail, with_stream, on_stream}
use teta.Nanopb.Fields.{Field}
use teta.Nanopb.Decoder.Values.{store_signed, store_unsigned, by_size, pb_dec_uvarint}
use teta.Nanopb.Decode.{pb_decode_varint}

-- The sizes of integers.
abbrev pub IsIntSize : ℕ → Type 0
IsIntSize n = (n ≡ 1) ⊎ ((n ≡ 2) ⊎ ((n ≡ 4) ⊎ (n ≡ 8)))

pub by_size-lem :
    (act : ℕ → Action Machine (Unit {0})) (field : Field)
    → IsIntSize field.data_size
    → by_size act field ≡ act field.data_size
by_size-lem act field (inl e) = rw e refl
by_size-lem act field (inr (inl e)) = rw e refl
by_size-lem act field (inr (inr (inl e))) = rw e refl
by_size-lem act field (inr (inr (inr e))) = rw e refl

pub bits_of_bytes : (n : ℕ) → IsIntSize n → 256 ^ n ≡ 2 ^ (8 * n)
bits_of_bytes n (inl e) = rw e refl
bits_of_bytes n (inr (inl e)) = rw e refl
bits_of_bytes n (inr (inr (inl e))) = rw e refl
bits_of_bytes n (inr (inr (inr e))) = rw e refl

same_test : (a b : ℕ) → a ≡ b → a == b ≡ true
same_test a b e = ground arith

other_test : (a b : ℕ) → a ≢ b → a == b ≡ false
other_test a b e = ground arith

pub store_unsigned-fits :
    (n dest v : ℕ) (w : Machine)
    → v < 2 ^ (8 * n)
    → store_unsigned n dest v w ≡ (some tt, record w { mem = write_uint w.mem n dest v })
unfolding store_unsigned
store_unsigned-fits n dest v w small = rw (same_test (v % 2 ^ (8 * n)) v (mod-eq_of_lt small)) refl

pub store_signed-fits :
    (n dest v : ℕ) (w : Machine)
    → sign_extend (8 * n) (v % 2 ^ (8 * n)) ≡ v
    → store_signed n dest v w ≡ (some tt, record w { mem = write_uint w.mem n dest v })
unfolding store_signed
store_signed-fits n dest v w same =
    rw (same_test (sign_extend (8 * n) (v % 2 ^ (8 * n))) v same) refl

-- The rest of a decoder that has read its value from the front of the stream.
pub after_value :
    {A : Type 0} {m : Action Istream A} {bs : List ℕ} {a : A}
    → Accepts m bs a
    → (f : A → Action Machine (Unit {0})) (w : Machine) (rest : List ℕ) (left : ℕ)
      (err : Option Errmsg)
    → (on_stream m >>= f) (record w { stream = on_memory (bs ++ rest) (length bs + left) err })
      ≡ f a (record w { stream = on_memory rest left err })
after_value {A} {m} {bs} {a} accepts f w rest left err =
    ap (λ (r : Option A × Istream). then_on (with_stream w r) f) (accepts.reads rest left err)

store_unsigned-over :
    (n dest v : ℕ) (w : Machine)
    → 2 ^ (8 * n) ≤ v
    → store_unsigned n dest v w
      ≡ fail integer_too_large (record w { mem = write_uint w.mem n dest v })
unfolding store_unsigned
store_unsigned-over n dest v w over = rw (other_test (v % 2 ^ (8 * n)) v cut) refl
  where
    cut : v % 2 ^ (8 * n) ≢ v
    cut e = absurd (omega (arith, mod-lt v (one-le-pow (8 * n) 2 (omega arith)), e))

-- For a member of an integer size: where the varint on the stream is `v`, `pb_dec_uvarint` stores its
-- low bytes, and returns true if they are all of `v`, or else false with "integer too large".
pub pb_dec_uvarint-checks :
    (field : Field) (dest v : ℕ) (w : Machine) (s : Istream)
    → IsIntSize field.data_size
    → pb_decode_varint w.stream ≡ (some v, s)
    → pb_dec_uvarint field dest w ≡ (
        if ltb v (2 ^ (8 * field.data_size))
        then (some tt, record w { stream = s; mem = write_uint w.mem field.data_size dest v })
        else fail integer_too_large
            (record w { stream = s; mem = write_uint w.mem field.data_size dest v }))
unfolding pb_dec_uvarint
pb_dec_uvarint-checks field dest v w s int e =
    ap
      (λ (r : Option ℕ × Istream).
        then_on (with_stream w r) (λ value. by_size (λ n. store_unsigned n dest value) field))
      e
    ∙ ap (λ (m : Action Machine (Unit {0})). m (record w { stream = s }))
        (by_size-lem (λ n. store_unsigned n dest v) field int)
    ∙ checked (Bool-cases (ltb v (2 ^ (8 * field.data_size))))
  where
    checked :
        (ltb v (2 ^ (8 * field.data_size)) ≡ true) ⊎ (ltb v (2 ^ (8 * field.data_size)) ≡ false)
        → store_unsigned field.data_size dest v (record w { stream = s }) ≡ (
            if ltb v (2 ^ (8 * field.data_size))
            then (some tt, record w { stream = s; mem = write_uint w.mem field.data_size dest v })
            else fail integer_too_large
                (record w { stream = s; mem = write_uint w.mem field.data_size dest v }))
    checked (inl fits) =
        rw fits
          (store_unsigned-fits field.data_size dest v (record w { stream = s }) (ltb→lt _ _ fits))
    checked (inr over) =
        rw over
          (store_unsigned-over field.data_size dest v (record w { stream = s }) (ltb→ge _ _ over))
