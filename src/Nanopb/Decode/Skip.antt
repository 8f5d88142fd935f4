-- ===== src/Nanopb/Decode/Skip.antt =====
-- Skipping a field and reading its raw bytes, for values of every wire type.
use teta.Prelude.{ℕ, zero, suc, ◌+◌, ◌/◌, ◌%◌, ◌^◌, ◌≤◌, ◌<◌, ◌≡◌, arith, Option, some, inl, inr}
use teta.Prelude.{List, [], ◌∷◌, ◌++◌, length, ltb, IsU64, Bool-cases, ltb→lt}
use mathlib.Core.Path.{subst}
use teta.Nanopb.Action.{Errmsg}
use teta.Nanopb.Istream.{pb_read, pb_read_null}
use teta.Nanopb.Istream.Accepts.{
  on_memory, Accepts, Accepts-seq, pb_read-Accepts, pb_read_null-Accepts,
}
use teta.Nanopb.Wire.{
  base128, varint, little_endian, length-little_endian, length-base128, WireValue, varint_value,
  fixed64_value, delimited_value, fixed32_value, wire_type, payload, FitsWire,
}
use teta.Nanopb.Decode.{
  skip_varint_loop, pb_skip_varint, pb_skip_string, pb_skip_field, raw_varint, read_raw_value,
}
use teta.Nanopb.Decode.Varint.{continues_large, continues_small}
use teta.Nanopb.Decode.Varint32.{pb_decode_varint32-Accepts, suc-eq-one-add, rest_fits}

one_read :
    (b : ℕ) (rest : List ℕ) (left : ℕ) (err : Option Errmsg)
    → pb_read 1 (on_memory (b ∷ rest) (1 + left) err) ≡ (some (b ∷ []), on_memory rest left err)
one_read b rest left err = (pb_read-Accepts (b ∷ [])).reads rest left err

skip_loop-reads :
    (k fuel v : ℕ) (rest : List ℕ) (left : ℕ) (err : Option Errmsg)
    → length (base128 k v) ≤ fuel
    → v < 128 ^ suc k
    → skip_varint_loop fuel (on_memory (base128 k v ++ rest) (length (base128 k v) + left) err)
      ≡ (some tt, on_memory rest left err)
unfolding base128 skip_varint_loop
skip_loop-reads k zero v rest left err hf hv = absurd (omega (arith, (length-base128 k v).0))
skip_loop-reads zero (suc fuel) v rest left err hf hv =
    rw (one_read v rest left err, continues_small v (omega arith))
skip_loop-reads (suc k) (suc fuel) v rest left err hf hv = elim (Bool-cases (ltb v 128)) [
  | inl small ↦ rw (small, one_read v rest left err, continues_small v (ltb→lt _ _ small))
  | inr large ↦
      rw
        (
          large,
          suc-eq-one-add (length (base128 k (v / 128))) left,
          one_read (v % 128 + 128) (base128 k (v / 128) ++ rest)
              (length (base128 k (v / 128)) + left) err,
          continues_large (v % 128 + 128) (omega arith) (omega arith),
        )
        (skip_loop-reads k fuel (v / 128) rest left err (rest_fits k v fuel large hf) (omega arith))
]

raw_varint-reads :
    (k room v : ℕ) (rest : List ℕ) (left : ℕ) (err : Option Errmsg)
    → length (base128 k v) ≤ room
    → v < 128 ^ suc k
    → raw_varint room (on_memory (base128 k v ++ rest) (length (base128 k v) + left) err)
      ≡ (some (base128 k v), on_memory rest left err)
unfolding base128 raw_varint
raw_varint-reads k zero v rest left err hf hv = absurd (omega (arith, (length-base128 k v).0))
raw_varint-reads zero (suc room) v rest left err hf hv =
    rw (one_read v rest left err, continues_small v (omega arith))
raw_varint-reads (suc k) (suc room) v rest left err hf hv = elim (Bool-cases (ltb v 128)) [
  | inl small ↦ rw (small, one_read v rest left err, continues_small v (ltb→lt _ _ small))
  | inr large ↦ rw (
    large,
    suc-eq-one-add (length (base128 k (v / 128))) left,
    one_read (v % 128 + 128) (base128 k (v / 128) ++ rest) (length (base128 k (v / 128)) + left)
        err,
    continues_large (v % 128 + 128) (omega arith) (omega arith),
    raw_varint-reads k room (v / 128) rest left err (rest_fits k v room large hf) (omega arith),
  )
]

pub pb_skip_varint-Accepts : (v : ℕ) → IsU64 v → Accepts pb_skip_varint (varint v) tt
unfolding pb_skip_varint
pb_skip_varint-Accepts v h = record {
  reads = λ rest left err. skip_loop-reads 9 _ v rest left err (omega arith) (omega arith);
}

skip_bytes : (k v : ℕ) → Accepts (pb_read_null k) (little_endian k v) tt
skip_bytes k v =
    subst (λ (n : ℕ). Accepts (pb_read_null n) (little_endian k v) tt) (length-little_endian k v)
      (pb_read_null-Accepts (little_endian k v))

read_bytes : (k v : ℕ) → Accepts (pb_read k) (little_endian k v) (little_endian k v)
read_bytes k v =
    subst (λ (n : ℕ). Accepts (pb_read n) (little_endian k v) (little_endian k v))
      (length-little_endian k v) (pb_read-Accepts (little_endian k v))

-- `pb_skip_field` takes exactly the bytes of a value of its wire type: varints of 64 bits, fixed-width
-- values, and strings of fewer than 2 ^ 32 bytes.
pub pb_skip_field-Accepts :
    (w : WireValue) → FitsWire w → Accepts (pb_skip_field (wire_type w)) (payload w) tt
unfolding pb_skip_field pb_skip_string wire_type payload
pb_skip_field-Accepts (varint_value v) h = pb_skip_varint-Accepts v h
pb_skip_field-Accepts (fixed64_value v) h = skip_bytes 8 v
pb_skip_field-Accepts (delimited_value bs) h =
    Accepts-seq pb_read_null (pb_decode_varint32-Accepts (length bs) h) (pb_read_null-Accepts bs)
pb_skip_field-Accepts (fixed32_value v) h = skip_bytes 4 v

abbrev pub IsScalar : WireValue → Type 0
IsScalar (varint_value v) = Unit
IsScalar (fixed64_value v) = Unit
IsScalar (delimited_value bs) = ⊥
IsScalar (fixed32_value v) = Unit

-- `read_raw_value` into ten bytes gives the bytes of a varint of 64 bits or a fixed-width value, and
-- takes exactly these.
pub read_raw_value-Accepts :
    (w : WireValue)
    → FitsWire w
    → IsScalar w
    → Accepts (read_raw_value (wire_type w) 10) (payload w) (payload w)
unfolding read_raw_value wire_type payload
read_raw_value-Accepts (varint_value v) h s = record {
  reads = λ rest left err.
      raw_varint-reads 9 10 v rest left err (omega (arith, (length-base128 9 v).1)) (omega arith);
}
read_raw_value-Accepts (fixed64_value v) h s = read_bytes 8 v
read_raw_value-Accepts (delimited_value bs) h s = absurd s
read_raw_value-Accepts (fixed32_value v) h s = read_bytes 4 v
