-- ===== src/Nanopb/Encoder/Tests.antt =====
-- A message of four fields in a memory: a number, a packed array, a submessage with a string, and a
-- callback field.
use teta.Prelude.{
  ℕ, zero, suc, ◌-◌, ◌^◌, ◌≡◌, refl, arith, some, List, [], ◌∷◌, ◌++◌, All, u8, IsByte, ◌==◌,
  if◌then◌else◌, inl, inr, Bool-cases,
}
use teta.Nanopb.Action.{◌>>◌, return}
use teta.Nanopb.Ostream.Emits.{Emits, Emits-seq, return-Emits}
use teta.Nanopb.Memory.{Memory, sign_extend, bytes_at, read_uint, c_strnlen, signed_offset}
use teta.Nanopb.Fields.{Field, field_at, last_field, iter_at_begin, advanced, prev_size}
use teta.Nanopb.Fields.Walk.{walk, count_fields}
use teta.Nanopb.Wire.{varint, key, length_delimited, payload, wire_type, little_endian, base128}
use teta.Nanopb.Encode.{pb_encode_tag, pb_encode_varint}
use teta.Nanopb.Encode.Varint.{pb_encode_varint-Emits}
use teta.Nanopb.Encode.Values.{pb_encode_tag-Emits}
use teta.Nanopb.Encoder.Program.{Program}
use teta.Nanopb.Encoder.Message.{
  pb_encode, pb_encode_submessage, pb_encode_delimited, pb_encode_nullterminated,
  pb_get_encoded_size,
}
use teta.Nanopb.Encoder.Wire.{
  message_bytes, fields_from, one_field_at, field_value_at, basic_field_at, item_at, array_at,
  in_a_row, wire_value, unsigned_at, submessage_at, callback_field_at,
}
use teta.Nanopb.Encoder.Wire.Values.{IsTyped}
use teta.Nanopb.Encoder.Wire.Fields.{Keeps}
use teta.Nanopb.Encoder.Refines.{
  pb_encode-Emits, pb_get_encoded_size-length, pb_encode_delimited-Emits,
  pb_encode_nullterminated-Emits,
}

abbrev entry : ℕ → ℕ → ℕ → ℕ → ℕ → ℕ → ℕ → Field
entry tag type data_offset size_offset data_size array_size ptr = record {
  tag = tag;
  type = type;
  data_offset = data_offset;
  size_offset = size_offset;
  data_size = data_size;
  array_size = array_size;
  ptr = ptr;
}

abbrev name_fields : List Field
name_fields = entry 1 0x06 0 0 4 0 0 ∷ []

abbrev outer_fields : List Field
outer_fields =
    entry 1 0x01 0 0 4 0 0
    ∷ entry 2 0x23 4 (2 ^ 32 - 4) 4 4 0
    ∷ entry 3 0x07 0 0 4 0 64
    ∷ entry 4 0x66 4 0 16 0 0
    ∷ []

abbrev block : List ℕ
block =
    150 ∷ 1 ∷ 0 ∷ 0 ∷ 2 ∷ 0 ∷ 0 ∷ 0 ∷ 1 ∷ 0 ∷ 0 ∷ 0 ∷ 255 ∷ 255 ∷ 255 ∷ 255 ∷ 0 ∷ 0 ∷ 0 ∷ 0 ∷ 0 ∷ 0
    ∷ 0 ∷ 0 ∷ 104 ∷ 105 ∷ 0 ∷ 0 ∷ 0 ∷ 0 ∷ 0 ∷ 0 ∷ 77 ∷ 0 ∷ 0 ∷ 0 ∷ 0 ∷ 0 ∷ 0 ∷ 0 ∷ []

abbrev at : List ℕ → ℕ → ℕ
at [] i = 0
at (b ∷ bs) zero = b
at (b ∷ bs) (suc i) = at bs i

abbrev memory : Memory
memory a = u8 (at block (a - 1000))

memory-IsByte : (a : ℕ) → IsByte (memory a)
memory-IsByte a = omega arith

abbrev program : Program
program = record {
  descriptor = λ p. if p == 64 then name_fields else [];
  encode_callback = λ f field arg. pb_encode_tag 0 9 >> pb_encode_varint 7;
  encode_extension = λ f extension. return tt;
}

abbrev callback_bytes : ℕ → Field → ℕ → List ℕ
callback_bytes f field arg = key 9 0 ++ varint 7

abbrev no_bytes : ℕ → ℕ → List ℕ
no_bytes f extension = []

last_field-IsTyped : IsTyped last_field
last_field-IsTyped = record { tag = omega arith; data_size = omega arith; array_size = omega arith }

field_at-IsTyped :
    (fields : List Field) → All IsTyped fields → (i : ℕ) → IsTyped (field_at fields i)
field_at-IsTyped [] t i = last_field-IsTyped
field_at-IsTyped (f ∷ fs) (t, ts) zero = t
field_at-IsTyped (f ∷ fs) (t, ts) (suc i) = field_at-IsTyped fs ts i

name_fields-IsTyped : (i : ℕ) → IsTyped (field_at name_fields i)
name_fields-IsTyped =
    field_at-IsTyped name_fields
      (record { tag = omega arith; data_size = omega arith; array_size = omega arith }, tt)

outer_fields-IsTyped : (i : ℕ) → IsTyped (field_at outer_fields i)
outer_fields-IsTyped = field_at-IsTyped outer_fields (
  record { tag = omega arith; data_size = omega arith; array_size = omega arith },
  (
    record { tag = omega arith; data_size = omega arith; array_size = omega arith },
    (
      record { tag = omega arith; data_size = omega arith; array_size = omega arith },
      (record { tag = omega arith; data_size = omega arith; array_size = omega arith }, tt),
    ),
  ),
)

program-Keeps : Keeps program callback_bytes no_bytes
program-Keeps = record {
  callback = λ f field arg.
      Emits-seq (pb_encode_tag-Emits 0 9 (omega arith) (omega arith))
        (pb_encode_varint-Emits 7 (omega arith));
  extension = λ f extension. return-Emits;
  typed = λ p. elim (Bool-cases (p == 64)) [
    | inl e ↦ rw e name_fields-IsTyped
    | inr e ↦ rw e (field_at-IsTyped [] tt)
  ];
}

abbrev written : List ℕ
written =
    8 ∷ 150 ∷ 3 ∷ 18 ∷ 8 ∷ 1 ∷ 0 ∷ 0 ∷ 0 ∷ 255 ∷ 255 ∷ 255 ∷ 255 ∷ 26 ∷ 4 ∷ 10 ∷ 2 ∷ 104 ∷ 105 ∷ 72
    ∷ 7 ∷ []

message_here :
    message_bytes memory program callback_bytes no_bytes 2 outer_fields 1000 ≡ some written
unfolding message_bytes fields_from one_field_at field_value_at basic_field_at item_at array_at
    in_a_row wire_value unsigned_at submessage_at callback_field_at payload wire_type little_endian
    base128 read_uint bytes_at c_strnlen walk iter_at_begin advanced prev_size signed_offset
    sign_extend count_fields
message_here = refl

pb_encode-Emits_example : Emits (pb_encode memory program 2 outer_fields 1000) written
pb_encode-Emits_example =
    pb_encode-Emits memory memory-IsByte program callback_bytes no_bytes program-Keeps 2
      outer_fields outer_fields-IsTyped 1000 written message_here

pb_get_encoded_size-length_example :
    pb_get_encoded_size memory program 2 outer_fields 1000 ≡ some 21
pb_get_encoded_size-length_example =
    pb_get_encoded_size-length memory memory-IsByte program callback_bytes no_bytes program-Keeps 2
      outer_fields outer_fields-IsTyped 1000 written message_here (omega arith)

pb_encode_delimited-Emits_example :
    Emits (pb_encode_submessage memory program 2 outer_fields 1000) (length_delimited written)
    × Emits (pb_encode_delimited memory program 2 outer_fields 1000) (length_delimited written)
pb_encode_delimited-Emits_example =
    pb_encode_delimited-Emits memory memory-IsByte program callback_bytes no_bytes program-Keeps 2
      outer_fields outer_fields-IsTyped 1000 written message_here

pb_encode_nullterminated-Emits_example :
    Emits (pb_encode_nullterminated memory program 2 outer_fields 1000) (written ++ 0 ∷ [])
pb_encode_nullterminated-Emits_example =
    pb_encode_nullterminated-Emits memory memory-IsByte program callback_bytes no_bytes
      program-Keeps 2 outer_fields outer_fields-IsTyped 1000 written message_here
