-- ===== src/Nanopb/Encoder/Wire/Items.antt =====
-- Every field value is written as its key and its value on the wire.
use teta.Prelude.{
  ℕ, ◌≡◌, ◌<◌, refl, arith, true, Option, some, List, IsByte, ◌==◌, inl, inr, Bool-cases,
}
use mathlib.Core.Path.{subst⁻¹}
use teta.Nanopb.Action.{Action, ◌>>◌}
use teta.Nanopb.Ostream.{Ostream}
use teta.Nanopb.Ostream.Emits.{Emits}
use teta.Nanopb.Ostream.Gives.{
  Gives, Writes, Gives-none, Gives-some, Gives-always, Gives-map, Gives-seq, Gives→Writes,
}
use teta.Nanopb.Memory.{Memory, read_uint, bytes_at}
use teta.Nanopb.Fields.{
  Field, ltype, ltype_varint, ltype_uvarint, ltype_svarint, ltype_fixed32, ltype_fixed64,
  ltype_bytes, ltype_string, ltype_submessage, ltype_fixed_length_bytes,
}
use teta.Nanopb.Wire.{
  payload, wire_type, key, length_delimited, varint_value, delimited_value, fixed32_value,
  fixed64_value,
}
use teta.Nanopb.Decode.{wt_varint, wt_32bit, wt_64bit, wt_string}
use teta.Nanopb.Encode.{zigzag, pb_encode_tag}
use teta.Nanopb.Encode.Values.{
  pb_encode_fixed32-Emits, pb_encode_fixed64-Emits, pb_encode_tag-Emits,
}
use teta.Nanopb.Encoder.Program.{Program}
use teta.Nanopb.Encoder.Values.{
  pb_encode_tag_for_field, pb_enc_fixed32, pb_enc_fixed64, pb_enc_fixed_length_bytes,
}
use teta.Nanopb.Encoder.Fields.{pb_enc_submessage, encoder}
use teta.Nanopb.Encoder.Wire.{submessage_at, wire_value, item_at}
use teta.Nanopb.Encoder.Wire.Sized.{encode_submessage-Emits}
use teta.Nanopb.Encoder.Wire.Values.{
  IsTyped, pb_enc_varint-Gives, pb_enc_uvarint-Gives, pb_enc_svarint-Gives, pb_enc_bytes-Gives,
  pb_enc_string-Emits, string-Emits,
}

eq_of_test : (a b : ℕ) → (a == b) ≡ true → a ≡ b
eq_of_test a b h = ground arith

module _ (field : Field) (typed : IsTyped field) where
  key-Emits :
      (k wt : ℕ)
      → (ltype field == k) ≡ true
      → wt < 8
      → (ltype field ≡ k → pb_encode_tag_for_field field ≡ pb_encode_tag wt field.tag)
      → Emits (pb_encode_tag_for_field field) (key field.tag wt)
  key-Emits k wt e h same =
      subst⁻¹ (λ m. Emits m (key field.tag wt)) (same (eq_of_test _ _ e))
        (pb_encode_tag-Emits wt field.tag h typed.tag)

  key_varint :
      (ltype field == ltype_varint) ≡ true
      → Emits (pb_encode_tag_for_field field) (key field.tag wt_varint)
  unfolding pb_encode_tag_for_field
  key_varint e = key-Emits ltype_varint wt_varint e (omega arith) (λ q. rw q refl)

  key_uvarint :
      (ltype field == ltype_uvarint) ≡ true
      → Emits (pb_encode_tag_for_field field) (key field.tag wt_varint)
  unfolding pb_encode_tag_for_field
  key_uvarint e = key-Emits ltype_uvarint wt_varint e (omega arith) (λ q. rw q refl)

  key_svarint :
      (ltype field == ltype_svarint) ≡ true
      → Emits (pb_encode_tag_for_field field) (key field.tag wt_varint)
  unfolding pb_encode_tag_for_field
  key_svarint e = key-Emits ltype_svarint wt_varint e (omega arith) (λ q. rw q refl)

  key_fixed32 :
      (ltype field == ltype_fixed32) ≡ true
      → Emits (pb_encode_tag_for_field field) (key field.tag wt_32bit)
  unfolding pb_encode_tag_for_field
  key_fixed32 e = key-Emits ltype_fixed32 wt_32bit e (omega arith) (λ q. rw q refl)

  key_fixed64 :
      (ltype field == ltype_fixed64) ≡ true
      → Emits (pb_encode_tag_for_field field) (key field.tag wt_64bit)
  unfolding pb_encode_tag_for_field
  key_fixed64 e = key-Emits ltype_fixed64 wt_64bit e (omega arith) (λ q. rw q refl)

  key_bytes :
      (ltype field == ltype_bytes) ≡ true
      → Emits (pb_encode_tag_for_field field) (key field.tag wt_string)
  unfolding pb_encode_tag_for_field
  key_bytes e = key-Emits ltype_bytes wt_string e (omega arith) (λ q. rw q refl)

  key_string :
      (ltype field == ltype_string) ≡ true
      → Emits (pb_encode_tag_for_field field) (key field.tag wt_string)
  unfolding pb_encode_tag_for_field
  key_string e = key-Emits ltype_string wt_string e (omega arith) (λ q. rw q refl)

  key_submessage :
      (ltype field == ltype_submessage) ≡ true
      → Emits (pb_encode_tag_for_field field) (key field.tag wt_string)
  unfolding pb_encode_tag_for_field
  key_submessage e = key-Emits ltype_submessage wt_string e (omega arith) (λ q. rw q refl)

  key_fixed_length_bytes :
      (ltype field == ltype_fixed_length_bytes) ≡ true
      → Emits (pb_encode_tag_for_field field) (key field.tag wt_string)
  unfolding pb_encode_tag_for_field
  key_fixed_length_bytes e =
      key-Emits ltype_fixed_length_bytes wt_string e (omega arith) (λ q. rw q refl)

module _ (mem : Memory) (cells : (a : ℕ) → IsByte (mem a)) (program : Program)
    (callbacks : ℕ → Field → ℕ → List ℕ) (extensions : ℕ → ℕ → List ℕ) (depth : ℕ)
    (encode : List Field → ℕ → Action Ostream (Unit {0})) (inner : List Field → ℕ → Option (List ℕ))
    (inner_writes : (p src : ℕ)
      → Writes (encode (program.descriptor p) src) (inner (program.descriptor p) src))
    (field : Field) (typed : IsTyped field) (src : ℕ) where
  submessage-Gives :
      Gives
        (pb_enc_submessage mem program depth encode field src)
        (submessage_at mem program callbacks extensions depth inner field src)
        length_delimited
  unfolding pb_enc_submessage submessage_at
  submessage-Gives = elim (Bool-cases (field.ptr == 0)) [
    | inl e ↦ rw e Gives-none
    | inr e ↦ rw e (record {
      emits = λ bs h. encode_submessage-Emits ((inner_writes field.ptr src).emits bs h);
    })
  ]

  fixed32-Gives :
      Gives (pb_enc_fixed32 mem field src) (some (fixed32_value (read_uint mem 4 src))) payload
  unfolding pb_enc_fixed32 payload
  fixed32-Gives = Gives-some (pb_encode_fixed32-Emits _)

  fixed64-Gives :
      Gives (pb_enc_fixed64 mem field src) (some (fixed64_value (read_uint mem 8 src))) payload
  unfolding pb_enc_fixed64 payload
  fixed64-Gives = Gives-some (pb_encode_fixed64-Emits _)

  fixed_length_bytes-Emits :
      Emits
        (pb_enc_fixed_length_bytes mem field src)
        (length_delimited (bytes_at mem field.data_size src))
  unfolding pb_enc_fixed_length_bytes
  fixed_length_bytes-Emits = string-Emits mem cells _ _ (omega (arith, typed.data_size))

  pub encoder-Gives :
      Gives
        (encoder mem program depth encode field src)
        (wire_value mem program callbacks extensions depth inner field src)
        payload
  unfolding encoder wire_value payload
  encoder-Gives = elim (Bool-cases (ltype field == ltype_varint)) [
    | inl e ↦ rw e (Gives-map varint_value _ (pb_enc_varint-Gives mem cells field src))
    | inr e ↦ rw e (elim (Bool-cases (ltype field == ltype_uvarint)) [
      | inl e ↦ rw e (Gives-map varint_value _ (pb_enc_uvarint-Gives mem cells field src))
      | inr e ↦ rw e (elim (Bool-cases (ltype field == ltype_svarint)) [
        | inl e ↦
            rw e (
              Gives-map (λ v. varint_value (zigzag v)) _ (pb_enc_svarint-Gives mem cells field src))
        | inr e ↦ rw e (elim (Bool-cases (ltype field == ltype_fixed32)) [
          | inl e ↦ rw e (fixed32-Gives)
          | inr e ↦ rw e (elim (Bool-cases (ltype field == ltype_fixed64)) [
            | inl e ↦ rw e (fixed64-Gives)
            | inr e ↦ rw e (elim (Bool-cases (ltype field == ltype_bytes)) [
              | inl e ↦ rw e (Gives-map delimited_value _ (pb_enc_bytes-Gives mem cells field src))
              | inr e ↦ rw e (elim (Bool-cases (ltype field == ltype_string)) [
                | inl e ↦
                    rw e (Gives-some (pb_enc_string-Emits mem cells field src typed.data_size))
                | inr e ↦ rw e (elim (Bool-cases (ltype field == ltype_submessage)) [
                  | inl e ↦ rw e (Gives-map delimited_value _ submessage-Gives)
                  | inr e ↦ rw e (elim (Bool-cases (ltype field == ltype_fixed_length_bytes)) [
                    | inl e ↦ rw e (Gives-some fixed_length_bytes-Emits)
                    | inr e ↦ rw e (Gives-none)
                  ])
                ])
              ])
            ])
          ])
        ])
      ])
    ])
  ]

  tag-Gives :
      Gives
        (pb_encode_tag_for_field field)
        (wire_value mem program callbacks extensions depth inner field src)
        (λ w. key field.tag (wire_type w))
  unfolding wire_value wire_type
  tag-Gives = elim (Bool-cases (ltype field == ltype_varint)) [
    | inl e ↦ rw e (Gives-map varint_value _ (Gives-always (key_varint field typed e)))
    | inr e ↦ rw e (elim (Bool-cases (ltype field == ltype_uvarint)) [
      | inl e ↦ rw e (Gives-map varint_value _ (Gives-always (key_uvarint field typed e)))
      | inr e ↦ rw e (elim (Bool-cases (ltype field == ltype_svarint)) [
        | inl e ↦
            rw e (
              Gives-map (λ v. varint_value (zigzag v)) _ (Gives-always (key_svarint field typed e)))
        | inr e ↦ rw e (elim (Bool-cases (ltype field == ltype_fixed32)) [
          | inl e ↦ rw e (Gives-some (key_fixed32 field typed e))
          | inr e ↦ rw e (elim (Bool-cases (ltype field == ltype_fixed64)) [
            | inl e ↦ rw e (Gives-some (key_fixed64 field typed e))
            | inr e ↦ rw e (elim (Bool-cases (ltype field == ltype_bytes)) [
              | inl e ↦ rw e (Gives-map delimited_value _ (Gives-always (key_bytes field typed e)))
              | inr e ↦ rw e (elim (Bool-cases (ltype field == ltype_string)) [
                | inl e ↦ rw e (Gives-some (key_string field typed e))
                | inr e ↦ rw e (elim (Bool-cases (ltype field == ltype_submessage)) [
                  | inl e ↦
                      rw e
                        (Gives-map delimited_value _ (Gives-always (key_submessage field typed e)))
                  | inr e ↦ rw e (elim (Bool-cases (ltype field == ltype_fixed_length_bytes)) [
                    | inl e ↦ rw e (Gives-some (key_fixed_length_bytes field typed e))
                    | inr e ↦ rw e (Gives-none)
                  ])
                ])
              ])
            ])
          ])
        ])
      ])
    ])
  ]

  pub item-Writes :
      Writes
        (pb_encode_tag_for_field field >> encoder mem program depth encode field src)
        (item_at mem program callbacks extensions depth inner field src)
  unfolding item_at
  item-Writes = Gives→Writes _ (Gives-seq tag-Gives encoder-Gives)
