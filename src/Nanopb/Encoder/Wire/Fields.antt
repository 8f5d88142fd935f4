-- ===== src/Nanopb/Encoder/Wire/Fields.antt =====
-- `encode_field` and `encode_extension_field` write what the structure holds.
use teta.Prelude.{
  ℕ, zero, suc, refl, true, false, Bool, Option, none, some, List, IsByte, ◌==◌, inl, inr,
  Bool-cases,
}
use teta.Nanopb.Action.{Action, Errmsg, ◌>>◌}
use teta.Nanopb.Ostream.{Ostream}
use teta.Nanopb.Ostream.Emits.{Emits, return-Emits}
use teta.Nanopb.Ostream.Gives.{Writes, Gives-none, Gives-some, Writes-seq}
use teta.Nanopb.Memory.{Memory, read_pointer, read_size, offset, signed_offset}
use teta.Nanopb.Fields.{
  Field, field_at, htype, atype, atype_static, atype_pointer, atype_callback, htype_required,
  htype_repeated, htype_oneof, htype_optional,
}
use teta.Nanopb.Encoder.Program.{Program}
use teta.Nanopb.Encoder.Values.{pb_encode_tag_for_field}
use teta.Nanopb.Encoder.Fields.{
  if_present, or_error, encoder, has_field, value_address, entry_count, encode_basic_field,
  encode_callback_field, encode_field, default_extension_encoder, encode_extension, extension_loop,
  extension_type_arg, extension_type_encode,
}
use teta.Nanopb.Encoder.Wire.{
  when, item_at, basic_field_at, callback_field_at, field_value_at, extension_at, extensions_at,
}
use teta.Nanopb.Encoder.Wire.Values.{IsTyped}
use teta.Nanopb.Encoder.Wire.Items.{item-Writes}
use teta.Nanopb.Encoder.Wire.Arrays.{encode_array-Writes}

-- The program's own functions write the bytes given for them, and its descriptors are of C's types.
pub record Keeps (program : Program) (callbacks : ℕ → Field → ℕ → List ℕ)
    (extensions : ℕ → ℕ → List ℕ) : Type 0 where
  pub callback :
      (f : ℕ) (field : Field) (arg : ℕ)
      → Emits (program.encode_callback f field arg) (callbacks f field arg)
  pub extension :
      (f extension : ℕ) → Emits (program.encode_extension f extension) (extensions f extension)
  pub typed : (p i : ℕ) → IsTyped (field_at (program.descriptor p) i)

if_present-Writes :
    {m : Action Ostream (Unit {0})} {r : Option (List ℕ)} (b : Option Bool)
    → Writes m r
    → Writes (if_present b m) (when b r)
if_present-Writes none w = Gives-none
if_present-Writes (some true) w = w
if_present-Writes (some false) w = Gives-some return-Emits

or_error-Emits :
    (msg : Errmsg) {m : Action Ostream (Unit {0})} {bs : List ℕ}
    → Emits m bs
    → Emits (λ s. or_error msg (m s)) bs
or_error-Emits msg e = record {
  sizes = λ max n h. rw (e.sizes max n h) refl;
  fits = λ behind ahead max n h hm hl. rw (e.fits behind ahead max n h hm hl) refl;
  fills = λ behind ahead max n h hm hl hr.
      let (p, q, cut, inside, same) = e.fills behind ahead max n h hm hl hr in
      (p, q, cut, inside, rw same refl);
}

module _ (mem : Memory) (cells : (a : ℕ) → IsByte (mem a)) (program : Program)
    (callbacks : ℕ → Field → ℕ → List ℕ) (extensions : ℕ → ℕ → List ℕ)
    (keeps : Keeps program callbacks extensions) (depth : ℕ)
    (encode : List Field → ℕ → Action Ostream (Unit {0})) (inner : List Field → ℕ → Option (List ℕ))
    (inner_writes : (p src : ℕ)
      → Writes (encode (program.descriptor p) src) (inner (program.descriptor p) src)) where
  module _ (field : Field) (typed : IsTyped field) (p : ℕ) where
    basic_field-Writes :
        Writes
          (encode_basic_field mem program depth encode field p)
          (basic_field_at mem program callbacks extensions depth inner field p)
    unfolding encode_basic_field basic_field_at
    basic_field-Writes = elim (Bool-cases (htype field == htype_required)) [
      | inl e ↦ rw e (elim (Bool-cases (value_address mem field p == 0)) [
        | inl f ↦ rw f Gives-none
        | inr f ↦ rw f value
      ])
      | inr e ↦ rw e (elim (Bool-cases (htype field == htype_optional)) [
        | inl f ↦ rw f (if_present-Writes (has_field mem program depth field p) value)
        | inr f ↦ rw f (elim (Bool-cases (htype field == htype_repeated)) [
          | inl g ↦ rw g (
              encode_array-Writes mem cells program callbacks extensions depth encode inner
                inner_writes field typed (value_address mem field p) (entry_count mem field p))
          | inr g ↦ rw g (elim (Bool-cases (htype field == htype_oneof)) [
            | inl h ↦ rw h (elim (Bool-cases (field.size_offset == 0)) [
              | inl i ↦ rw i Gives-none
              | inr i ↦
                  rw i
                    (elim (Bool-cases
                      (read_size mem (signed_offset p field.size_offset) == field.tag)) [
                        | inl j ↦ rw j value
                        | inr j ↦ rw j (Gives-some return-Emits)
                      ])
            ])
            | inr h ↦ rw h Gives-none
          ])
        ])
      ])
    ]
      where
        value :
            Writes
              (pb_encode_tag_for_field field
                >> encoder mem program depth encode field (value_address mem field p))
              (item_at mem program callbacks extensions depth inner field
                (value_address mem field p))
        value =
            item-Writes mem cells program callbacks extensions depth encode inner inner_writes field
              typed (value_address mem field p)

    callback_field-Writes :
        Writes
          (encode_callback_field mem program depth encode field p)
          (callback_field_at mem program callbacks extensions depth inner field p)
    unfolding encode_callback_field callback_field_at
    callback_field-Writes = elim (Bool-cases (read_pointer mem p == 0)) [
      | inl e ↦ rw e (Gives-some return-Emits)
      | inr e ↦
          rw e
            (Gives-some (or_error-Emits _ (keeps.callback (read_pointer mem p) field (offset p 8))))
    ]

    pub encode_field-Writes :
        Writes
          (encode_field mem program depth encode field p)
          (field_value_at mem program callbacks extensions depth inner field p)
    unfolding encode_field field_value_at
    encode_field-Writes = elim (Bool-cases (atype field == atype_static)) [
      | inl e ↦ rw e basic_field-Writes
      | inr e ↦ rw e (elim (Bool-cases (atype field == atype_pointer)) [
        | inl f ↦ rw f basic_field-Writes
        | inr f ↦ rw f (elim (Bool-cases (atype field == atype_callback)) [
          | inl g ↦ rw g callback_field-Writes
          | inr g ↦ rw g Gives-none
        ])
      ])
    ]

  extension-Writes :
      (extension : ℕ)
      → Writes
          (encode_extension mem program depth encode extension)
          (extension_at mem program callbacks extensions depth inner extension)
  unfolding encode_extension default_extension_encoder extension_at
  extension-Writes extension = elim (Bool-cases (extension_type_encode mem extension == 0)) [
    | inl e ↦
        rw e
          (elim (Bool-cases (
            atype (field_at (program.descriptor (extension_type_arg mem extension)) 0)
            == atype_pointer)) [
              | inl f ↦ rw f (
                  encode_field-Writes _ (keeps.typed (extension_type_arg mem extension) 0)
                    (offset extension 8))
              | inr f ↦ rw f (
                  encode_field-Writes _ (keeps.typed (extension_type_arg mem extension) 0)
                    (read_pointer mem (offset extension 8)))
            ])
    | inr e ↦ rw e (Gives-some (keeps.extension (extension_type_encode mem extension) extension))
  ]

  pub extension_loop-Writes :
      (rounds extension : ℕ)
      → Writes
          (extension_loop mem program depth encode rounds extension)
          (extensions_at mem program callbacks extensions depth inner rounds extension)
  unfolding extension_loop extensions_at
  extension_loop-Writes zero extension = elim (Bool-cases (extension == 0)) [
    | inl e ↦ rw e (Gives-some return-Emits)
    | inr e ↦ rw e Gives-none
  ]
  extension_loop-Writes (suc rounds) extension = elim (Bool-cases (extension == 0)) [
    | inl e ↦ rw e (Gives-some return-Emits)
    | inr e ↦ rw e (
        Writes-seq _ _ (extension-Writes extension)
          (extension_loop-Writes rounds (read_pointer mem (offset extension 16))))
  ]
