-- ===== src/Nanopb/Encoder/Wire/Depth.antt =====
-- The fuel of the description of a message is of no account where it suffices.
use teta.Prelude.{
  ℕ, zero, suc, ◌+◌, ◌≡◌, ap, ◌∙◌, arith, not, ◌&&◌, Option, some, List, ltb, leb, ◌==◌, inl, inr,
  Bool-cases,
}
use teta.Nanopb.Memory.{Memory, read_pointer, read_size, offset, signed_offset}
use teta.Nanopb.Fields.{
  Field, field_at, ltype, htype, atype, ltype_submessage, ltype_extension, ltype_last_packable,
  atype_static, atype_pointer, htype_required, htype_optional, htype_repeated, htype_oneof,
}
use teta.Nanopb.Fields.Walk.{walk, count_fields}
use teta.Nanopb.Wire.{payload, delimited_value}
use teta.Nanopb.Encoder.Program.{Program}
use teta.Nanopb.Encoder.Fields.{
  value_address, entry_count, extension_type_arg, extension_type_encode,
}
use teta.Nanopb.Encoder.Arrays.{entry_address}
use teta.Nanopb.Encoder.Wire.{
  item, submessage_at, wire_value, item_at, array_at, basic_field_at, callback_field_at,
  field_value_at, extension_at, extensions_at, one_field_at, fields_from, message_bytes,
}
use teta.Nanopb.Encoder.Wire.Grows.{
  Grows, Grows-refl, Grows-none, Grows-map, Grows-joined, Grows-when, eq_of_test, in_a_row-Grows,
  has_field-Grows,
}

module _ (mem : Memory) (program : Program) (callbacks : ℕ → Field → ℕ → List ℕ)
    (extensions : ℕ → ℕ → List ℕ) (depth : ℕ) (f g : List Field → ℕ → Option (List ℕ))
    (grows : (fields : List Field) (src : ℕ) → Grows (f fields src) (g fields src)) where
  wire_value-Grows :
      (field : Field) (src : ℕ)
      → Grows
          (wire_value mem program callbacks extensions depth f field src)
          (wire_value mem program callbacks extensions (suc depth) g field src)
  unfolding wire_value submessage_at
  wire_value-Grows field src = elim (Bool-cases (ltype field == ltype_submessage)) [
    | inl e ↦ rw (eq_of_test _ _ e) (
        Grows-map delimited_value _ _ (elim (Bool-cases (field.ptr == 0)) [
          | inl n ↦ rw n Grows-refl
          | inr n ↦ rw n (grows (program.descriptor field.ptr) src)
        ]))
    | inr e ↦ rw e Grows-refl
  ]

  item_at-Grows :
      (field : Field) (src : ℕ)
      → Grows
          (item_at mem program callbacks extensions depth f field src)
          (item_at mem program callbacks extensions (suc depth) g field src)
  unfolding item_at
  item_at-Grows field src = Grows-map (item field.tag) _ _ (wire_value-Grows field src)

  array_at-Grows :
      (field : Field) (p count : ℕ)
      → Grows
          (array_at mem program callbacks extensions depth f field p count)
          (array_at mem program callbacks extensions (suc depth) g field p count)
  unfolding array_at
  array_at-Grows field p count = elim (Bool-cases (count == 0)) [
    | inl e ↦ rw e Grows-refl
    | inr e ↦
        rw e (elim (Bool-cases (not (atype field == atype_pointer) && ltb field.array_size count)) [
          | inl a ↦ rw a Grows-refl
          | inr a ↦ rw a (elim (Bool-cases (leb (ltype field) ltype_last_packable)) [
            | inl b ↦ rw b (
                Grows-map (λ bs. item field.tag (delimited_value bs)) _ _
                  (in_a_row-Grows field.data_size count p _ _
                    (λ q. Grows-map payload _ _ (wire_value-Grows field q))))
            | inr b ↦ rw b (
                in_a_row-Grows field.data_size count p _ _
                  (λ q. item_at-Grows field (entry_address mem field q)))
          ])
        ])
  ]

  basic_field_at-Grows :
      (field : Field) (p : ℕ)
      → Grows
          (basic_field_at mem program callbacks extensions depth f field p)
          (basic_field_at mem program callbacks extensions (suc depth) g field p)
  unfolding basic_field_at
  basic_field_at-Grows field p = elim (Bool-cases (htype field == htype_required)) [
    | inl e ↦ rw e (elim (Bool-cases (value_address mem field p == 0)) [
      | inl a ↦ rw a Grows-refl
      | inr a ↦ rw a (item_at-Grows field (value_address mem field p))
    ])
    | inr e ↦ rw e (elim (Bool-cases (htype field == htype_optional)) [
      | inl e ↦ rw e (
          Grows-when _ _ _ _ (has_field-Grows mem program depth field p)
            (item_at-Grows field (value_address mem field p)))
      | inr e ↦ rw e (elim (Bool-cases (htype field == htype_repeated)) [
        | inl e ↦ rw e (array_at-Grows field (value_address mem field p) (entry_count mem field p))
        | inr e ↦ rw e (elim (Bool-cases (htype field == htype_oneof)) [
          | inl e ↦ rw e (elim (Bool-cases (field.size_offset == 0)) [
            | inl a ↦ rw a Grows-refl
            | inr a ↦
                rw a
                  (elim (Bool-cases
                    (read_size mem (signed_offset p field.size_offset) == field.tag)) [
                      | inl b ↦ rw b (item_at-Grows field (value_address mem field p))
                      | inr b ↦ rw b Grows-refl
                    ])
          ])
          | inr e ↦ rw e (Grows-refl)
        ])
      ])
    ])
  ]

  field_value_at-Grows :
      (field : Field) (p : ℕ)
      → Grows
          (field_value_at mem program callbacks extensions depth f field p)
          (field_value_at mem program callbacks extensions (suc depth) g field p)
  unfolding field_value_at callback_field_at
  field_value_at-Grows field p = elim (Bool-cases (atype field == atype_static)) [
    | inl e ↦ rw e (basic_field_at-Grows field p)
    | inr e ↦ rw e (elim (Bool-cases (atype field == atype_pointer)) [
      | inl e ↦ rw e (basic_field_at-Grows field p)
      | inr e ↦ rw e (Grows-refl)
    ])
  ]

  extension_at-Grows :
      (extension : ℕ)
      → Grows
          (extension_at mem program callbacks extensions depth f extension)
          (extension_at mem program callbacks extensions (suc depth) g extension)
  unfolding extension_at
  extension_at-Grows extension = elim (Bool-cases (extension_type_encode mem extension == 0)) [
    | inl e ↦
        rw e
          (elim (Bool-cases (
            atype (field_at (program.descriptor (extension_type_arg mem extension)) 0)
            == atype_pointer)) [
              | inl a ↦ rw a (field_value_at-Grows _ (offset extension 8))
              | inr a ↦ rw a (field_value_at-Grows _ (read_pointer mem (offset extension 8)))
            ])
    | inr e ↦ rw e Grows-refl
  ]

  extensions_at-Grows :
      (rounds extension : ℕ)
      → Grows
          (extensions_at mem program callbacks extensions depth f rounds extension)
          (extensions_at mem program callbacks extensions (suc depth) g (suc rounds) extension)
  unfolding extensions_at
  extensions_at-Grows zero extension = elim (Bool-cases (extension == 0)) [
    | inl e ↦ rw e Grows-refl
    | inr e ↦ rw e Grows-none
  ]
  extensions_at-Grows (suc rounds) extension = elim (Bool-cases (extension == 0)) [
    | inl e ↦ rw e Grows-refl
    | inr e ↦ rw e (
        Grows-joined _ _ _ _ (extension_at-Grows extension)
          (extensions_at-Grows rounds (read_pointer mem (offset extension 16))))
  ]

  one_field_at-Grows :
      (rounds : ℕ) (field : Field) (p : ℕ)
      → Grows
          (one_field_at mem program callbacks extensions depth f rounds field p)
          (one_field_at mem program callbacks extensions (suc depth) g (suc rounds) field p)
  unfolding one_field_at
  one_field_at-Grows rounds field p = elim (Bool-cases (ltype field == ltype_extension)) [
    | inl e ↦ rw e (extensions_at-Grows rounds (read_pointer mem p))
    | inr e ↦ rw e (field_value_at-Grows field p)
  ]

  fields_from-Grows :
      (rounds : ℕ) (fields : List Field) (src k i : ℕ)
      → Grows
          (fields_from mem program callbacks extensions depth f rounds fields src k i)
          (fields_from mem program callbacks extensions (suc depth) g (suc rounds) fields src k i)
  unfolding fields_from
  fields_from-Grows rounds fields src zero i = Grows-refl
  fields_from-Grows rounds fields src (suc k) i =
      Grows-joined _ _ _ _
        (one_field_at-Grows rounds (field_at fields i) (walk fields src i).p_data)
        (fields_from-Grows rounds fields src k (suc i))

module _ (mem : Memory) (program : Program) (callbacks : ℕ → Field → ℕ → List ℕ)
    (extensions : ℕ → ℕ → List ℕ) where
  message-Grows :
      (depth : ℕ) (fields : List Field) (src : ℕ)
      → Grows
          (message_bytes mem program callbacks extensions depth fields src)
          (message_bytes mem program callbacks extensions (suc depth) fields src)
  unfolding message_bytes
  message-Grows zero fields src = Grows-none
  message-Grows (suc depth) fields src =
      fields_from-Grows mem program callbacks extensions (suc depth)
        (message_bytes mem program callbacks extensions depth)
        (message_bytes mem program callbacks extensions (suc depth)) (message-Grows depth)
        (suc depth) fields src (count_fields fields) 0

  -- More fuel than is enough gives the same bytes.
  pub message_bytes-enough :
      (more depth : ℕ) (fields : List Field) (src : ℕ) (bs : List ℕ)
      → message_bytes mem program callbacks extensions depth fields src ≡ some bs
      → message_bytes mem program callbacks extensions (more + depth) fields src ≡ some bs
  message_bytes-enough zero depth fields src bs h =
      ap (λ (n : ℕ). message_bytes mem program callbacks extensions n fields src) (omega arith) ∙ h
  message_bytes-enough (suc more) depth fields src bs h =
      ap (λ (n : ℕ). message_bytes mem program callbacks extensions n fields src)
        {y = suc (more + depth)} (omega arith)
      ∙ (message-Grows (more + depth) fields src).keeps bs
          (message_bytes-enough more depth fields src bs h)
