-- ===== src/Nanopb/Encoder/Wire/Arrays.antt =====
-- `encode_array` writes its entries, packed where the type allows it.
use teta.Prelude.{
  ℕ, zero, suc, ◌*◌, ◌^◌, ◌<◌, ◌≡◌, refl, ap, ◌∙◌, arith, true, not, ◌&&◌, ltb, leb, Option, none,
  some, List, [], ◌++◌, length, length-append, IsByte, ◌==◌, inl, inr, Bool-cases,
}
use mathlib.Core.Path.{subst, sym, fun_ext}
use mathlib.Core.Option
use mathlib.Core.Option.{some-injective, none-ne-some}
use teta.Nanopb.Action.{Action, ◌>>◌, ◌>>=◌}
use teta.Nanopb.Ostream.{Ostream}
use teta.Nanopb.Ostream.Emits.{Emits, Emits-seq, return-Emits}
use teta.Nanopb.Ostream.Gives.{
  Writes, ◌+++◌, Gives-none, Gives-some, Gives→Writes, Gives-map, Emits-same, Emits-bounded,
  ostream_sizing-Emits,
}
use teta.Nanopb.Memory.{Memory, read_uint, offset}
use teta.Nanopb.Fields.{
  Field, ltype, atype, atype_pointer, ltype_last_packable, ltype_fixed32, ltype_fixed64,
}
use teta.Nanopb.Wire.{
  payload, wire_type, key, length_delimited, delimited_value, length-little_endian, little_endian,
}
use teta.Nanopb.Decode.{wt_string}
use teta.Nanopb.Encode.{pb_encode_varint, pb_encode_tag}
use teta.Nanopb.Encode.Varint.{pb_encode_varint-Emits}
use teta.Nanopb.Encode.Values.{pb_encode_tag-Emits}
use teta.Nanopb.Encoder.Arrays.{
  for_entries, counted, packed_size, packed_data, encode_array, entry_address,
}
use teta.Nanopb.Encoder.Program.{Program}
use teta.Nanopb.Encoder.Fields.{encoder}
use teta.Nanopb.Encoder.Wire.{in_a_row, wire_value, item, array_at}
use teta.Nanopb.Encoder.Wire.Values.{IsTyped}
use teta.Nanopb.Encoder.Wire.Sized.{length-payload, for_entries-Writes, packed_data-Emits}
use teta.Nanopb.Encoder.Wire.Items.{encoder-Gives, item-Writes}

-- The two parts of a joined string.
split_joined :
    (r s : Option (List ℕ)) (bs : List ℕ)
    → r +++ s ≡ some bs
    → (cs : List ℕ) × (ds : List ℕ) × (r ≡ some cs) × (s ≡ some ds) × (bs ≡ cs ++ ds)
split_joined none s bs h = absurd (none-ne-some _ h)
split_joined (some cs) none bs h = absurd (none-ne-some _ h)
split_joined (some cs) (some ds) bs h = (cs, ds, refl, refl, sym (some-injective _ _ h))

length-in_a_row :
    (k step count p : ℕ) (bytes : ℕ → List ℕ) (bs : List ℕ)
    → ((q : ℕ) → length (bytes q) ≡ k)
    → in_a_row step count (λ q. some (bytes q)) p ≡ some bs
    → length bs ≡ k * count
unfolding in_a_row
length-in_a_row k step zero p bytes bs each h =
    ap length (some-injective bs [] (sym h)) ∙ omega arith
length-in_a_row k step (suc count) p bytes bs each h =
    let (cs, ds, first, rest, cut) = split_joined (some (bytes p)) _ bs h in
    grind (
      arith,
      ap length cut,
      length-append cs ds,
      each p,
      ap length (some-injective _ _ first),
      length-in_a_row k step count (offset p step) bytes ds each rest,
    )

eq_of_test : (a b : ℕ) → (a == b) ≡ true → a ≡ b
eq_of_test a b h = ground arith

module _ (mem : Memory) (cells : (a : ℕ) → IsByte (mem a)) (program : Program)
    (callbacks : ℕ → Field → ℕ → List ℕ) (extensions : ℕ → ℕ → List ℕ) (depth : ℕ)
    (encode : List Field → ℕ → Action Ostream (Unit {0})) (inner : List Field → ℕ → Option (List ℕ))
    (inner_writes : (p src : ℕ)
      → Writes (encode (program.descriptor p) src) (inner (program.descriptor p) src))
    (field : Field) (typed : IsTyped field) where
  abbrev values_at : ℕ → Option (List ℕ)
  values_at q = Option.map payload (wire_value mem program callbacks extensions depth inner field q)

  abbrev entry : ℕ → Action Ostream (Unit {0})
  entry q = encoder mem program depth encode field q

  entry-Writes : (q : ℕ) → Writes (entry q) (values_at q)
  entry-Writes q = Gives→Writes _ (
      encoder-Gives mem cells program callbacks extensions depth encode inner inner_writes field
        typed q)

  fixed32_values :
      (ltype field == ltype_fixed32) ≡ true
      → (q : ℕ) → values_at q ≡ some (little_endian 4 (read_uint mem 4 q))
  unfolding wire_value payload
  fixed32_values e q = rw (eq_of_test _ _ e) refl

  fixed64_values :
      (ltype field == ltype_fixed64) ≡ true
      → (q : ℕ) → values_at q ≡ some (little_endian 8 (read_uint mem 8 q))
  unfolding wire_value payload
  fixed64_values e q = rw (eq_of_test _ _ e) refl

  fixed_size :
      (k count p : ℕ) (bs : List ℕ)
      → ((q : ℕ) → values_at q ≡ some (little_endian k (read_uint mem k q)))
      → in_a_row field.data_size count values_at p ≡ some bs
      → length bs ≡ k * count
  fixed_size k count p bs each h =
      length-in_a_row k field.data_size count p (λ q. little_endian k (read_uint mem k q)) bs
        (λ q. length-little_endian k (read_uint mem k q))
        (subst (λ f. in_a_row field.data_size count f p ≡ some bs) (fun_ext each) h)

  module _ (count p : ℕ) (bs : List ℕ) (few : length bs < 2 ^ 64)
      (row : in_a_row field.data_size count values_at p ≡ some bs) where
    -- The size that is written in front of a packed array is that of its values.
    pub packed_size-length :
        (s : Ostream) → packed_size field entry p count s ≡ (some (length bs), s)
    unfolding packed_size counted
    packed_size-length s = elim (Bool-cases (ltype field == ltype_fixed32)) [
      | inl e ↦ rw e (
          ap (λ (n : ℕ). (some n, s))
            (omega (arith, fixed_size 4 count p bs (fixed32_values e) row)))
      | inr e ↦ rw e (elim (Bool-cases (ltype field == ltype_fixed64)) [
        | inl f ↦ rw f (
            ap (λ (n : ℕ). (some n, s))
              (omega (arith, fixed_size 8 count p bs (fixed64_values f) row)))
        | inr f ↦ rw (f, ostream_sizing-Emits (all.emits bs row) few) refl
      ])
    ]
      where
        all :
            Writes
              (for_entries field.data_size count entry p)
              (in_a_row field.data_size count values_at p)
        all = for_entries-Writes entry-Writes field.data_size count p

    packed-Emits :
        Emits
          (packed_size field entry p count
            >>= (λ size. pb_encode_varint size >> packed_data field entry p count size))
          (length_delimited bs)
    packed-Emits =
        Emits-same
          (Emits-seq (pb_encode_varint-Emits (length bs) few)
            (packed_data-Emits entry-Writes field count p bs row))
          (λ s. rw (packed_size-length s) refl)

  fits_in :
      (bs : List ℕ) → length (key field.tag 2 ++ length_delimited bs) < 2 ^ 64 → length bs < 2 ^ 64
  fits_in bs h =
      length-payload bs (omega (arith, length-append (key field.tag 2) (length_delimited bs)))

  packed :
      (count p : ℕ) (bs : List ℕ)
      → in_a_row field.data_size count values_at p ≡ some bs
      → Emits
          (pb_encode_tag wt_string field.tag
            >> (packed_size field entry p count
                >>= (λ size. pb_encode_varint size >> packed_data field entry p count size)))
          (item field.tag (delimited_value bs))
  unfolding wire_type payload
  packed count p bs row = Emits-bounded (λ few.
      Emits-seq (pb_encode_tag-Emits wt_string field.tag (omega arith) typed.tag)
        (packed-Emits count p bs (fits_in bs few) row))

  pub encode_array-Writes :
      (p count : ℕ)
      → Writes
          (encode_array mem field p count (encoder mem program depth encode))
          (array_at mem program callbacks extensions depth inner field p count)
  unfolding encode_array array_at
  encode_array-Writes p count = elim (Bool-cases (count == 0)) [
    | inl e ↦ rw e (Gives-some return-Emits)
    | inr e ↦
        rw e (elim (Bool-cases (not (atype field == atype_pointer) && ltb field.array_size count)) [
          | inl f ↦ rw f Gives-none
          | inr f ↦ rw f (elim (Bool-cases (leb (ltype field) ltype_last_packable)) [
            | inl g ↦ rw g (
                Gives-map (λ bs. item field.tag (delimited_value bs)) _
                  (record { emits = packed count p }))
            | inr g ↦ rw g (
                for_entries-Writes
                  (λ q.
                    item-Writes mem cells program callbacks extensions depth encode inner
                      inner_writes field typed (entry_address mem field q))
                  field.data_size count p)
          ])
        ])
  ]
