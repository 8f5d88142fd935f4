-- ===== src/Nanopb/Decoder/Copies/Numbers.antt =====
-- Members of unsigned, signed and fixed-width types are copied by way of the wire.
use teta.Prelude.{
  ℕ, ◌+◌, ◌-◌, ◌*◌, ◌^◌, ◌%◌, ◌<◌, ◌≡◌, refl, ap, ◌∙◌, arith, some, ◌==◌, inl, inr, if◌then◌else◌,
  IsByte, IsU64, u32, leb,
}
use mathlib.Core.Path.{subst, subst⁻¹}
use native.Mathlib.Nat.{mod-eq_of_lt}
use teta.Nanopb.Action.{Action}
use teta.Nanopb.Machine.{Machine}
use teta.Nanopb.Istream.Accepts.{on_memory}
use teta.Nanopb.Wire.{varint}
use teta.Nanopb.Memory.{Memory, read_uint, write_uint, sign_extend}
use teta.Nanopb.Memory.Stores.{read_uint-write_uint}
use teta.Nanopb.Fields.{Field}
use teta.Nanopb.Encoder.Values.{pb_enc_uvarint, pb_enc_varint, pb_enc_svarint}
use teta.Nanopb.Encoder.Wire.{unsigned_at, signed_at}
use teta.Nanopb.Encoder.Wire.Values.{
  read_uint-bound, pb_enc_uvarint-Gives, pb_enc_varint-Gives, pb_enc_svarint-Gives,
}
use teta.Nanopb.Encode.{zigzag}
use teta.Nanopb.Encode.Values.{zigzag-IsU64}
use teta.Nanopb.Decode.Values.{pb_decode_svarint-Accepts, unzigzag-zigzag}
use teta.Nanopb.Decode.Varint.{pb_decode_varint-Accepts}
use teta.Nanopb.Decoder.Values.{
  by_size, store_unsigned, store_signed, pb_dec_uvarint, pb_dec_varint, pb_dec_svarint,
}
use teta.Nanopb.Decoder.Copies.{Copies}
use teta.Nanopb.Decoder.Copies.Stored.{
  IsIntSize, by_size-lem, bits_of_bytes, store_unsigned-fits, store_signed-fits, after_value,
}

-- The value of a signed integer of `n` bytes as one of 64 bits.
abbrev extended : ℕ → ℕ → ℕ
extended n x = sign_extend (8 * n) x

module _ (mem : Memory) (cells : (a : ℕ) → IsByte (mem a)) (src : ℕ) where
  unsigned_at-some : (n : ℕ) → IsIntSize n → unsigned_at mem n src ≡ some (read_uint mem n src)
  unfolding unsigned_at
  unsigned_at-some n (inl e) = rw e refl
  unsigned_at-some n (inr (inl e)) = rw e refl
  unsigned_at-some n (inr (inr (inl e))) = rw e refl
  unsigned_at-some n (inr (inr (inr e))) = rw e refl

  unsigned-IsU64 : (n : ℕ) → IsIntSize n → IsU64 (read_uint mem n src)
  unsigned-IsU64 n (inl e) = rw e (omega (arith, read_uint-bound mem cells 1 src))
  unsigned-IsU64 n (inr (inl e)) = rw e (omega (arith, read_uint-bound mem cells 2 src))
  unsigned-IsU64 n (inr (inr (inl e))) = rw e (omega (arith, read_uint-bound mem cells 4 src))
  unsigned-IsU64 n (inr (inr (inr e))) = rw e (omega (arith, read_uint-bound mem cells 8 src))

  small : (n : ℕ) → IsIntSize n → read_uint mem n src < 2 ^ (8 * n)
  small n int =
      subst (λ (m : ℕ). read_uint mem n src < m) (bits_of_bytes n int)
        (read_uint-bound mem cells n src)

  signed_at-some :
      (n : ℕ) → IsIntSize n → signed_at mem n src ≡ some (extended n (read_uint mem n src))
  unfolding signed_at sign_extend
  signed_at-some n (inl e) = rw e refl
  signed_at-some n (inr (inl e)) = rw e refl
  signed_at-some n (inr (inr (inl e))) = rw e refl
  signed_at-some n (inr (inr (inr e))) =
      rw e (ap some (whole (read_uint mem 8 src) (read_uint-bound mem cells 8 src)))
    where
      whole : (x : ℕ) → x < 256 ^ 8 → x ≡ (if leb (2 ^ 63) x then x + 2 ^ 64 - 2 ^ 64 else x)
      whole x h = ground arith

-- What `pb_dec_varint` makes of a varint before it stores it.
abbrev cast_back : ℕ → ℕ → ℕ
cast_back n v = if n == 8 then v else sign_extend 32 (u32 v)

-- An extended value has 64 bits, its low bytes are what was extended, and the cast keeps it.
abbrev HasCast : ℕ → ℕ → Type 0
HasCast n x =
    IsU64 (extended n x)
    × (extended n x % 2 ^ (8 * n) ≡ x)
    × (cast_back n (extended n x) ≡ extended n x)

extended1 : (x : ℕ) → x < 2 ^ 8 → HasCast 1 x
unfolding sign_extend
extended1 x h = (ground arith, ground arith, ground arith)

extended2 : (x : ℕ) → x < 2 ^ 16 → HasCast 2 x
unfolding sign_extend
extended2 x h = (ground arith, ground arith, ground arith)

extended4 : (x : ℕ) → x < 2 ^ 32 → HasCast 4 x
unfolding sign_extend
extended4 x h = (ground arith, ground arith, ground arith)

extended8 : (x : ℕ) → x < 2 ^ 64 → HasCast 8 x
unfolding sign_extend
extended8 x h = (ground arith, ground arith, ground arith)

extended-HasCast : (n x : ℕ) → IsIntSize n → x < 2 ^ (8 * n) → HasCast n x
extended-HasCast n x (inl e) = subst⁻¹ (λ (m : ℕ). x < 2 ^ (8 * m) → HasCast m x) e (extended1 x)
extended-HasCast n x (inr (inl e)) =
    subst⁻¹ (λ (m : ℕ). x < 2 ^ (8 * m) → HasCast m x) e (extended2 x)
extended-HasCast n x (inr (inr (inl e))) =
    subst⁻¹ (λ (m : ℕ). x < 2 ^ (8 * m) → HasCast m x) e (extended4 x)
extended-HasCast n x (inr (inr (inr e))) =
    subst⁻¹ (λ (m : ℕ). x < 2 ^ (8 * m) → HasCast m x) e (extended8 x)

module _ (mem : Memory) (cells : (a : ℕ) → IsByte (mem a)) (field : Field) (src dest : ℕ)
    (int : IsIntSize field.data_size) (fits : dest + field.data_size < 2 ^ 64) where
  abbrev unsigned : ℕ
  unsigned = read_uint mem field.data_size src

  -- For a member of an unsigned type of 1, 2, 4 or 8 bytes that ends below the last address: what
  -- `pb_enc_uvarint` writes for it, `pb_dec_uvarint` stores as it was.
  pub pb_dec_uvarint-Copies :
      Copies (pb_enc_uvarint mem field src) (pb_dec_uvarint field dest) mem field.data_size src dest
  unfolding pb_dec_uvarint
  pb_dec_uvarint-Copies = record {
    bytes = varint unsigned;
    value = unsigned;
    written =
        (pb_enc_uvarint-Gives mem cells field src).emits unsigned
          (unsigned_at-some mem cells src field.data_size int);
    taken = λ w rest left err.
        after_value
          (pb_decode_varint-Accepts unsigned (unsigned-IsU64 mem cells src field.data_size int))
          (λ value. by_size (λ n. store_unsigned n dest value) field) w rest left err
        ∙ ap (λ (m : Action Machine (Unit {0})). m (record w { stream = on_memory rest left err }))
            (by_size-lem (λ n. store_unsigned n dest unsigned) field int)
        ∙ store_unsigned-fits field.data_size dest unsigned
            (record w { stream = on_memory rest left err })
            (small mem cells src field.data_size int);
    same = λ other.
        read_uint-write_uint other field.data_size dest unsigned fits
        ∙ mod-eq_of_lt (read_uint-bound mem cells field.data_size src);
  }

  abbrev signed : ℕ
  signed = extended field.data_size unsigned

  signed_facts : HasCast field.data_size unsigned
  signed_facts =
      extended-HasCast field.data_size unsigned int (small mem cells src field.data_size int)

  -- The value that was extended is stored whole, and read back.
  stored_signed :
      (w : Machine)
      → by_size (λ n. store_signed n dest signed) field w
        ≡ (some tt, record w { mem = write_uint w.mem field.data_size dest signed })
  stored_signed w =
      ap (λ (m : Action Machine (Unit {0})). m w)
        (by_size-lem (λ n. store_signed n dest signed) field int)
      ∙ store_signed-fits field.data_size dest signed w
          (ap (λ (x : ℕ). extended field.data_size x) signed_facts.1)

  same_signed :
      (other : Memory)
      → read_uint (write_uint other field.data_size dest signed) field.data_size dest ≡ unsigned
  same_signed other =
      read_uint-write_uint other field.data_size dest signed fits
      ∙ ap (λ (n : ℕ). signed % n) (bits_of_bytes field.data_size int)
      ∙ signed_facts.1

  -- For a member of a signed type of 1, 2, 4 or 8 bytes that ends below the last address: what
  -- `pb_enc_varint` writes for it, `pb_dec_varint` stores as it was.
  pub pb_dec_varint-Copies :
      Copies (pb_enc_varint mem field src) (pb_dec_varint field dest) mem field.data_size src dest
  unfolding pb_dec_varint
  pb_dec_varint-Copies = record {
    bytes = varint signed;
    value = signed;
    written =
        (pb_enc_varint-Gives mem cells field src).emits signed
          (signed_at-some mem cells src field.data_size int);
    taken = λ w rest left err.
        after_value (pb_decode_varint-Accepts signed signed_facts.0)
          (λ value. by_size (λ n. store_signed n dest (cast_back field.data_size value)) field) w
          rest left err
        ∙ ap
            (λ (v : ℕ).
              by_size (λ n. store_signed n dest v) field
                (record w { stream = on_memory rest left err }))
            signed_facts.2
        ∙ stored_signed (record w { stream = on_memory rest left err });
    same = same_signed;
  }

  -- The same holds of `pb_enc_svarint` and `pb_dec_svarint`, which use zigzag coding.
  pub pb_dec_svarint-Copies :
      Copies (pb_enc_svarint mem field src) (pb_dec_svarint field dest) mem field.data_size src dest
  unfolding pb_dec_svarint
  pb_dec_svarint-Copies = record {
    bytes = varint (zigzag signed);
    value = signed;
    written =
        (pb_enc_svarint-Gives mem cells field src).emits signed
          (signed_at-some mem cells src field.data_size int);
    taken = λ w rest left err.
        after_value (pb_decode_svarint-Accepts (zigzag signed) (zigzag-IsU64 signed))
          (λ value. by_size (λ n. store_signed n dest value) field) w rest left err
        ∙ ap
            (λ (v : ℕ).
              by_size (λ n. store_signed n dest v) field
                (record w { stream = on_memory rest left err }))
            (unzigzag-zigzag signed signed_facts.0)
        ∙ stored_signed (record w { stream = on_memory rest left err });
    same = same_signed;
  }
