-- ===== src/Nanopb/Encoder/Wire/Values.antt =====
-- The encoders of single values write the value on the wire, behind the key of its wire type.
use teta.Prelude.{
  ltb, ◌&&◌, ℕ, zero, suc, ◌+◌, ◌-◌, ◌^◌, ◌≤◌, ◌<◌, ◌≡◌, refl, ap, arith, [], length, IsU32, IsU64,
  IsByte, ◌==◌, inl, inr, Bool-cases,
}
use mathlib.Core.Path.{subst}
use teta.Nanopb.Ostream.Emits.{Emits}
use teta.Nanopb.Ostream.Gives.{Gives, Gives-none, Gives-some}
use teta.Nanopb.Memory.{Memory, read_uint, sign_extend, read_size, bytes_at, c_strnlen, offset}
use teta.Nanopb.Fields.{Field, atype, atype_static}
use teta.Nanopb.Wire.{varint, length_delimited}
use teta.Nanopb.Encode.{zigzag, pb_encode_string}
use teta.Nanopb.Encode.Varint.{pb_encode_varint-Emits}
use teta.Nanopb.Encode.Values.{pb_encode_svarint-Emits, pb_encode_string-Emits}
use teta.Nanopb.Encoder.Values.{
  pb_enc_varint, pb_enc_uvarint, pb_enc_svarint, pb_enc_bytes, pb_enc_string, string_size,
}
use teta.Nanopb.Encoder.Wire.{signed_at, unsigned_at, byte_string_at}

-- The bounds of the C types of a descriptor.
pub record IsTyped (field : Field) : Type 0 where
  pub tag : IsU32 field.tag
  pub data_size : IsU32 field.data_size
  pub array_size : IsU32 field.array_size

module _ (mem : Memory) (cells : (a : ℕ) → IsByte (mem a)) where
  pub read_uint-bound : (n p : ℕ) → read_uint mem n p < 256 ^ n
  unfolding read_uint
  read_uint-bound zero p = omega arith
  read_uint-bound (suc n) p = omega (arith, cells p, read_uint-bound n (offset p 1))

  pub length-bytes_at : (n p : ℕ) → length (bytes_at mem n p) ≡ n
  unfolding bytes_at
  length-bytes_at zero p = refl
  length-bytes_at (suc n) p = ap (λ (k : ℕ). suc k) (length-bytes_at n (offset p 1))

  c_strnlen-bound : (n p : ℕ) → c_strnlen mem n p ≤ n
  unfolding c_strnlen
  c_strnlen-bound zero p = omega arith
  c_strnlen-bound (suc n) p = ground (arith, c_strnlen-bound n (offset p 1))

  pub string-Emits :
      (n p : ℕ)
      → IsU64 n
      → Emits (pb_encode_string (bytes_at mem n p) n) (length_delimited (bytes_at mem n p))
  string-Emits n p h =
      subst
        (λ (k : ℕ).
          Emits (pb_encode_string (bytes_at mem n p) k) (length_delimited (bytes_at mem n p)))
        (length-bytes_at n p)
        (pb_encode_string-Emits (bytes_at mem n p) (omega (arith, length-bytes_at n p)))

  module _ (field : Field) (src : ℕ) where
    extended1 : IsU64 (sign_extend 8 (read_uint mem 1 src))
    unfolding sign_extend
    extended1 = ground (arith, read_uint-bound 1 src)

    extended2 : IsU64 (sign_extend 16 (read_uint mem 2 src))
    unfolding sign_extend
    extended2 = ground (arith, read_uint-bound 2 src)

    extended4 : IsU64 (sign_extend 32 (read_uint mem 4 src))
    unfolding sign_extend
    extended4 = ground (arith, read_uint-bound 4 src)

    pub pb_enc_varint-Gives :
        Gives (pb_enc_varint mem field src) (signed_at mem field.data_size src) varint
    unfolding pb_enc_varint signed_at
    pb_enc_varint-Gives = elim (Bool-cases (field.data_size == 1)) [
      | inl e ↦ rw e (Gives-some (pb_encode_varint-Emits _ (extended1)))
      | inr e ↦ rw e (elim (Bool-cases (field.data_size == 2)) [
        | inl e ↦ rw e (Gives-some (pb_encode_varint-Emits _ (extended2)))
        | inr e ↦ rw e (elim (Bool-cases (field.data_size == 4)) [
          | inl e ↦ rw e (Gives-some (pb_encode_varint-Emits _ (extended4)))
          | inr e ↦ rw e (elim (Bool-cases (field.data_size == 8)) [
            | inl e ↦
                rw e (Gives-some (pb_encode_varint-Emits _ (omega (arith, read_uint-bound 8 src))))
            | inr e ↦ rw e (Gives-none)
          ])
        ])
      ])
    ]

    pub pb_enc_svarint-Gives :
        Gives
          (pb_enc_svarint mem field src)
          (signed_at mem field.data_size src)
          (λ v. varint (zigzag v))
    unfolding pb_enc_svarint signed_at
    pb_enc_svarint-Gives = elim (Bool-cases (field.data_size == 1)) [
      | inl e ↦ rw e (Gives-some (pb_encode_svarint-Emits _))
      | inr e ↦ rw e (elim (Bool-cases (field.data_size == 2)) [
        | inl e ↦ rw e (Gives-some (pb_encode_svarint-Emits _))
        | inr e ↦ rw e (elim (Bool-cases (field.data_size == 4)) [
          | inl e ↦ rw e (Gives-some (pb_encode_svarint-Emits _))
          | inr e ↦ rw e (elim (Bool-cases (field.data_size == 8)) [
            | inl e ↦ rw e (Gives-some (pb_encode_svarint-Emits _))
            | inr e ↦ rw e (Gives-none)
          ])
        ])
      ])
    ]

    pub pb_enc_uvarint-Gives :
        Gives (pb_enc_uvarint mem field src) (unsigned_at mem field.data_size src) varint
    unfolding pb_enc_uvarint unsigned_at
    pb_enc_uvarint-Gives = elim (Bool-cases (field.data_size == 1)) [
      | inl e ↦ rw e (Gives-some (pb_encode_varint-Emits _ (omega (arith, read_uint-bound 1 src))))
      | inr e ↦ rw e (elim (Bool-cases (field.data_size == 2)) [
        | inl e ↦
            rw e (Gives-some (pb_encode_varint-Emits _ (omega (arith, read_uint-bound 2 src))))
        | inr e ↦ rw e (elim (Bool-cases (field.data_size == 4)) [
          | inl e ↦
              rw e (Gives-some (pb_encode_varint-Emits _ (omega (arith, read_uint-bound 4 src))))
          | inr e ↦ rw e (elim (Bool-cases (field.data_size == 8)) [
            | inl e ↦
                rw e (Gives-some (pb_encode_varint-Emits _ (omega (arith, read_uint-bound 8 src))))
            | inr e ↦ rw e (Gives-none)
          ])
        ])
      ])
    ]

    pub pb_enc_bytes-Gives :
        Gives (pb_enc_bytes mem field src) (byte_string_at mem field src) length_delimited
    unfolding pb_enc_bytes byte_string_at
    pb_enc_bytes-Gives = elim (Bool-cases (src == 0)) [
      | inl e ↦ rw e (Gives-some (pb_encode_string-Emits [] (omega arith)))
      | inr e ↦
          rw e
            (elim (Bool-cases
              (atype field == atype_static && ltb field.data_size (read_size mem src + 4))) [
                | inl f ↦ rw f Gives-none
                | inr f ↦
                    rw f (Gives-some (string-Emits _ _ (omega (arith, read_uint-bound 4 src))))
              ])
    ]

    pub pb_enc_string-Emits :
        IsU32 field.data_size
        → Emits
            (pb_enc_string mem field src)
            (length_delimited (bytes_at mem (string_size mem field src) src))
    unfolding pb_enc_string
    pb_enc_string-Emits h = string-Emits _ _ size
      where
        size : IsU64 (string_size mem field src)
        size = ground (arith, c_strnlen-bound (2 ^ 64 - 1) src, c_strnlen-bound field.data_size src)
