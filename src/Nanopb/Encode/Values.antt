-- ===== src/Nanopb/Encode/Values.antt =====
-- The other helper functions of pb_encode.c write what the wire format asks for.
use teta.Prelude.{ℕ, ◌+◌, ◌*◌, ◌/◌, ◌%◌, ◌^◌, ◌<◌, ◌≡◌, ap, ◌∙◌, arith}
use teta.Prelude.{
  List, [], ◌∷◌, length, IsU32, IsU64, bit_and, bit_or, u64, and_ones, or_shifted, or_comm, ◌>>>◌,
}
use teta.Nanopb.Ostream.Emits.{Emits, pb_write-Emits, Emits-seq}
use teta.Nanopb.Wire.{varint, little_endian, key, length_delimited}
use teta.Nanopb.Encode.{
  zigzag, pb_encode_svarint, pb_encode_fixed32, pb_encode_fixed64, pb_encode_tag, pb_encode_string,
}
use teta.Nanopb.Encode.Varint.{writes-Emits, pb_encode_varint-Emits}

pub zigzag-IsU64 : (v : ℕ) → IsU64 (zigzag v)
unfolding zigzag
zigzag-IsU64 v = ground arith

pub pb_encode_svarint-Emits : (v : ℕ) → Emits (pb_encode_svarint v) (varint (zigzag v))
unfolding pb_encode_svarint
pb_encode_svarint-Emits v = pb_encode_varint-Emits (zigzag v) (zigzag-IsU64 v)

low_byte : (v : ℕ) → bit_and v 0xff ≡ v % 256
low_byte v = and_ones 8 v

four_bytes :
    (v : ℕ)
    → bit_and v 0xff
        ∷ bit_and (v >>> 8) 0xff
        ∷ bit_and (v >>> 16) 0xff
        ∷ bit_and (v >>> 24) 0xff
        ∷ []
      ≡ little_endian 4 v
unfolding little_endian
four_bytes v =
    ground (arith, low_byte v, low_byte (v / 2 ^ 8), low_byte (v / 2 ^ 16), low_byte (v / 2 ^ 24))

eight_bytes :
    (v : ℕ)
    → bit_and v 0xff
        ∷ bit_and (v >>> 8) 0xff
        ∷ bit_and (v >>> 16) 0xff
        ∷ bit_and (v >>> 24) 0xff
        ∷ bit_and (v >>> 32) 0xff
        ∷ bit_and (v >>> 40) 0xff
        ∷ bit_and (v >>> 48) 0xff
        ∷ bit_and (v >>> 56) 0xff
        ∷ []
      ≡ little_endian 8 v
unfolding little_endian
eight_bytes v = ground (
  arith,
  low_byte v,
  low_byte (v / 2 ^ 8),
  low_byte (v / 2 ^ 16),
  low_byte (v / 2 ^ 24),
  low_byte (v / 2 ^ 32),
  low_byte (v / 2 ^ 40),
  low_byte (v / 2 ^ 48),
  low_byte (v / 2 ^ 56),
)

pub pb_encode_fixed32-Emits : (v : ℕ) → Emits (pb_encode_fixed32 v) (little_endian 4 v)
unfolding pb_encode_fixed32
pb_encode_fixed32-Emits v = writes-Emits (four_bytes v)

pub pb_encode_fixed64-Emits : (v : ℕ) → Emits (pb_encode_fixed64 v) (little_endian 8 v)
unfolding pb_encode_fixed64
pb_encode_fixed64-Emits v = writes-Emits (eight_bytes v)

tag_bits :
    (wiretype number : ℕ)
    → wiretype < 8
    → IsU32 number
    → bit_or (u64 (number * 2 ^ 3)) wiretype ≡ number * 8 + wiretype
tag_bits wiretype number hw hn =
    ap (λ (t : ℕ). bit_or t wiretype) wide
    ∙ or_comm (number * 8) wiretype
    ∙ or_shifted 3 wiretype number hw
    ∙ omega arith
  where
    wide : u64 (number * 2 ^ 3) ≡ number * 8
    wide = omega arith

pub pb_encode_tag-Emits :
    (wiretype number : ℕ)
    → wiretype < 8
    → IsU32 number
    → Emits (pb_encode_tag wiretype number) (key number wiretype)
unfolding pb_encode_tag
pb_encode_tag-Emits wiretype number hw hn =
    rw (tag_bits wiretype number hw hn) (pb_encode_varint-Emits _ (omega arith))

pub pb_encode_string-Emits :
    (bs : List ℕ)
    → IsU64 (length bs)
    → Emits (pb_encode_string bs (length bs)) (length_delimited bs)
unfolding pb_encode_string
pb_encode_string-Emits bs h = Emits-seq (pb_encode_varint-Emits (length bs) h) (pb_write-Emits bs)
