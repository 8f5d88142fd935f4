-- ===== src/Nanopb/RoundTrip/Tests.antt =====
-- Runs of the helper functions of nanopb at concrete values, and the round trips there.
use teta.Prelude.{ℕ, arith, List, [], ◌∷◌, length}
use teta.Nanopb.Wire.{varint, key}
use teta.Nanopb.Encode.{
  zigzag, pb_encode_varint, pb_encode_svarint, pb_encode_fixed32, pb_encode_fixed64, pb_encode_tag,
}
use teta.Nanopb.Decode.{
  pb_decode_varint, pb_decode_varint32, pb_decode_svarint, pb_decode_fixed32, pb_decode_fixed64,
}
use teta.Nanopb.RoundTrip.{
  RoundTrips, decode_tag, varint_round_trip, varint32_round_trip, svarint_round_trip,
  fixed_round_trip, tag_round_trip,
}

abbrev block : List ℕ
block = 0 ∷ 0 ∷ 0 ∷ 0 ∷ 0 ∷ 0 ∷ 0 ∷ 0 ∷ 0 ∷ 0 ∷ 0 ∷ []

varint_round_trip_example :
    RoundTrips (pb_encode_varint 300) pb_decode_varint 300 (length (varint 300)) block
varint_round_trip_example = varint_round_trip 300 block (omega arith) (omega arith) (omega arith)

varint32_round_trip_example :
    RoundTrips
      (pb_encode_varint 0xffff_ffff)
      pb_decode_varint32
      0xffff_ffff
      (length (varint 0xffff_ffff))
      block
varint32_round_trip_example =
    varint32_round_trip 0xffff_ffff block (omega arith) (omega arith) (omega arith)

-- The bit pattern of -2.
svarint_round_trip_example :
    RoundTrips
      (pb_encode_svarint 0xffff_ffff_ffff_fffe)
      pb_decode_svarint
      0xffff_ffff_ffff_fffe
      (length (varint (zigzag 0xffff_ffff_ffff_fffe)))
      block
svarint_round_trip_example =
    svarint_round_trip 0xffff_ffff_ffff_fffe block (omega arith) (omega arith) (omega arith)

fixed_round_trip_example :
    RoundTrips (pb_encode_fixed32 0xdead_beef) pb_decode_fixed32 0xdead_beef 4 block
    × RoundTrips (pb_encode_fixed64 7) pb_decode_fixed64 7 8 block
fixed_round_trip_example =
    fixed_round_trip 0xdead_beef 7 block (omega arith) (omega arith) (omega arith) (omega arith)

tag_round_trip_example :
    RoundTrips (pb_encode_tag 2 1000) decode_tag (1000, 2) (length (key 1000 2)) block
tag_round_trip_example =
    tag_round_trip 1000 2 block (omega arith) (omega arith) (omega arith) (omega arith)
      (omega arith)
