-- ===== src/Nanopb/Decode/Tests.antt =====
-- The helper functions of pb_decode.c on short streams.
use teta.Prelude.{ℕ, ◌+◌, ◌≡◌, arith, none, some, List, [], ◌∷◌, ◌++◌, length}
use teta.Nanopb.Istream.{Istream}
use teta.Nanopb.Istream.Accepts.{Accepts, on_memory}
use teta.Nanopb.Istream.Safety.{Keeps, Safe}
use teta.Nanopb.Wire.{delimited_value, varint_value, wire_type, payload, length_delimited}
use teta.Nanopb.Decode.{
  pb_skip_field, read_raw_value, pb_decode_tag, pb_make_string_substream, pb_close_string_substream,
}
use teta.Nanopb.Decode.Skip.{pb_skip_field-Accepts, read_raw_value-Accepts}
use teta.Nanopb.Decode.Safety.{
  pb_skip_field-Safe, pb_decode_tag-Keeps, SubKeeps, pb_make_string_substream-SubKeeps,
}
use teta.Nanopb.Decode.Values.{pb_make_string_substream-reads, pb_close_string_substream-reads}

abbrev string : List ℕ
string = 104 ∷ 105 ∷ []

-- A stream that ends within a varint.
abbrev cut_off : Istream
cut_off = on_memory (130 ∷ 131 ∷ []) 2 none

pb_skip_field-Accepts_example :
    Accepts
      (pb_skip_field (wire_type (delimited_value string)))
      (payload (delimited_value string))
      tt
pb_skip_field-Accepts_example = pb_skip_field-Accepts (delimited_value string) (omega arith)

pb_skip_field-Safe_example : Safe (pb_skip_field 2)
pb_skip_field-Safe_example = pb_skip_field-Safe 2

read_raw_value-Accepts_example :
    Accepts
      (read_raw_value (wire_type (varint_value 300)) 10)
      (payload (varint_value 300))
      (payload (varint_value 300))
read_raw_value-Accepts_example = read_raw_value-Accepts (varint_value 300) (omega arith) tt

pb_decode_tag-Keeps_example : Keeps 0 cut_off (pb_decode_tag cut_off).1.1
pb_decode_tag-Keeps_example = pb_decode_tag-Keeps 0 cut_off (omega arith)

pb_make_string_substream-SubKeeps_example : SubKeeps 0 cut_off (pb_make_string_substream cut_off)
pb_make_string_substream-SubKeeps_example =
    pb_make_string_substream-SubKeeps 0 cut_off (omega arith)

pb_make_string_substream-reads_example :
    pb_make_string_substream
      (on_memory (length_delimited string ++ 7 ∷ []) (length (length_delimited string) + 1) none)
    ≡ (some (on_memory (string ++ 7 ∷ []) 2 none), on_memory (string ++ 7 ∷ []) 1 none)
pb_make_string_substream-reads_example =
    pb_make_string_substream-reads string (7 ∷ []) 1 none (omega arith)

pb_close_string_substream-reads_example :
    pb_close_string_substream
      (on_memory (string ++ 7 ∷ []) 2 none)
      (on_memory (string ++ 7 ∷ []) 1 none)
    ≡ (some tt, on_memory (7 ∷ []) 1 none)
pb_close_string_substream-reads_example =
    pb_close_string_substream-reads string (7 ∷ []) (string ++ 7 ∷ []) 1 none none
