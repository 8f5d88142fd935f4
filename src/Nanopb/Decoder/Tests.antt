-- ===== src/Nanopb/Decoder/Tests.antt =====
-- Messages of a required number, a repeated number and a submessage, decoded into a memory that is
-- zero at first, by a program without callbacks.
use teta.Prelude.{
  ℕ, ◌+◌, ◌-◌, ◌*◌, ◌^◌, ◌≡◌, refl, arith, none, List, [], ◌∷◌, ◌++◌, length, ◌==◌, inl, inr,
  if◌then◌else◌,
}
use teta.Nanopb.Machine.{undefined, Block, lost}
use teta.Nanopb.Machine.Safety.{Sound, Sound-lost}
use teta.Nanopb.Fields.{Field}
use teta.Nanopb.Istream.{memory}
use teta.Nanopb.Istream.Accepts.{on_memory}
use teta.Nanopb.Action.{Action, size_too_large, integer_too_large}
use teta.Nanopb.Wire.{varint}
use teta.Nanopb.Memory.{Memory, read_pointer, write_uint}
use teta.Nanopb.Machine.{Machine, running, fail, pb_realloc}
use teta.Nanopb.Machine.Writes.{Writes}
use teta.Nanopb.Encoder.Values.{pb_enc_uvarint, pb_enc_varint, pb_enc_svarint}
use teta.Nanopb.Decode.Varint.{pb_decode_varint-Accepts}
use teta.Nanopb.Decoder.Allocate.{allocate_field, assigned}
use teta.Nanopb.Decoder.Allocate.Bounds.{allocate_field-refuses, allocate_field-asks}
use teta.Nanopb.Decoder.Values.{pb_dec_uvarint, pb_dec_varint, pb_dec_svarint}
use teta.Nanopb.Decoder.Fields.{decoder}
use teta.Nanopb.Decoder.Message.{Locals, initial, message_step, pb_decode_noinit}
use teta.Nanopb.Fields.Walk.{count_fields, walk}
use teta.Nanopb.Fields.Search.{IsFound}
use teta.Nanopb.Decoder.Extensions.{find_extension_field}
use teta.Nanopb.Decoder.Found.{holds_extensions, find_extension_field-IsFound}
use teta.Nanopb.Decoder.Required.{all_seen, all_required_seen}
use teta.Prelude.{below}
use teta.Nanopb.Decoder.Required.Words.{marked, is_in}
use teta.Nanopb.Decoder.Required.Seen.{all_seen-below}
use teta.Nanopb.Decoder.Required.Count.{required_among, accounted, all_required_seen-below}
use teta.Nanopb.Decoder.Writes.Fields.{decoder-Writes}
use teta.Nanopb.Decoder.Copies.{Copies}
use teta.Nanopb.Decoder.Copies.Stored.{IsIntSize, pb_dec_uvarint-checks}
use teta.Nanopb.Decoder.Copies.Numbers.{
  pb_dec_uvarint-Copies, pb_dec_varint-Copies, pb_dec_svarint-Copies,
}
use teta.Nanopb.Decoder.Program.{Program}
use teta.Nanopb.Decoder.Message.{pb_decode, pb_decode_delimited}
use teta.Nanopb.Decoder.Safety.Fields.{IsSafeProgram}
use teta.Nanopb.Decoder.Safety.Message.{pb_decode-Sound, pb_decode_delimited-Sound}

abbrev entry : ℕ → ℕ → ℕ → ℕ → ℕ → ℕ → ℕ → Field
entry tag type data_offset size_offset data_size array_size ptr = record {
  tag = tag;
  type = type;
  data_offset = data_offset;
  size_offset = size_offset;
  data_size = data_size;
  array_size = array_size;
  ptr = ptr;
}

abbrev inner_fields : List Field
inner_fields = entry 1 0x06 0 0 4 0 0 ∷ []

abbrev outer_fields : List Field
outer_fields =
    entry 1 0x01 0 0 4 0 0 ∷ entry 2 0x21 4 (2 ^ 32 - 4) 4 4 0 ∷ entry 3 0x07 0 0 4 0 64 ∷ []

-- With a oneof of a number and a pointer to a string, an array of pointers and a callback besides.
abbrev mixed_fields : List Field
mixed_fields =
    entry 1 0x31 8 (2 ^ 32 - 8) 8 0 0
    ∷ entry 2 0xb6 (2 ^ 32 - 1) (2 ^ 32 - 8) 8 0 0
    ∷ entry 3 0xa6 8 (2 ^ 32 - 8) 8 0 0
    ∷ entry 4 0x56 0 0 16 0 0
    ∷ entry 5 0x07 0 0 4 0 64
    ∷ []

-- An address above all blocks in use.
abbrev above : List Block → ℕ
above [] = 5000
above (b ∷ bs) = b.address + 100 + above bs

abbrev program : Program
program = record {
  descriptor = λ p. if p == 64 then inner_fields else [];
  decode_callback = λ function field arg. lost undefined;
  decode_extension = λ function ext tag wire_type. lost undefined;
  place = λ blocks ptr size. above blocks;
  fixed_count_address = λ depth. 9000 + 8 * depth;
}

program-IsSafe : IsSafeProgram program
program-IsSafe = record {
  callback = λ function field arg. Sound-lost undefined;
  extension = λ function ext tag wire_type. Sound-lost undefined;
}

pb_decode-Sound_example : Sound (pb_decode program 3 mixed_fields 1000)
pb_decode-Sound_example = pb_decode-Sound program program-IsSafe 3 mixed_fields 1000

pb_decode_delimited-Sound_example : Sound (pb_decode_delimited program 3 mixed_fields 1000)
pb_decode_delimited-Sound_example =
    pb_decode_delimited-Sound program program-IsSafe 3 mixed_fields 1000

-- A message that stands in front of other bytes.
abbrev start : Machine
start = record {
  stream = record { source = memory (8 ∷ 150 ∷ 1 ∷ 7 ∷ 7 ∷ []); bytes_left = 3; errmsg = none };
  mem = λ p. 0;
  blocks = [];
  mark = running;
}

abbrev locals : Locals
locals = initial outer_fields 1000

abbrev step : Locals → ℕ × ℕ → Action Machine Locals
step = message_step program 2 (pb_decode_noinit program 2)

allocate_field-refuses_example :
    allocate_field program.place 1000 (2 ^ 33) (2 ^ 31) start ≡ fail size_too_large start
allocate_field-refuses_example =
    allocate_field-refuses program.place 1000 (2 ^ 33) (2 ^ 31) start (omega arith) (omega arith)
      (omega arith)

allocate_field-asks_example :
    allocate_field program.place 1000 (2 ^ 33) 12 start
    ≡ assigned 1000 (pb_realloc program.place (read_pointer start.mem 1000) (12 * 2 ^ 33) start)
allocate_field-asks_example =
    allocate_field-asks program.place 1000 (2 ^ 33) 12 start (omega arith) (omega arith)
      (omega arith)

abbrev decode : List Field → ℕ → Action Machine (Unit {0})
decode = pb_decode program 2

abbrev name_field : Field
name_field = entry 1 0x06 0 0 4 0 0

decoder-Writes_example : Writes 1000 4 (decoder program 3 decode decode name_field 1000)
decoder-Writes_example =
    decoder-Writes program 3 decode decode name_field 1000 refl
      (record { fixed32 = λ e. ground arith; fixed64 = λ e. ground arith }) refl (omega arith)

abbrev filled_with : ℕ → Memory
filled_with b p = b

abbrev number_field : Field
number_field = entry 1 0x01 0 0 2 0 0

abbrev two_bytes : IsIntSize 2
two_bytes = inr (inl refl)

pb_dec_uvarint-Copies_example :
    Copies
      (pb_enc_uvarint (filled_with 200) number_field 500)
      (pb_dec_uvarint number_field 1000)
      (filled_with 200)
      2
      500
      1000
pb_dec_uvarint-Copies_example =
    pb_dec_uvarint-Copies (filled_with 200) (λ a. omega arith) number_field 500 1000 two_bytes
      (omega arith)

pb_dec_varint-Copies_example :
    Copies
      (pb_enc_varint (filled_with 200) number_field 500)
      (pb_dec_varint number_field 1000)
      (filled_with 200)
      2
      500
      1000
pb_dec_varint-Copies_example =
    pb_dec_varint-Copies (filled_with 200) (λ a. omega arith) number_field 500 1000 two_bytes
      (omega arith)

pb_dec_svarint-Copies_example :
    Copies
      (pb_enc_svarint (filled_with 200) number_field 500)
      (pb_dec_svarint number_field 1000)
      (filled_with 200)
      2
      500
      1000
pb_dec_svarint-Copies_example =
    pb_dec_svarint-Copies (filled_with 200) (λ a. omega arith) number_field 500 1000 two_bytes
      (omega arith)

-- The varint of 70000 does not fit in two bytes.
abbrev large : Machine
large = record start { stream = on_memory (varint 70000 ++ []) (length (varint 70000) + 0) none }

pb_dec_uvarint-checks_example :
    pb_dec_uvarint number_field 1000 large
    ≡ fail integer_too_large
        (record large { stream = on_memory [] 0 none; mem = write_uint large.mem 2 1000 70000 })
pb_dec_uvarint-checks_example =
    pb_dec_uvarint-checks number_field 1000 70000 large (on_memory [] 0 none) two_bytes
      ((pb_decode_varint-Accepts 70000 (omega arith)).reads [] 0 none)

-- Three required fields, of which the one with index 1 is missing.
all_seen-below_example : all_seen 3 (marked (2 ∷ 0 ∷ [])) ≡ below 3 (λ i. is_in i (2 ∷ 0 ∷ []))
all_seen-below_example =
    all_seen-below 3 (2 ∷ 0 ∷ []) (omega arith) (omega arith, (omega arith, tt))

-- The second of the two required fields was marked.
all_required_seen-below_example :
    all_required_seen (walk outer_fields 500 1) (marked (1 ∷ []))
    ≡ below (accounted outer_fields) (λ k. is_in k (1 ∷ []))
unfolding count_fields required_among
all_required_seen-below_example =
    all_required_seen-below outer_fields 500 1 (1 ∷ []) (omega arith) (omega arith)
      (omega arith, tt)

-- A descriptor with a field of extensions before the last field.
abbrev extended_fields : List Field
extended_fields = entry 1 0x01 0 0 4 0 0 ∷ entry 100 0x58 0 0 8 0 0 ∷ entry 2 0x01 0 0 4 0 0 ∷ []

find_extension_field-IsFound_example :
    IsFound extended_fields 500 holds_extensions 2
      (find_extension_field (walk extended_fields 500 2))
unfolding count_fields
find_extension_field-IsFound_example =
    find_extension_field-IsFound extended_fields 500 2 (omega arith)
