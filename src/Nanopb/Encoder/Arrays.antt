-- ===== src/Nanopb/Encoder/Arrays.antt =====
-- TestProdSS/Pods/nanopb/pb_encode.c: `encode_array`. `func` is the encoder of one entry.
use teta.Prelude.{
  ℕ, zero, suc, ◌*◌, Option, none, some, [], not, ◌&&◌, ◌||◌, ltb, leb, ◌==◌, if◌then◌else◌, u64,
}
use teta.Nanopb.Action.{Action, return, ◌>>=◌, ◌>>◌, array_max_size_exceeded}
use teta.Nanopb.Ostream.{Ostream, fail, pb_write, ostream_sizing, is_sizing, lost_by}
use teta.Nanopb.Memory.{Memory, read_pointer, offset}
use teta.Nanopb.Fields.{
  Field, ltype, atype, ltype_last_packable, ltype_fixed32, ltype_fixed64, ltype_string, ltype_bytes,
  atype_pointer,
}
use teta.Nanopb.Encode.{pb_encode_varint, pb_encode_tag}
use teta.Nanopb.Encoder.Values.{pb_encode_tag_for_field}
use teta.Nanopb.Decode.{wt_string}

-- `for (i = 0; i < count; i++) { …; p += field->data_size; }`
unfoldable pub for_entries : ℕ → ℕ → (ℕ → Action Ostream (Unit {0})) → ℕ → Action Ostream (Unit {0})
for_entries step zero entry p = return tt
for_entries step (suc count) entry p = entry p >> for_entries step count entry (offset p step)

-- `size = sizestream.bytes_written;`, or false where an encoder failed on `sizestream`.
unfoldable pub counted : Option (Unit {0}) × Ostream → Action Ostream ℕ
counted (none, sizestream) s = (none, record s { sink = lost_by sizestream.sink s.sink })
counted (some u, sizestream) s =
    (some sizestream.bytes_written, record s { sink = lost_by sizestream.sink s.sink })

unfoldable pub packed_size : Field → (ℕ → Action Ostream (Unit {0})) → ℕ → ℕ → Action Ostream ℕ
packed_size field entry p_data count =
    if ltype field == ltype_fixed32
    then return (u64 (4 * count))
    else if ltype field == ltype_fixed64
    then return (u64 (8 * count))
    else counted (for_entries field.data_size count entry p_data ostream_sizing)

-- What stands behind `pb_encode_varint(stream, size)`.
unfoldable pub packed_data :
    Field → (ℕ → Action Ostream (Unit {0})) → ℕ → ℕ → ℕ → Action Ostream (Unit {0})
packed_data field entry p_data count size s =
    if is_sizing s.sink
    then pb_write [] size s
    else for_entries field.data_size count entry p_data s

module _ (mem : Memory) where
  -- The address that `func` gets for the entry at `p`.
  abbrev pub entry_address : Field → ℕ → ℕ
  entry_address field p =
      if atype field == atype_pointer && (ltype field == ltype_string || ltype field == ltype_bytes)
      then read_pointer mem p
      else p

  unfoldable pub encode_array :
      Field → ℕ → ℕ → (Field → ℕ → Action Ostream (Unit {0})) → Action Ostream (Unit {0})
  encode_array field p_data count func =
      if count == 0
      then return tt
      else if not (atype field == atype_pointer) && ltb field.array_size count
      then fail array_max_size_exceeded
      else if leb (ltype field) ltype_last_packable
      then pb_encode_tag wt_string field.tag
        >> (packed_size field (func field) p_data count >>= λ size.
            pb_encode_varint size >> packed_data field (func field) p_data count size)
      else for_entries field.data_size count
          (λ p. pb_encode_tag_for_field field >> func field (entry_address field p)) p_data
