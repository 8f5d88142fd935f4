-- ===== src/Nanopb/Encoder/Message.antt =====
-- TestProdSS/Pods/nanopb/pb_encode.c: `pb_encode` and what is built on it. The fuel `depth` bounds
-- the levels of messages in messages, and the number of extensions in a list.
use teta.Prelude.{ℕ, zero, suc, Option, none, some, List, [], ◌∷◌, length, ◌==◌, if◌then◌else◌}
use teta.Nanopb.Action.{Action, return, ◌>>◌}
use teta.Nanopb.Ostream.{Ostream, lost, unfinished, pb_write, ostream_sizing}
use teta.Nanopb.Memory.{Memory}
use teta.Nanopb.Fields.{
  Field, Iter, current, pb_field_iter_begin, pb_field_iter_next, ltype, ltype_extension,
}
use teta.Nanopb.Encoder.Program.{Program}
use teta.Nanopb.Encoder.Submessage.{encode_submessage}
use teta.Nanopb.Encoder.Fields.{encode_field, encode_extension_field}

-- The do loop, with the rounds that it may still make; the number of fields is enough.
unfoldable pub encode_loop :
    ℕ → (Field → ℕ → Action Ostream (Unit {0})) → Iter → Action Ostream (Unit {0})
encode_loop zero step iter = lost unfinished
encode_loop (suc rounds) step iter =
    let (next, more) = pb_field_iter_next iter in
    let rest = encode_loop rounds step next in
    step (current iter) iter.p_data >> (if more then rest else return tt)

module _ (mem : Memory) (program : Program) where
  -- The loop's body; `encode` is `pb_encode` for the messages in the fields.
  unfoldable pub encode_one :
      ℕ → (List Field → ℕ → Action Ostream (Unit {0})) → Field → ℕ → Action Ostream (Unit {0})
  encode_one depth encode field p_data =
      if ltype field == ltype_extension
      then encode_extension_field mem program (suc depth) encode (suc depth) p_data
      else encode_field mem program (suc depth) encode field p_data

  unfoldable pub pb_encode : ℕ → List Field → ℕ → Action Ostream (Unit {0})
  pb_encode zero fields src_struct = lost unfinished
  pb_encode (suc depth) fields src_struct =
      let (iter, some_field) = pb_field_iter_begin fields src_struct in
      if some_field
      then encode_loop (length fields) (encode_one depth (pb_encode depth)) iter
      else return tt

  unfoldable pub pb_encode_submessage : ℕ → List Field → ℕ → Action Ostream (Unit {0})
  pb_encode_submessage depth fields src_struct =
      encode_submessage (pb_encode depth fields src_struct)

  unfoldable pub pb_encode_delimited : ℕ → List Field → ℕ → Action Ostream (Unit {0})
  pb_encode_delimited depth fields src_struct = pb_encode_submessage depth fields src_struct

  unfoldable pub pb_encode_nullterminated : ℕ → List Field → ℕ → Action Ostream (Unit {0})
  pb_encode_nullterminated depth fields src_struct =
      pb_encode depth fields src_struct >> pb_write (0 ∷ []) 1

  -- The value of `*size` where the function returns true, and the stream that it counted with.
  abbrev pub encoded_size : Option (Unit {0}) × Ostream → Option ℕ
  encoded_size (none, s) = none
  encoded_size (some u, s) = some s.bytes_written

  unfoldable pub pb_get_encoded_size : ℕ → List Field → ℕ → Option ℕ
  pb_get_encoded_size depth fields src_struct =
      encoded_size (pb_encode depth fields src_struct ostream_sizing)
