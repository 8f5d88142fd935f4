-- ===== src/Nanopb/Decoder/Writes/Numbers.antt =====
-- The decoders of numbers and of bytes of a fixed length write only into their member.
use teta.Prelude.{ℕ, ◌+◌, ◌*◌, ◌%◌, ◌≤◌, ◌<◌, ◌^◌, arith, Bool, ltb, ◌==◌, if◌then◌else◌, u32}
use teta.Nanopb.Action.{
  Action, ◌>>◌, return, invalid_data_size, integer_too_large, bytes_overflow,
  incorrect_fixed_length_bytes_size,
}
use teta.Nanopb.Memory.{sign_extend, write_uint, write_zeros}
use teta.Nanopb.Memory.Stores.{write_uint-outside, write_zeros-outside}
use teta.Nanopb.Machine.{Machine, fail, store}
use teta.Nanopb.Machine.Writes.{
  Writes, IsOutside-part, Writes-return, Writes-fail, Writes-stream, Writes-if, Writes-seq,
  Writes-store, read_into-Writes,
}
use teta.Nanopb.Fields.{Field, pb_size_max}
use teta.Nanopb.Decode.{
  pb_decode_varint, pb_decode_svarint, pb_decode_varint32, pb_decode_fixed32, pb_decode_fixed64,
}
use teta.Nanopb.Decoder.Values.{
  store_signed, store_unsigned, by_size, pb_dec_varint, pb_dec_uvarint, pb_dec_svarint,
  pb_dec_fixed32, pb_dec_fixed64, pb_dec_fixed_length_bytes,
}

module _ (dest n : ℕ) (fits : dest + n < 2 ^ 64) where
  pub uint-Writes : (m v : ℕ) → m ≤ n → Writes dest n (store (λ mem. write_uint mem m dest v))
  uint-Writes m v le =
      Writes-store dest n (λ mem. write_uint mem m dest v)
        λ mem q out.
          write_uint-outside mem m dest v q (omega arith)
            (IsOutside-part dest n dest m q (omega arith) (omega arith) out)

  checked-Writes :
      (m v : ℕ) (b : Bool)
      → m ≤ n
      → Writes dest n (
          store (λ mem. write_uint mem m dest v)
          >> (if b then return tt else fail integer_too_large))
  checked-Writes m v b le = Writes-seq dest n _ (uint-Writes m v le) λ u.
      Writes-if dest n b (λ e. Writes-return dest n tt) (λ e. Writes-fail dest n integer_too_large)

  store_signed-Writes : (m v : ℕ) → m ≤ n → Writes dest n (store_signed m dest v)
  unfolding store_signed
  store_signed-Writes m v le = checked-Writes m v (sign_extend (8 * m) (v % 2 ^ (8 * m)) == v) le

  store_unsigned-Writes : (m v : ℕ) → m ≤ n → Writes dest n (store_unsigned m dest v)
  unfolding store_unsigned
  store_unsigned-Writes m v le = checked-Writes m v (v % 2 ^ (8 * m) == v) le

module _ (field : Field) (dest : ℕ) (fits : dest + field.data_size < 2 ^ 64) where
  by_size-Writes :
      (act : ℕ → Action Machine (Unit {0}))
      → ((m : ℕ) → m ≤ field.data_size → Writes dest field.data_size (act m))
      → Writes dest field.data_size (by_size act field)
  by_size-Writes act h =
      let n = field.data_size in
      Writes-if dest n (n == 8) (λ e. h 8 (ground arith))
        λ e.
          Writes-if dest n (n == 4) (λ e. h 4 (ground arith))
            λ e.
              Writes-if dest n (n == 2) (λ e. h 2 (ground arith))
                λ e.
                  Writes-if dest n (n == 1) (λ e. h 1 (ground arith))
                    λ e. Writes-fail dest n invalid_data_size

  pub pb_dec_varint-Writes : Writes dest field.data_size (pb_dec_varint field dest)
  unfolding pb_dec_varint
  pb_dec_varint-Writes =
      Writes-seq dest field.data_size _ (Writes-stream dest field.data_size pb_decode_varint)
        λ value.
          (let svalue = if field.data_size == 8 then value else sign_extend 32 (u32 value) in
            by_size-Writes (λ m. store_signed m dest svalue)
              (λ m. store_signed-Writes dest field.data_size fits m svalue))

  pub pb_dec_uvarint-Writes : Writes dest field.data_size (pb_dec_uvarint field dest)
  unfolding pb_dec_uvarint
  pb_dec_uvarint-Writes =
      Writes-seq dest field.data_size _ (Writes-stream dest field.data_size pb_decode_varint)
        λ value.
          by_size-Writes (λ m. store_unsigned m dest value)
            (λ m. store_unsigned-Writes dest field.data_size fits m value)

  pub pb_dec_svarint-Writes : Writes dest field.data_size (pb_dec_svarint field dest)
  unfolding pb_dec_svarint
  pb_dec_svarint-Writes =
      Writes-seq dest field.data_size _ (Writes-stream dest field.data_size pb_decode_svarint)
        λ value.
          by_size-Writes (λ m. store_signed m dest value)
            (λ m. store_signed-Writes dest field.data_size fits m value)

  pub pb_dec_fixed32-Writes :
      4 ≤ field.data_size → Writes dest field.data_size (pb_dec_fixed32 field dest)
  unfolding pb_dec_fixed32
  pb_dec_fixed32-Writes room =
      Writes-seq dest field.data_size _ (Writes-stream dest field.data_size pb_decode_fixed32)
        λ value. uint-Writes dest field.data_size fits 4 value room

  pub pb_dec_fixed64-Writes :
      8 ≤ field.data_size → Writes dest field.data_size (pb_dec_fixed64 field dest)
  unfolding pb_dec_fixed64
  pb_dec_fixed64-Writes room =
      Writes-seq dest field.data_size _ (Writes-stream dest field.data_size pb_decode_fixed64)
        λ value. uint-Writes dest field.data_size fits 8 value room

  pub pb_dec_fixed_length_bytes-Writes :
      Writes dest field.data_size (pb_dec_fixed_length_bytes field dest)
  unfolding pb_dec_fixed_length_bytes
  pb_dec_fixed_length_bytes-Writes =
      let n = field.data_size in
      Writes-seq dest n _ (Writes-stream dest n pb_decode_varint32) λ size.
        Writes-if dest n (ltb pb_size_max size) (λ e. Writes-fail dest n bytes_overflow)
          λ e.
            Writes-if dest n (size == 0)
              (λ e.
                Writes-store dest n (λ mem. write_zeros mem dest n)
                  (λ mem q out. write_zeros-outside mem n dest q fits out))
              (λ e.
                Writes-if dest n (size == n)
                  (λ e. read_into-Writes dest n dest n (omega arith) (omega arith) fits)
                  (λ e. Writes-fail dest n incorrect_fixed_length_bytes_size))
