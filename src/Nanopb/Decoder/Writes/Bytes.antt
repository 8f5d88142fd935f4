-- ===== src/Nanopb/Decoder/Writes/Bytes.antt =====
-- The decoders of bytes and strings that stand in the structure itself write only into their member.
use teta.Prelude.{
  ℕ, ◌+◌, ◌≤◌, ◌<◌, ◌≡◌, ◌^◌, arith, false, Option, ltb, ltb→ge, ◌==◌, inl, inr, Bool-cases,
  if◌then◌else◌, u32, u64,
}
use teta.Nanopb.Action.{
  Errmsg, Action, ◌>>=◌, ◌>>◌, return, bytes_overflow, size_too_large, string_overflow,
}
use teta.Nanopb.Memory.{write_size, offset}
use teta.Nanopb.Memory.Stores.{IsOutside}
use teta.Nanopb.Machine.{Machine, Placement, fail, store, read_into}
use teta.Nanopb.Machine.Writes.{
  Writes, Writes-fail, Writes-stream, Writes-if, Writes-seq, read_into-Writes,
}
use teta.Nanopb.Fields.{Field, atype, atype_static, atype_pointer, pb_size_max}
use teta.Nanopb.Decode.{pb_decode_varint32}
use teta.Nanopb.Decoder.Values.{bytes_place, pb_dec_bytes, string_place, terminated, pb_dec_string}
use native.Mathlib.Nat.{mod-eq_of_lt}
use teta.Nanopb.Decoder.Writes.Numbers.{uint-Writes}

module _ (field : Field) (dest : ℕ) (fits : dest + field.data_size < 2 ^ 64) (place : Placement)
    (static : atype field ≡ atype_static) where
  -- The place of a static value is `dest`, where the value has room.
  static_place-Writes :
      (elsewhere : Action Machine ℕ) (msg : Errmsg) (alloc_size : ℕ)
      (f : ℕ → Action Machine (Unit {0}))
      → (alloc_size ≤ field.data_size → Writes dest field.data_size (f dest))
      → Writes dest field.data_size (
          (if atype field == atype_pointer
            then elsewhere
            else if ltb field.data_size alloc_size
            then fail msg
            else return dest)
          >>= f)
  static_place-Writes elsewhere msg alloc_size f h =
      elim (Bool-cases (ltb field.data_size alloc_size)) [
        | inl over ↦ rw (static, over) (Writes-fail dest field.data_size msg)
        | inr room ↦ rw (static, room) (h (ltb→ge _ _ room))
      ]

  bytes_size : (size : ℕ) → ltb pb_size_max size ≡ false → u64 (size + 4) ≡ size + 4
  bytes_size size small = let le : size ≤ pb_size_max = ltb→ge _ _ small in omega arith

  bytes-Writes :
      (size : ℕ)
      → size + 4 ≤ field.data_size
      → Writes dest field.data_size
          (store (λ mem. write_size mem dest (u32 size)) >> read_into (offset dest 4) size)
  bytes-Writes size room =
      Writes-seq dest field.data_size (λ u. read_into (offset dest 4) size)
        (uint-Writes dest field.data_size fits 4 (u32 size) (omega arith)) (λ u. text)
    where
      next : offset dest 4 ≡ dest + 4
      next = mod-eq_of_lt (omega arith)

      text : Writes dest field.data_size (read_into (offset dest 4) size)
      text =
          rw next
            (read_into-Writes dest field.data_size (dest + 4) size (omega arith) (omega arith) fits)

  pub pb_dec_bytes-Writes : Writes dest field.data_size (pb_dec_bytes place field dest)
  unfolding pb_dec_bytes bytes_place
  pb_dec_bytes-Writes =
      let n = field.data_size in
      Writes-seq dest n _ (Writes-stream dest n pb_decode_varint32) λ size.
        Writes-if dest n (ltb pb_size_max size) (λ e. Writes-fail dest n bytes_overflow)
          λ small.
            Writes-if dest n (ltb (u64 (size + 4)) size) (λ e. Writes-fail dest n size_too_large)
              λ e.
                static_place-Writes _ bytes_overflow (u64 (size + 4))
                  (λ bdest.
                    store (λ mem. write_size mem bdest (u32 size))
                    >> read_into (offset bdest 4) size)
                  (λ room. bytes-Writes size (omega (arith, bytes_size size small)))

  string-Writes :
      (size : ℕ)
      → size + 1 ≤ field.data_size
      → Writes dest field.data_size
          (λ w. terminated place (offset dest size) (read_into dest size w))
  string-Writes size room = record {
    spares = λ w q out. terminator w q out (read_into dest size w) (
        (read_into-Writes dest field.data_size dest size (omega arith) (omega arith) fits).spares w
          q out);
  }
    where
      here : offset dest size ≡ dest + size
      here = mod-eq_of_lt (omega arith)

      terminator :
          (w : Machine) (q : ℕ)
          → IsOutside dest field.data_size q
          → (r : Option (Unit {0}) × Machine) → r.1.mem q ≡ w.mem q
          → (terminated place (offset dest size) r).1.mem q ≡ w.mem q
      terminator w q (inl low) (status, v) e = rw here (ground arith)
      terminator w q (inr high) (status, v) e = rw here (ground arith)

  string_size : (size : ℕ) → ltb (u32 (size + 1)) size ≡ false → u32 (size + 1) ≡ size + 1
  string_size size small = let le : size ≤ u32 (size + 1) = ltb→ge _ _ small in omega arith

  pub pb_dec_string-Writes : Writes dest field.data_size (pb_dec_string place field dest)
  unfolding pb_dec_string string_place
  pb_dec_string-Writes =
      let n = field.data_size in
      Writes-seq dest n _ (Writes-stream dest n pb_decode_varint32) λ size.
        Writes-if dest n (ltb (u32 (size + 1)) size) (λ e. Writes-fail dest n size_too_large)
          λ small.
            static_place-Writes _ string_overflow (u32 (size + 1))
              (λ text w. terminated place (offset text size) (read_into text size w))
              (λ room. string-Writes size (omega (arith, string_size size small)))
