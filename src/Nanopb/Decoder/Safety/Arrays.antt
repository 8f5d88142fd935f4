-- ===== src/Nanopb/Decoder/Safety/Arrays.antt =====
-- The decoders of repeated fields keep the machine sound where the decoder of one entry does.
use teta.Prelude.{
  ℕ, zero, suc, ◌+◌, ◌-◌, ◌/◌, ◌^◌, ◌==◌, not, ◌&&◌, Bool, true, false, Option, none, some, ltb,
  u32, u64, inl, inr, Bool-cases,
}
use teta.Nanopb.Action.{Action, return, ◌>>◌, array_overflow, too_many_array_entries}
use teta.Nanopb.Istream.{Istream}
use teta.Nanopb.Istream.Safety.{IsWithin}
use teta.Nanopb.Memory.{read_size, read_pointer}
use teta.Nanopb.Machine.{Machine, Placement, undefined, unfinished, store}
use teta.Nanopb.Machine.Safety.{
  IsSound, Sound, Sound-return, Sound-gets, Sound-fail, Sound-lost, Sound-if, Sound-choose,
  Sound-with, Sound-seq, Sound-then, Sound-store, Sound-modify, Steady, OnSuccess,
}
use teta.Nanopb.Fields.{Iter, current, pb_size_max}
use teta.Nanopb.Decoder.Allocate.{allocate_field}
use teta.Nanopb.Decoder.Arrays.{
  entry_at, count_up, static_items, static_end, static_packed, static_repeated, reserve,
  decode_entry, pointer_items, pointer_end, pointer_packed, pointer_repeated,
}
use teta.Nanopb.Decoder.Safety.Values.{allocate_field-Sound}
use teta.Nanopb.Decoder.Safety.Substream.{
  Returns, open_substream-Sound, close_substream-Returns, close_substream-InStep, fail_on-Returns,
}

module _ (func : ℕ → Action Machine (Unit {0})) (iter : Iter) (h : (p : ℕ) → Sound (func p)) where
  static_items-Sound : (rounds : ℕ) → Sound (static_items func iter rounds)
  unfolding static_items
  static_items-Sound zero = Sound-lost unfinished
  static_items-Sound (suc rounds) =
      Sound-choose
        (λ w.
          not (w.stream.bytes_left == 0)
          && ltb (read_size w.mem iter.p_size) (current iter).array_size)
        (Sound-with (λ w. entry_at iter iter.p_data (read_size w.mem iter.p_size))
          (λ p. func p >> (store (count_up iter) >> static_items func iter rounds))
          (λ p.
            Sound-then (h p)
              (Sound-then (Sound-store (count_up iter)) (static_items-Sound rounds))))
        (Sound-return tt)

  static_end-Returns :
      (k : ℕ) (s : Istream) (r : Option (Unit {0}) × Machine)
      → IsWithin k s
      → IsSound (s.bytes_left + k) r.1
      → Returns k s (static_end func iter s r).1
  static_end-Returns k s (status, w) within sound = elim (Bool-cases (w.stream.bytes_left == 0)) [
    | inl read ↦ rw read (close_substream-Returns k s (status, w) within sound)
    | inr more ↦ rw more (fail_on-Returns k s array_overflow w within)
  ]

  static_end-InStep :
      (k : ℕ) (s : Istream) (r : Option (Unit {0}) × Machine)
      → OnSuccess (s.bytes_left + k) r
      → OnSuccess k (static_end func iter s r)
  static_end-InStep k s (status, w) j = elim (Bool-cases (w.stream.bytes_left == 0)) [
    | inl read ↦ rw read (close_substream-InStep k s (status, w) j)
    | inr more ↦ rw more tt
  ]

  pub static_packed-Sound : Sound (static_packed func iter)
  unfolding static_packed
  static_packed-Sound =
      open_substream-Sound
        (λ s w. static_end func iter s (static_items func iter (w.stream.bytes_left + 1) w))
        (record {
          keeps = λ k s w within sound.
              static_end-Returns k s (static_items func iter (w.stream.bytes_left + 1) w) within
                ((static_items-Sound (w.stream.bytes_left + 1)).keeps (s.bytes_left + k) w sound).0;
          in_step = λ k s w j.
              static_end-InStep k s (static_items func iter (w.stream.bytes_left + 1) w)
                ((static_items-Sound (w.stream.bytes_left + 1)).in_step (s.bytes_left + k) w j);
        })

  pub static_repeated-Sound : Sound (static_repeated func iter)
  unfolding static_repeated
  static_repeated-Sound = Sound-seq _ (Sound-gets (λ w. read_size w.mem iter.p_size)) λ size.
      Sound-then (Sound-store (count_up iter)) (
        Sound-if (ltb size (current iter).array_size) (h (entry_at iter iter.p_data size))
          (Sound-fail array_overflow))

module _ (place : Placement) (initialize : ℕ → Machine → Machine)
    (steady : (p : ℕ) → Steady (initialize p)) (func : ℕ → Action Machine (Unit {0})) (iter : Iter)
    (h : (p : ℕ) → Sound (func p)) where
  reserve-Sound : (allocated_size : ℕ) → Sound (reserve place initialize func iter allocated_size)
  unfolding reserve
  reserve-Sound allocated_size =
      Sound-choose (λ w. ltb allocated_size (read_size w.mem iter.p_size + 1))
        (Sound-choose (λ w. (current iter).data_size == 0) (Sound-lost undefined)
          (Sound-with
            (λ w. u64 (allocated_size + ((w.stream.bytes_left - 1) / (current iter).data_size + 1)))
            (λ more. allocate_field place iter.p_data (current iter).data_size more >> return more)
            (λ more.
              Sound-then (allocate_field-Sound place iter.p_data (current iter).data_size more)
                (Sound-return more))))
        (Sound-return allocated_size)

  decode_entry-Sound : (i : ℕ) → Sound (decode_entry place initialize func iter i)
  unfolding decode_entry
  decode_entry-Sound i = Sound-seq _ (Sound-gets (λ w. read_pointer w.mem iter.p_data)) λ array.
      Sound-then (Sound-modify (steady (entry_at iter array i))) (h (entry_at iter array i))

  pointer_items-Sound :
      (rounds allocated_size : ℕ)
      → Sound (pointer_items place initialize func iter rounds allocated_size)
  unfolding pointer_items
  pointer_items-Sound zero allocated_size = Sound-lost unfinished
  pointer_items-Sound (suc rounds) allocated_size =
      Sound-choose (λ w. w.stream.bytes_left == 0) (Sound-return true)
        (Sound-seq _ (reserve-Sound allocated_size) λ allocated.
          Sound-seq _ (Sound-gets (λ w. read_size w.mem iter.p_size)) λ i.
            Sound-then (decode_entry-Sound i) (
              Sound-seq _ (Sound-gets (λ w. read_size w.mem iter.p_size)) λ size.
                Sound-if (size == pb_size_max) (Sound-return false) (
                  Sound-then (Sound-store (count_up iter)) (pointer_items-Sound rounds allocated))))

  pointer_end-Returns :
      (k : ℕ) (s : Istream) (r : Option Bool × Machine)
      → IsWithin k s
      → IsSound (s.bytes_left + k) r.1
      → Returns k s (pointer_end place initialize func iter s r).1
  pointer_end-Returns k s (none, w) within sound =
      close_substream-Returns k s (none, w) within sound
  pointer_end-Returns k s (some true, w) within sound =
      close_substream-Returns k s (some tt, w) within sound
  pointer_end-Returns k s (some false, w) within sound =
      close_substream-Returns k (record s { errmsg = some too_many_array_entries }) (none, w) within
        sound

  pointer_end-InStep :
      (k : ℕ) (s : Istream) (r : Option Bool × Machine)
      → OnSuccess (s.bytes_left + k) r
      → OnSuccess k (pointer_end place initialize func iter s r)
  pointer_end-InStep k s (none, w) j = close_substream-InStep k s (none, w) tt
  pointer_end-InStep k s (some true, w) j = close_substream-InStep k s (some tt, w) j
  pointer_end-InStep k s (some false, w) j =
      close_substream-InStep k (record s { errmsg = some too_many_array_entries }) (none, w) tt

  pub pointer_packed-Sound : Sound (pointer_packed place initialize func iter)
  unfolding pointer_packed
  pointer_packed-Sound = Sound-seq _ (Sound-gets (λ w. read_size w.mem iter.p_size)) λ size.
      let items : ℕ → Action Machine Bool =
        λ n. pointer_items place initialize func iter (n + 1) size in
      open_substream-Sound
        (λ s w. pointer_end place initialize func iter s (items w.stream.bytes_left w))
        (record {
          keeps = λ k s w within sound.
              pointer_end-Returns k s (items w.stream.bytes_left w) within
                ((pointer_items-Sound (w.stream.bytes_left + 1) size).keeps (s.bytes_left + k) w
                  sound).0;
          in_step = λ k s w j.
              pointer_end-InStep k s (items w.stream.bytes_left w) (
                (pointer_items-Sound (w.stream.bytes_left + 1) size).in_step (s.bytes_left + k) w
                  j);
        })

  pub pointer_repeated-Sound : Sound (pointer_repeated place initialize func iter)
  unfolding pointer_repeated
  pointer_repeated-Sound = Sound-seq _ (Sound-gets (λ w. read_size w.mem iter.p_size)) λ size.
      Sound-if (size == pb_size_max) (Sound-fail too_many_array_entries) (
        Sound-then (Sound-store (count_up iter)) (
          Sound-seq _ (Sound-gets (λ w. read_size w.mem iter.p_size)) λ count.
            Sound-then (allocate_field-Sound place iter.p_data (current iter).data_size count) (
              Sound-seq _ (Sound-gets (λ w. read_size w.mem iter.p_size))
                λ entries. decode_entry-Sound (u32 (entries + 2 ^ 32 - 1)))))
