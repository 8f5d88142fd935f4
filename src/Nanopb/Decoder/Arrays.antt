-- ===== src/Nanopb/Decoder/Arrays.antt =====
-- TestProdSS/Pods/nanopb/pb_decode.c: the repeated fields of `decode_static_field` and
-- `decode_pointer_field`. `func` is the decoder of one entry, by its address; the iterator says where
-- the entries and their number stand.
use teta.Prelude.{
  ℕ, zero, suc, ◌+◌, ◌-◌, ◌*◌, ◌/◌, ◌^◌, Bool, true, false, not, ◌&&◌, Option, none, some, ltb,
  ◌==◌, if◌then◌else◌, u32, u64,
}
use teta.Nanopb.Action.{Action, return, ◌>>=◌, ◌>>◌, array_overflow, too_many_array_entries}
use teta.Nanopb.Memory.{Memory, read_size, write_size, read_pointer, offset}
use teta.Nanopb.Istream.{Istream}
use teta.Nanopb.Machine.{Machine, Placement, fail, lost, undefined, unfinished, gets, store, modify}
use teta.Nanopb.Fields.{Iter, current, pb_size_max}
use teta.Nanopb.Decoder.Allocate.{allocate_field}
use teta.Nanopb.Decoder.Substream.{fail_on, open_substream, close_substream}

-- The entry of index `i` behind `base`. The product is a uint32_t.
abbrev pub entry_at : Iter → ℕ → ℕ → ℕ
entry_at iter base i = offset base (u32 ((current iter).data_size * i))

-- `(*size)++`
abbrev pub count_up : Iter → Memory → Memory
count_up iter mem = write_size mem iter.p_size (u32 (read_size mem iter.p_size + 1))

module _ (func : ℕ → Action Machine (Unit {0})) (iter : Iter) where
  -- The while loop over a packed array. A round that succeeds reads a byte.
  unfoldable pub static_items : ℕ → Action Machine (Unit {0})
  static_items zero = lost unfinished
  static_items (suc rounds) =
      let again = static_items rounds in
      λ w.
        if not (w.stream.bytes_left == 0)
          && ltb (read_size w.mem iter.p_size) (current iter).array_size
        then (func (entry_at iter iter.p_data (read_size w.mem iter.p_size))
              >> (store (count_up iter) >> again))
            w
        else (some tt, w)

  abbrev pub static_end : Istream → Option (Unit {0}) × Machine → Option (Unit {0}) × Machine
  static_end s (status, w) =
      if w.stream.bytes_left == 0 then close_substream s (status, w) else fail_on s array_overflow w

  unfoldable pub static_packed : Action Machine (Unit {0})
  static_packed = open_substream (λ s w. static_end s (static_items (w.stream.bytes_left + 1) w))

  unfoldable pub static_repeated : Action Machine (Unit {0})
  static_repeated = do
    size ← gets (λ w. read_size w.mem iter.p_size)
    store (count_up iter)
    if ltb size (current iter).array_size
        then func (entry_at iter iter.p_data size)
        else fail array_overflow

module _ (place : Placement) (initialize : ℕ → Machine → Machine)
    (func : ℕ → Action Machine (Unit {0})) (iter : Iter) where
  -- The storage for one more entry at least: the new `allocated_size`.
  unfoldable pub reserve : ℕ → Action Machine ℕ
  reserve allocated_size w =
      if ltb allocated_size (read_size w.mem iter.p_size + 1)
      then if (current iter).data_size == 0
        then lost undefined w
        else (let more =
              u64 (allocated_size + ((w.stream.bytes_left - 1) / (current iter).data_size + 1)) in
            (allocate_field place iter.p_data (current iter).data_size more >> return more) w)
      else (some allocated_size, w)

  -- `pItem` of an entry in the array that `iter->pData` points to, initialized and decoded.
  unfoldable pub decode_entry : ℕ → Action Machine (Unit {0})
  decode_entry i = do
    array ← gets (λ w. read_pointer w.mem iter.p_data)
    modify (initialize (entry_at iter array i))
    func (entry_at iter array i)

  -- The while loop over a packed array. The value false says that the array cannot count more.
  unfoldable pub pointer_items : ℕ → ℕ → Action Machine Bool
  pointer_items zero allocated_size = lost unfinished
  pointer_items (suc rounds) allocated_size =
      let again = pointer_items rounds in
      let entry : Action Machine Bool = (do
        allocated ← reserve allocated_size
        i ← gets (λ w. read_size w.mem iter.p_size)
        decode_entry i
        size ← gets (λ w. read_size w.mem iter.p_size)
        if size == pb_size_max then return false else store (count_up iter) >> again allocated) in
      λ w. if w.stream.bytes_left == 0 then (some true, w) else entry w

  -- `stream->errmsg = "too many array entries"` replaces an older message.
  abbrev pub pointer_end : Istream → Option Bool × Machine → Option (Unit {0}) × Machine
  pointer_end s (none, w) = close_substream s (none, w)
  pointer_end s (some true, w) = close_substream s (some tt, w)
  pointer_end s (some false, w) =
      close_substream (record s { errmsg = some too_many_array_entries }) (none, w)

  unfoldable pub pointer_packed : Action Machine (Unit {0})
  pointer_packed = do
    size ← gets (λ w. read_size w.mem iter.p_size)
    open_substream (λ s w. pointer_end s (pointer_items (w.stream.bytes_left + 1) size w))

  unfoldable pub pointer_repeated : Action Machine (Unit {0})
  pointer_repeated = do
    size ← gets (λ w. read_size w.mem iter.p_size)
    if size == pb_size_max then fail too_many_array_entries else (do
      store (count_up iter)
      count ← gets (λ w. read_size w.mem iter.p_size)
      allocate_field place iter.p_data (current iter).data_size count
      entries ← gets (λ w. read_size w.mem iter.p_size)
      decode_entry (u32 (entries + 2 ^ 32 - 1)))
