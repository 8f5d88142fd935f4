-- ===== src/Nanopb/Machine.antt =====
-- What pb_decode.c changes when it decodes a message: the stream, the memory that holds the
-- structures, and the blocks that the allocator behind `pb_realloc` and `pb_free` (pb.h) has given.
pub mod Safety
pub mod Writes
use teta.Prelude.{
  ℕ, zero, suc, Bool, true, false, Option, none, some, List, [], ◌∷◌, ltb, ◌==◌, if◌then◌else◌,
}
use teta.Nanopb.Action.{Errmsg, first_error, Action}
use teta.Nanopb.Istream.{Istream, pb_read}
use teta.Nanopb.Memory.{Memory, bytes_at, write_bytes}

-- `undefined` says that C's behaviour has become undefined, `unfinished` that the fuel of the model
-- has run out. What a run does behind such a mark means nothing.
pub data Mark : Type 0 where
  running undefined unfinished : Mark

-- A block that was allocated and not freed.
pub record Block : Type 0 where
  pub address : ℕ
  pub size : ℕ

pub record Machine : Type 0 where
  pub stream : Istream
  pub mem : Memory
  pub blocks : List Block
  pub mark : Mark

abbrev pub marked : Mark → Machine → Machine
marked mark w = record w { mark = mark }

abbrev pub lost : {A : Type 0} → Mark → Action Machine A
lost mark w = (none, marked mark w)

-- PB_RETURN_ERROR
abbrev pub fail : {A : Type 0} → Errmsg → Action Machine A
fail msg w =
    (none, record w { stream = record w.stream { errmsg = first_error w.stream.errmsg msg } })

-- A function of the stream alone.
abbrev pub with_stream : {A : Type 0} → Machine → Option A × Istream → Option A × Machine
with_stream w (r, s) = (r, record w { stream = s })

abbrev pub on_stream : {A : Type 0} → Action Istream A → Action Machine A
on_stream m w = with_stream w (m w.stream)

-- A statement that cannot fail.
abbrev pub modify : (Machine → Machine) → Action Machine (Unit {0})
modify f w = (some tt, f w)

abbrev pub on_memory : (Memory → Memory) → Machine → Machine
on_memory f w = record w { mem = f w.mem }

abbrev pub store : (Memory → Memory) → Action Machine (Unit {0})
store f = modify (on_memory f)

abbrev pub gets : {A : Type 0} → (Machine → A) → Action Machine A
gets f w = (some (f w), w)

-- `pb_read(stream, (pb_byte_t*)p, count)`
abbrev pub stored_at : ℕ → Option (List ℕ) × Machine → Option (Unit {0}) × Machine
stored_at p (none, w) = (none, w)
stored_at p (some bs, w) = (some tt, on_memory (λ mem. write_bytes mem p bs) w)

unfoldable pub read_into : ℕ → ℕ → Action Machine (Unit {0})
read_into p count w = stored_at p (on_stream (pb_read count) w)

-- The size of the block that begins at an address.
unfoldable pub block_size : List Block → ℕ → Option ℕ
block_size [] p = none
block_size (b ∷ bs) p = if b.address == p then some b.size else block_size bs p

unfoldable pub without : ℕ → List Block → List Block
without p [] = []
without p (b ∷ bs) = if b.address == p then without p bs else b ∷ without p bs

-- The allocator's choice of an address, 0 where it has no memory, by the blocks in use, the pointer
-- and the wanted size.
abbrev pub Placement : Type 0
Placement = List Block → ℕ → ℕ → ℕ

-- The block at `ptr`, of `old` bytes, moves to `address` and gets `size` bytes.
abbrev moved : ℕ → ℕ → ℕ → ℕ → Machine → ℕ × Machine
moved ptr old size address w = if address == 0 then (0, w) else (
  address,
  record w {
    mem = write_bytes w.mem address (bytes_at w.mem (if ltb old size then old else size) ptr);
    blocks = record { address = address; size = size } ∷ without ptr w.blocks;
  },
)

abbrev resized : Placement → ℕ → ℕ → Machine → Option ℕ → ℕ × Machine
resized place ptr size w none = (0, marked undefined w)
resized place ptr size w (some old) = moved ptr old size (place w.blocks ptr size) w

-- `realloc(ptr, size)`: the pointer it returns. On the null pointer it allocates.
unfoldable pub pb_realloc : Placement → ℕ → ℕ → Machine → ℕ × Machine
pb_realloc place ptr size w =
    if ptr == 0
    then resized place ptr size w (some 0)
    else resized place ptr size w (block_size w.blocks ptr)

abbrev freed : ℕ → Machine → Option ℕ → Machine
freed ptr w none = marked undefined w
freed ptr w (some size) = record w { blocks = without ptr w.blocks }

-- `free(ptr)`
unfoldable pub pb_free : ℕ → Machine → Machine
pb_free ptr w = if ptr == 0 then w else freed ptr w (block_size w.blocks ptr)
