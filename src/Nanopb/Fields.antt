-- ===== src/Nanopb/Fields.antt =====
-- TestProdSS/Pods/nanopb/pb.h and pb_common.c: field descriptors and the iterator over them, as built
-- with PB_FIELD_32BIT (TestProdSS/Pods/Pods.xcodeproj).
pub mod Walk
pub mod Search
pub mod Layout
pub mod Placed
mod Tests
use teta.Prelude.{ℕ, zero, suc, ◌+◌, ◌-◌, ◌*◌, ◌^◌, Bool, true, false, not, ◌&&◌, List, [], ◌∷◌}
use teta.Prelude.{length, ◌==◌, if◌then◌else◌, bit_and, u32, u64}
use teta.Nanopb.Memory.{offset, signed_offset}

-- struct pb_field_s. `ptr` is an address; `size_offset` is a bit pattern of 32 bits.
pub record Field : Type 0 where
  pub tag : ℕ
  pub type : ℕ
  pub data_offset : ℕ
  pub size_offset : ℕ
  pub data_size : ℕ
  pub array_size : ℕ
  pub ptr : ℕ

-- PB_LAST_FIELD
abbrev pub last_field : Field
last_field = record {
  tag = 0;
  type = 0;
  data_offset = 0;
  size_offset = 0;
  data_size = 0;
  array_size = 0;
  ptr = 0;
}

-- PB_ATYPE, PB_HTYPE and PB_LTYPE
abbrev pub atype : Field → ℕ
atype f = bit_and f.type 0xc0

abbrev pub htype : Field → ℕ
htype f = bit_and f.type 0x30

abbrev pub ltype : Field → ℕ
ltype f = bit_and f.type 0x0f

abbrev pub ltype_varint : ℕ
ltype_varint = 0

abbrev pub ltype_uvarint : ℕ
ltype_uvarint = 1

abbrev pub ltype_svarint : ℕ
ltype_svarint = 2

abbrev pub ltype_fixed32 : ℕ
ltype_fixed32 = 3

abbrev pub ltype_fixed64 : ℕ
ltype_fixed64 = 4

abbrev pub ltype_last_packable : ℕ
ltype_last_packable = 4

abbrev pub ltype_bytes : ℕ
ltype_bytes = 5

abbrev pub ltype_string : ℕ
ltype_string = 6

abbrev pub ltype_submessage : ℕ
ltype_submessage = 7

abbrev pub ltype_extension : ℕ
ltype_extension = 8

abbrev pub ltype_fixed_length_bytes : ℕ
ltype_fixed_length_bytes = 9

abbrev pub htype_required : ℕ
htype_required = 0x00

abbrev pub htype_optional : ℕ
htype_optional = 0x10

abbrev pub htype_repeated : ℕ
htype_repeated = 0x20

abbrev pub htype_oneof : ℕ
htype_oneof = 0x30

abbrev pub atype_static : ℕ
atype_static = 0x00

abbrev pub atype_pointer : ℕ
atype_pointer = 0x80

abbrev pub atype_callback : ℕ
atype_callback = 0x40

abbrev pub pb_size_max : ℕ
pb_size_max = 2 ^ 32 - 1

-- The entry of a descriptor array; behind its end stands the terminator.
abbrev pub field_at : List Field → ℕ → Field
field_at [] i = last_field
field_at (f ∷ fs) zero = f
field_at (f ∷ fs) (suc i) = field_at fs i

-- struct pb_field_iter_s. `start` is the array, and `pos` an index into it.
pub record Iter : Type 0 where
  pub start : List Field
  pub pos : ℕ
  pub required_field_index : ℕ
  pub dest_struct : ℕ
  pub p_data : ℕ
  pub p_size : ℕ

-- `*iter->pos`
abbrev pub current : Iter → Field
current iter = field_at iter.start iter.pos

unfoldable pub iter_at_begin : List Field → ℕ → Iter
iter_at_begin fields dest_struct =
    let p_data = offset dest_struct (field_at fields 0).data_offset in
    record {
      start = fields;
      pos = 0;
      required_field_index = 0;
      dest_struct = dest_struct;
      p_data = p_data;
      p_size = signed_offset p_data (field_at fields 0).size_offset;
    }

-- The iterator, and the function's return value.
pub pb_field_iter_begin : List Field → ℕ → Iter × Bool
pb_field_iter_begin fields dest_struct =
    (iter_at_begin fields dest_struct, not ((field_at fields 0).tag == 0))

-- The bytes that `prev` takes in the structure before the next field's own offset.
unfoldable pub prev_size : Field → ℕ
prev_size prev =
    if atype prev == atype_static && htype prev == htype_repeated
    then u64 (prev.data_size * prev.array_size)
    else if atype prev == atype_pointer
    then 8
    else prev.data_size

-- `iter` moved to its next field, which is no terminator.
unfoldable pub advanced : Iter → Iter
advanced iter =
    let prev = current iter in
    let next = field_at iter.start (iter.pos + 1) in
    if htype prev == htype_oneof && htype next == htype_oneof && next.data_offset == pb_size_max
    then record iter { pos = iter.pos + 1 }
    else (let index =
          if htype prev == htype_required
          then u32 (iter.required_field_index + 1)
          else iter.required_field_index in
        let p_data = offset (offset iter.p_data (prev_size prev)) next.data_offset in
        record iter {
          pos = iter.pos + 1;
          required_field_index = index;
          p_data = p_data;
          p_size = signed_offset p_data next.size_offset;
        })

pub pb_field_iter_next : Iter → Iter × Bool
pb_field_iter_next iter =
    if (current iter).tag == 0
    then (iter, false)
    else if (field_at iter.start (iter.pos + 1)).tag == 0
    then (iter_at_begin iter.start iter.dest_struct, false)
    else (advanced iter, true)

-- `iter->pos->tag == tag && PB_LTYPE(iter->pos->type) != PB_LTYPE_EXTENSION`
abbrev pub is_wanted : ℕ → Field → Bool
is_wanted tag field = field.tag == tag && not (ltype field == ltype_extension)

-- The do loop that has begun at index `start`, with the rounds that it may still make.
pub find_loop : ℕ → ℕ → ℕ → Iter → Iter × Bool
find_loop zero start tag iter = (iter, false)
find_loop (suc fuel) start tag iter =
    let next = (pb_field_iter_next iter).0 in
    let again = find_loop fuel start tag next in
    if is_wanted tag (current iter)
    then (iter, true)
    else if next.pos == start
    then (next, false)
    else again

-- A turn through the array takes at most as many rounds as it has entries.
pub pb_field_iter_find : Iter → ℕ → Iter × Bool
pb_field_iter_find iter tag = find_loop (length iter.start + 1) iter.pos tag iter
