-- ===== src/Nanopb/Fields/Layout.antt =====
-- TestProdSS/Pods/nanopb/pb.h: the macros that describe a structure's members, for a structure that
-- is laid out in fewer than 2 ^ 31 bytes. `bit_or` is `|`.
pub mod Kinds
pub mod Entries
pub mod Steps
use teta.Prelude.{
  ℕ, zero, suc, ◌+◌, ◌-◌, ◌*◌, ◌^◌, ◌≤◌, ◌<◌, ◌≡◌, ◌≢◌, Bool, true, false, List, [], ◌∷◌, bit_or,
  u32, u64, if◌then◌else◌,
}
use teta.Nanopb.Fields.{
  Field, htype_required, htype_optional, htype_repeated, htype_oneof, atype_static, atype_pointer,
  atype_callback, pb_size_max,
}

-- How a member of type T is declared, by the rule and the allocation of its field: `T m`, `T m[n]`,
-- `T *m`, and `pb_callback_t m`. PB_SINGULAR_* is PB_OPTIONAL_* without a has_ member; PB_ONEOF_* has
-- the shape of these, with the rule PB_HTYPE_ONEOF. PB_OPTEXT_* are no members of the structure.
pub data Declared : Type 0 where
  required_static : Declared
  optional_static : Declared
  oneof_static : Declared
  repeated_static : ℕ → Declared
  required_pointer : Declared
  optional_pointer : Declared
  oneof_pointer : Declared
  repeated_pointer : Declared
  required_callback : Declared
  optional_callback : Declared
  repeated_callback : Declared

-- A member: `ltype` is its PB_LTYPE, `size` the size of T, or of pb_callback_t, `place` its offset,
-- and `counter` that of its has_, _count or which_ member, or its own where it has none.
pub record Member : Type 0 where
  pub declared : Declared
  pub tag : ℕ
  pub ltype : ℕ
  pub size : ℕ
  pub place : ℕ
  pub counter : ℕ
  pub in_union : Bool
  pub ptr : ℕ

-- `sizeof(m)`, on a machine with pointers of 64 bits.
unfoldable pub pb_membersize : Declared → ℕ → ℕ
pb_membersize (repeated_static n) size = n * size
pb_membersize required_pointer size = 8
pb_membersize optional_pointer size = 8
pb_membersize oneof_pointer size = 8
pb_membersize repeated_pointer size = 8
pb_membersize required_static size = size
pb_membersize optional_static size = size
pb_membersize oneof_static size = size
pb_membersize required_callback size = size
pb_membersize optional_callback size = size
pb_membersize repeated_callback size = size

-- The rule and the allocation of a declaration.
unfoldable pub rule : Declared → ℕ
rule required_static = htype_required
rule optional_static = htype_optional
rule oneof_static = htype_oneof
rule (repeated_static n) = htype_repeated
rule required_pointer = htype_required
rule optional_pointer = htype_optional
rule oneof_pointer = htype_oneof
rule repeated_pointer = htype_repeated
rule required_callback = htype_required
rule optional_callback = htype_optional
rule repeated_callback = htype_repeated

unfoldable pub allocation : Declared → ℕ
allocation required_static = atype_static
allocation optional_static = atype_static
allocation oneof_static = atype_static
allocation (repeated_static n) = atype_static
allocation required_pointer = atype_pointer
allocation optional_pointer = atype_pointer
allocation oneof_pointer = atype_pointer
allocation repeated_pointer = atype_pointer
allocation required_callback = atype_callback
allocation optional_callback = atype_callback
allocation repeated_callback = atype_callback

-- The bits that the macro of the name adds to the LTYPE.
unfoldable pub kind : Declared → ℕ
kind d = bit_or (allocation d) (rule d)

unfoldable pub pb_arraysize : Declared → ℕ
pb_arraysize (repeated_static n) = n
pb_arraysize required_static = 0
pb_arraysize optional_static = 0
pb_arraysize oneof_static = 0
pb_arraysize required_pointer = 0
pb_arraysize optional_pointer = 0
pb_arraysize oneof_pointer = 0
pb_arraysize repeated_pointer = 0
pb_arraysize required_callback = 0
pb_arraysize optional_callback = 0
pb_arraysize repeated_callback = 0

-- `pb_delta(st, counter, m)`, as the bit pattern of an int.
abbrev pub pb_delta : Member → ℕ
pb_delta m = u32 (m.counter + 2 ^ 32 - m.place)

-- The entry of a member; `fd` is its data_offset.
abbrev pub described : ℕ → Member → Field
described fd m = record {
  tag = m.tag;
  type = bit_or (kind m.declared) m.ltype;
  data_offset = fd;
  size_offset = pb_delta m;
  data_size = m.size;
  array_size = pb_arraysize m.declared;
  ptr = m.ptr;
}

-- `a - b` on a size_t.
abbrev pub size_minus : ℕ → ℕ → ℕ
size_minus a b = u64 (a + 2 ^ 64 - b)

-- PB_DATAOFFSET_UNION and PB_DATAOFFSET_OTHER
unfoldable pub pb_dataoffset : Member → Member → ℕ
pb_dataoffset prev m =
    if m.in_union
    then pb_size_max
    else u32 (size_minus (size_minus m.place prev.place) (pb_membersize prev.declared prev.size))

-- The descriptor, from the member behind `prev` on, and from the first on (PB_DATAOFFSET_FIRST).
unfoldable pub described_behind : Member → List Member → List Field
described_behind prev [] = []
described_behind prev (m ∷ ms) = described (pb_dataoffset prev m) m ∷ described_behind m ms

unfoldable pub descriptor : Member → List Member → List Field
descriptor m ms = described m.place m ∷ described_behind m ms

-- A member inside the structure.
abbrev pub IsMember : Member → Type 0
IsMember m = (m.place < 2 ^ 31) × (m.counter < 2 ^ 31) × (m.ltype < 16) × (m.tag ≢ 0)

-- A member behind another, in the same union or after its end.
pub data IsBehind (prev m : Member) : Type 0 where
  beside :
      m.in_union ≡ true
      → rule prev.declared ≡ htype_oneof
      → rule m.declared ≡ htype_oneof
      → m.place ≡ prev.place
      → m.counter ≡ prev.counter
      → IsBehind prev m
  after :
      m.in_union ≡ false
      → prev.place + pb_membersize prev.declared prev.size ≤ m.place
      → IsBehind prev m

-- The members of a structure, in its order.
abbrev pub IsLaidOut : Member → List Member → Type 0
IsLaidOut m [] = IsMember m
IsLaidOut m (n ∷ ms) = IsMember m × IsBehind m n × IsLaidOut n ms

abbrev pub member_at : Member → List Member → ℕ → Member
member_at m ms zero = m
member_at m [] (suc i) = m
member_at m (n ∷ ms) (suc i) = member_at n ms i
