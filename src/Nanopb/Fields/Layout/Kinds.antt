-- ===== src/Nanopb/Fields/Layout/Kinds.antt =====
-- What the code reads off an entry that a macro of pb.h made: its rule, its allocation, and the bytes
-- that the member takes.
use teta.Prelude.{
  ℕ, ◌^◌, ◌<◌, ◌≡◌, refl, ap, ◌∙◌, arith, Bool, true, ◌&&◌, ◌==◌, bit_or, bit_and, u64, below,
  below-at,
}
use native.Mathlib.Nat.{mod-eq_of_lt, mul_comm}
use teta.Nanopb.Fields.{Field, prev_size, atype, htype}
use teta.Nanopb.Fields.Layout.{
  Declared, required_static, optional_static, oneof_static, repeated_static, required_pointer,
  optional_pointer, oneof_pointer, repeated_pointer, required_callback, optional_callback,
  repeated_callback, Member, pb_membersize, rule, allocation, kind, pb_arraysize, described,
}

abbrev shows : Declared → ℕ → Bool
shows d l =
    bit_and (bit_or (kind d) l) 0x30 == rule d && bit_and (bit_or (kind d) l) 0xc0 == allocation d

all_shown : (d : Declared) → below 16 (shows d) ≡ true
unfolding kind rule allocation
all_shown required_static = refl
all_shown optional_static = refl
all_shown oneof_static = refl
all_shown (repeated_static n) = refl
all_shown required_pointer = refl
all_shown optional_pointer = refl
all_shown oneof_pointer = refl
all_shown repeated_pointer = refl
all_shown required_callback = refl
all_shown optional_callback = refl
all_shown repeated_callback = refl

pub htype-described :
    (fd : ℕ) (m : Member) → m.ltype < 16 → htype (described fd m) ≡ rule m.declared
htype-described fd m h =
    let shown = below-at 16 (shows m.declared) (all_shown m.declared) m.ltype h in ground arith

pub atype-described :
    (fd : ℕ) (m : Member) → m.ltype < 16 → atype (described fd m) ≡ allocation m.declared
atype-described fd m h =
    let shown = below-at 16 (shows m.declared) (all_shown m.declared) m.ltype h in ground arith

pub prev_size-sizeof :
    (d : Declared) (f : Field) (size : ℕ)
    → htype f ≡ rule d
    → atype f ≡ allocation d
    → f.data_size ≡ size
    → f.array_size ≡ pb_arraysize d
    → pb_membersize d size < 2 ^ 32
    → prev_size f ≡ pb_membersize d size
unfolding prev_size pb_membersize pb_arraysize rule allocation
prev_size-sizeof required_static f size h a s n small = rw (h, a, s) refl
prev_size-sizeof optional_static f size h a s n small = rw (h, a, s) refl
prev_size-sizeof oneof_static f size h a s n small = rw (h, a, s) refl
prev_size-sizeof (repeated_static k) f size h a s n small =
    rw (h, a, s, n) (ap u64 (mul_comm size k) ∙ mod-eq_of_lt (omega arith))
prev_size-sizeof required_pointer f size h a s n small = rw (h, a) refl
prev_size-sizeof optional_pointer f size h a s n small = rw (h, a) refl
prev_size-sizeof oneof_pointer f size h a s n small = rw (h, a) refl
prev_size-sizeof repeated_pointer f size h a s n small = rw (h, a) refl
prev_size-sizeof required_callback f size h a s n small = rw (h, a, s) refl
prev_size-sizeof optional_callback f size h a s n small = rw (h, a, s) refl
prev_size-sizeof repeated_callback f size h a s n small = rw (h, a, s) refl
