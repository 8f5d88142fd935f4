-- ===== src/Nanopb/Wire.antt =====
-- The protocol buffers wire format, written down without nanopb's code: what its encoders shall
-- write and its decoders shall read. Values are plain numbers.
use teta.Prelude.{ℕ, zero, suc, ◌+◌, ◌*◌, ◌/◌, ◌%◌, ◌^◌, ◌≤◌, ◌<◌, ◌≡◌, refl, ap, arith}
use teta.Prelude.{List, [], ◌∷◌, ◌++◌, length, All, IsByte, IsU32, IsU64, ltb, if◌then◌else◌}

-- The digits of `v` to the base 128, lowest first, each but the last marked by 128 on top. The
-- first argument bounds the length: `v` is below `128 ^ (k + 1)`.
unfoldable pub base128 : ℕ → ℕ → List ℕ
base128 zero v = v ∷ []
base128 (suc k) v =
    let rest = base128 k (v / 128) in if ltb v 128 then v ∷ [] else (v % 128 + 128) ∷ rest

-- A varint of at most 64 bits.
abbrev pub varint : ℕ → List ℕ
varint v = base128 9 v

-- The `k` low bytes of `v`, lowest first.
unfoldable pub little_endian : ℕ → ℕ → List ℕ
little_endian zero v = []
little_endian (suc k) v = v % 256 ∷ little_endian k (v / 256)

-- A field's key: its number and its wire type.
abbrev pub key : ℕ → ℕ → List ℕ
key number wire_type = varint (number * 8 + wire_type)

-- Strings, bytes and submessages.
abbrev pub length_delimited : List ℕ → List ℕ
length_delimited bs = varint (length bs) ++ bs

pub length-little_endian : (k v : ℕ) → length (little_endian k v) ≡ k
unfolding little_endian
length-little_endian zero v = omega arith
length-little_endian (suc k) v = omega (arith, length-little_endian k (v / 256))

pub base128-IsByte : (k v : ℕ) → v < 128 ^ suc k → All IsByte (base128 k v)
unfolding base128
base128-IsByte zero v h = omega arith
base128-IsByte (suc k) v h = ground (arith, base128-IsByte k (v / 128) (omega arith))

pub length-base128 : (k v : ℕ) → (1 ≤ length (base128 k v)) × (length (base128 k v) ≤ k + 1)
unfolding base128
length-base128 zero v = omega arith
length-base128 (suc k) v = ground (arith, length-base128 k (v / 128))

-- The bound is of no account where the value is below it.
pub base128-enough : (k n v : ℕ) → k ≤ n → v < 128 ^ suc k → base128 n v ≡ base128 k v
unfolding base128
base128-enough zero zero v h hv = refl
base128-enough zero (suc n) v h hv = ground arith
base128-enough (suc k) zero v h hv = absurd (omega arith)
base128-enough (suc k) (suc n) v h hv =
    ap (λ rest. if ltb v 128 then v ∷ [] else (v % 128 + 128) ∷ rest)
      (base128-enough k n (v / 128) (omega arith) (omega arith))

-- The wire types, and a field's value behind its key.
pub data WireValue : Type 0 where
  varint_value : ℕ → WireValue
  fixed64_value : ℕ → WireValue
  delimited_value : List ℕ → WireValue
  fixed32_value : ℕ → WireValue

unfoldable pub wire_type : WireValue → ℕ
wire_type (varint_value v) = 0
wire_type (fixed64_value v) = 1
wire_type (delimited_value bs) = 2
wire_type (fixed32_value v) = 5

unfoldable pub payload : WireValue → List ℕ
payload (varint_value v) = varint v
payload (fixed64_value v) = little_endian 8 v
payload (delimited_value bs) = length_delimited bs
payload (fixed32_value v) = little_endian 4 v

abbrev pub FitsWire : WireValue → Type 0
FitsWire (varint_value v) = IsU64 v
FitsWire (fixed64_value v) = IsU64 v
FitsWire (delimited_value bs) = IsU32 (length bs)
FitsWire (fixed32_value v) = IsU32 v
