-- ===== src/Nanopb/Action.antt =====
-- TestProdSS/Pods/nanopb/pb.h: the error messages of the library (the texts given to
-- PB_RETURN_ERROR), and the shape that its functions share: a function that changes a stream and
-- answers true, with a value, or false.
use teta.Prelude.{Option, none, some}

pub data Errmsg : Type 0 where
  stream_full io_error end_of_stream varint_overflow invalid_wire_type : Errmsg
  parent_stream_too_short invalid_field_type invalid_data_size integer_too_large : Errmsg
  array_overflow array_max_size_exceeded missing_required_field submsg_size_changed : Errmsg
  bytes_size_exceeded bytes_overflow string_overflow size_too_large : Errmsg
  incorrect_fixed_length_bytes_size invalid_field_descriptor callback_error : Errmsg
  callback_failed wrong_size_for_fixed_count_field invalid_union_tag iterator_error : Errmsg
  invalid_size realloc_failed too_many_array_entries : Errmsg

-- PB_SET_ERROR: the first message stays.
abbrev pub first_error : Option Errmsg → Errmsg → Option Errmsg
first_error none msg = some msg
first_error (some old) msg = some old

-- `none` is the return value false. The state is the stream as the call leaves it.
abbrev pub Action : Type 0 → Type 0 → Type 0
Action S A = S → Option A × S

abbrev pub then_on : {S A B : Type 0} → Option A × S → (A → S → Option B × S) → Option B × S
then_on (none, s) f = (none, s)
then_on (some a, s) f = f a s

-- `if (!m(stream)) return false;` and then the rest.
infixl 5 ◌>>=◌ ◌>>◌
abbrev pub ◌>>=◌ : {S A B : Type 0} → Action S A → (A → Action S B) → Action S B
◌>>=◌ m f s = then_on (m s) f

abbrev pub ◌>>◌ : {S B : Type 0} → Action S (Unit {0}) → Action S B → Action S B
◌>>◌ m k s = then_on (m s) (λ u. k)

abbrev pub return : {S A : Type 0} → A → Action S A
return a s = (some a, s)
