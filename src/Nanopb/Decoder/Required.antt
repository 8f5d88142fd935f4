-- ===== src/Nanopb/Decoder/Required.antt =====
-- TestProdSS/Pods/nanopb/pb_decode.c: how `pb_decode_noinit` keeps account of the required fields that
-- it has seen. PB_MAX_REQUIRED_FIELDS is 64, so that `fields_seen` has two words.
pub mod Bits
pub mod Words
pub mod Seen
pub mod Count
use teta.Prelude.{
  ℕ, zero, suc, ◌+◌, ◌-◌, ◌^◌, Bool, true, not, ◌&&◌, ◌||◌, List, [], ◌∷◌, length, ltb, ◌==◌,
  if◌then◌else◌, bit_and, bit_or, u32, ◌<<<◌, ◌>>>◌,
}
use teta.Nanopb.Fields.{Iter, current, pb_field_iter_next, htype, htype_required}

abbrev pub pb_max_required_fields : ℕ
pb_max_required_fields = 64

abbrev pub allbits : ℕ
allbits = 2 ^ 32 - 1

-- `{0, 0}`
abbrev pub none_seen : List ℕ
none_seen = 0 ∷ 0 ∷ []

-- `fields_seen[i]`, and `fields_seen[i] |= bits`.
abbrev pub word_at : List ℕ → ℕ → ℕ
word_at [] i = 0
word_at (w ∷ ws) zero = w
word_at (w ∷ ws) (suc i) = word_at ws i

abbrev pub or_word : List ℕ → ℕ → ℕ → List ℕ
or_word [] i bits = []
or_word (w ∷ ws) zero bits = bit_or w bits ∷ ws
or_word (w ∷ ws) (suc i) bits = w ∷ or_word ws i bits

-- `fields_seen[index >> 5] |= (uint32_t)1 << (index & 31)`
unfoldable pub mark_seen : ℕ → List ℕ → List ℕ
mark_seen index fields_seen = or_word fields_seen (index >>> 5) (u32 (1 <<< bit_and index 31))

-- The loop over the whole words: the next `count` of them from index `i` on have all bits.
unfoldable pub whole_words : ℕ → ℕ → List ℕ → Bool
whole_words zero i fields_seen = true
whole_words (suc count) i fields_seen =
    word_at fields_seen i == allbits && whole_words count (i + 1) fields_seen

-- No PB_RETURN_ERROR in the check of the first `count` required fields.
unfoldable pub all_seen : ℕ → List ℕ → Bool
all_seen count fields_seen =
    whole_words (count >>> 5) 0 fields_seen
    && (bit_and count 31 == 0
        || word_at fields_seen (count >>> 5) == allbits >>> (32 - bit_and count 31))

-- `do … while (pb_field_iter_next(&iter))`: the last iterator that the body sees, and the iterator
-- behind the loop.
unfoldable pub seek_end : ℕ → Iter → Iter × Iter
seek_end zero iter = (iter, iter)
seek_end (suc rounds) iter =
    let (next, more) = pb_field_iter_next iter in
    let rest = seek_end rounds next in if more then rest else (iter, next)

-- `req_field_count`, by the two iterators, and bounded.
unfoldable pub required_count : Iter × Iter → ℕ
required_count (last, end) =
    let count =
      if htype (current last) == htype_required && not ((current end).tag == 0)
      then u32 (last.required_field_index + 1)
      else last.required_field_index in
    if ltb pb_max_required_fields count then pb_max_required_fields else count

unfoldable pub all_required_seen : Iter → List ℕ → Bool
all_required_seen iter fields_seen =
    all_seen (required_count (seek_end (length iter.start + 1) iter)) fields_seen
