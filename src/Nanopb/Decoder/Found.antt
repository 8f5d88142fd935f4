-- ===== src/Nanopb/Decoder/Found.antt =====
-- `find_extension_field` of pb_decode.c is a search for the next field of extensions.
use teta.Prelude.{ℕ, zero, suc, ◌+◌, ◌<◌, ◌≡◌, refl, ap, Bool, List, length, ◌==◌}
use mathlib.Core.Path.{subst⁻¹}
use teta.Nanopb.Fields.{Field, Iter, pb_field_iter_next, ltype, ltype_extension}
use teta.Nanopb.Fields.Walk.{count_fields, walk}
use teta.Nanopb.Fields.Search.{search, round, IsFound, search-IsFound}
use teta.Nanopb.Decoder.Extensions.{find_extension_loop, find_extension_field}

abbrev pub holds_extensions : Field → Bool
holds_extensions field = ltype field == ltype_extension

find_extension_loop-search :
    (rounds start : ℕ) (iter : Iter)
    → find_extension_loop rounds start iter ≡ search holds_extensions rounds start iter
unfolding find_extension_loop search
find_extension_loop-search zero start iter = refl
find_extension_loop-search (suc rounds) start iter =
    ap (round holds_extensions start iter)
      (find_extension_loop-search rounds start (pb_field_iter_next iter).0)

-- From any field of the descriptor the search for a field of extensions ends; it stands at such a
-- field, or back at the start if the descriptor has none.
pub find_extension_field-IsFound :
    (fields : List Field) (dest start : ℕ)
    → start < count_fields fields
    → IsFound fields dest holds_extensions start (find_extension_field (walk fields dest start))
unfolding find_extension_field
find_extension_field-IsFound fields dest start inside =
    subst⁻¹ (IsFound fields dest holds_extensions start)
      (find_extension_loop-search (length (walk fields dest start).start + 1)
        (walk fields dest start).pos (walk fields dest start))
      (search-IsFound fields dest holds_extensions start inside)
