-- ===== src/Base64/Tests.antt =====
-- The text "hello" and what stands for it.
use teta.Prelude.{ℕ, ◌≤◌, ◌≡◌, refl, arith, none, some, List, [], ◌∷◌, ◌++◌, All, length, IsByte}
use teta.Base64.{f_b64_ntop, f_b64_pton, pton_loop, digit_step, isspace}
use teta.Base64.Rfc.{base64, symbol}
use teta.Base64.Encode.{f_b64_ntop-base64, f_b64_ntop-refuses}
use teta.Base64.RoundTrip.{f_b64_round_trip}
use teta.Base64.Safety.{f_b64_pton-spares, outside}

abbrev hello : List ℕ
hello = 104 ∷ 101 ∷ 108 ∷ 108 ∷ 111 ∷ []

abbrev digits : List ℕ
digits = 97 ∷ 71 ∷ 86 ∷ 115 ∷ 98 ∷ 71 ∷ 56 ∷ 61 ∷ []

abbrev block : List ℕ
block = 1 ∷ 2 ∷ 3 ∷ 4 ∷ 5 ∷ 6 ∷ 7 ∷ []

hello-IsByte : All IsByte hello
hello-IsByte = (omega arith, (omega arith, (omega arith, (omega arith, (omega arith, tt)))))

f_b64_ntop-base64_example : f_b64_ntop hello 9 ≡ (some 8, digits ++ 0 ∷ [])
unfolding base64 symbol
f_b64_ntop-base64_example = f_b64_ntop-base64 9 (omega arith) hello hello-IsByte (omega arith)

f_b64_ntop-refuses_example : ((f_b64_ntop hello 8).0 ≡ none) × (length (f_b64_ntop hello 8).1 ≤ 8)
unfolding base64
f_b64_ntop-refuses_example = f_b64_ntop-refuses 8 (omega arith) hello (omega arith)

f_b64_round_trip_example :
    (f_b64_pton (f_b64_ntop hello 9).1 none 6 ≡ (some 5, none))
    × ((rest : List ℕ) × (f_b64_pton (f_b64_ntop hello 9).1 (some block) 6
          ≡ (some 5, some (hello ++ rest))))
unfolding base64
f_b64_round_trip_example =
    f_b64_round_trip hello block 9 6 hello-IsByte (omega arith) (omega arith) (omega arith)
      (omega arith) (omega arith)

f_b64_pton-spares_example : outside 6 (f_b64_pton digits (some block) 6).1 ≡ some (7 ∷ [])
f_b64_pton-spares_example = f_b64_pton-spares digits block 6 (omega arith)

-- A target as long as the text is refused, if the text ends within a group.
exact_target : f_b64_pton (84 ∷ 81 ∷ 61 ∷ 61 ∷ []) (some (0 ∷ [])) 1 ≡ (none, some (76 ∷ []))
unfolding f_b64_pton pton_loop digit_step isspace
exact_target = refl
