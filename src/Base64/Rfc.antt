-- ===== src/Base64/Rfc.antt =====
-- Base 64 as RFC 1521 describes it: groups of three bytes as four digits of six bits.
use teta.Prelude.{
  ℕ, ◌+◌, ◌-◌, ◌*◌, ◌/◌, ◌%◌, ◌^◌, ◌≡◌, arith, List, [], ◌∷◌, length, ltb, if◌then◌else◌,
}

-- The char of a digit: the letters, the figures, and two signs.
unfoldable pub symbol : ℕ → ℕ
symbol d =
    if ltb d 26
    then 65 + d
    else if ltb d 52
    then 97 + (d - 26)
    else if ltb d 62
    then 48 + (d - 52)
    else if ltb d 63
    then 43
    else 47

-- The digits of a number of 24 bits, of which one or two may be cut off and replaced by "=".
unfoldable pub base64 : List ℕ → List ℕ
base64 [] = []
base64 (a ∷ []) =
    let n = a * 2 ^ 16 in symbol (n / 2 ^ 18) ∷ symbol (n / 2 ^ 12 % 64) ∷ 61 ∷ 61 ∷ []
base64 (a ∷ b ∷ []) =
    let n = a * 2 ^ 16 + b * 2 ^ 8 in
    symbol (n / 2 ^ 18) ∷ symbol (n / 2 ^ 12 % 64) ∷ symbol (n / 2 ^ 6 % 64) ∷ 61 ∷ []
base64 (a ∷ b ∷ c ∷ rest) =
    let n = a * 2 ^ 16 + b * 2 ^ 8 + c in
    symbol (n / 2 ^ 18)
    ∷ symbol (n / 2 ^ 12 % 64)
    ∷ symbol (n / 2 ^ 6 % 64)
    ∷ symbol (n % 64)
    ∷ base64 rest

-- Four chars for every three bytes that are begun.
pub length-base64 : (bs : List ℕ) → length (base64 bs) ≡ (length bs + 2) / 3 * 4
unfolding base64
length-base64 [] = omega arith
length-base64 (a ∷ []) = omega arith
length-base64 (a ∷ b ∷ []) = omega arith
length-base64 (a ∷ b ∷ c ∷ rest) = omega (arith, length-base64 rest)
