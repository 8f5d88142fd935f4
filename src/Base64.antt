-- ===== src/Base64.antt =====
-- TestProdSS/Pods/FirebaseDatabase/Firebase/Database/third_party/SocketRocket/fbase64.c: base 64,
-- as the web socket of FirebaseDatabase uses it. A char is its code, in the C locale.
pub mod Rfc
pub mod Alphabet
pub mod Encode
pub mod Steps
pub mod Decode
pub mod RoundTrip
pub mod Safety
mod Tests
use teta.Prelude.{
  ℕ, zero, suc, ◌+◌, ◌-◌, Bool, true, false, not, ◌||◌, ◌&&◌, Option, none, some, List, [], ◌∷◌,
  ◌++◌,
}
use mathlib.Core.Option
use teta.Prelude.{
  length, ltb, leb, ◌==◌, if◌then◌else◌, bit_and, bit_or, u8, u32, u64, ◌<<<◌, ◌>>>◌,
}

-- "ABCDEFGHIJKLMNOPQRSTUVWXYZabcdefghijklmnopqrstuvwxyz0123456789+/"
abbrev pub base64_chars : List ℕ
base64_chars =
    65 ∷ 66 ∷ 67 ∷ 68 ∷ 69 ∷ 70 ∷ 71 ∷ 72 ∷ 73 ∷ 74 ∷ 75 ∷ 76 ∷ 77 ∷ 78 ∷ 79 ∷ 80 ∷ 81 ∷ 82 ∷ 83
    ∷ 84 ∷ 85 ∷ 86 ∷ 87 ∷ 88 ∷ 89 ∷ 90 ∷ 97 ∷ 98 ∷ 99 ∷ 100 ∷ 101 ∷ 102 ∷ 103 ∷ 104 ∷ 105 ∷ 106
    ∷ 107 ∷ 108 ∷ 109 ∷ 110 ∷ 111 ∷ 112 ∷ 113 ∷ 114 ∷ 115 ∷ 116 ∷ 117 ∷ 118 ∷ 119 ∷ 120 ∷ 121 ∷ 122
    ∷ 48 ∷ 49 ∷ 50 ∷ 51 ∷ 52 ∷ 53 ∷ 54 ∷ 55 ∷ 56 ∷ 57 ∷ 43 ∷ 47 ∷ []

abbrev pub pad64 : ℕ
pad64 = 61

-- `p[i]`
abbrev pub at : List ℕ → ℕ → ℕ
at [] i = 0
at (x ∷ xs) zero = x
at (x ∷ xs) (suc i) = at xs i

-- `p[i] = v`, inside the block.
abbrev pub put : List ℕ → ℕ → ℕ → List ℕ
put [] i v = []
put (x ∷ xs) zero v = v ∷ xs
put (x ∷ xs) (suc i) v = x ∷ put xs i v

-- `strchr(p, ch)` as an offset from `p`, for a `ch` that is no '\0'.
abbrev pub strchr : List ℕ → ℕ → Option ℕ
strchr [] ch = none
strchr (x ∷ xs) ch = if x == ch then some 0 else Option.map (λ i. suc i) (strchr xs ch)

-- `Base64[i]`
pub base64_char : ℕ → ℕ
base64_char i = at base64_chars i

unfoldable pub isspace : ℕ → Bool
isspace ch = ch == 32 || (leb 9 ch && leb ch 13)

-- `output[0]` to `output[3]`
abbrev pub output0 : ℕ → ℕ
output0 a = u8 (a >>> 2)

abbrev pub output1 : ℕ → ℕ → ℕ
output1 a b = u8 ((bit_and a 0x03 <<< 4) + (b >>> 4))

abbrev pub output2 : ℕ → ℕ → ℕ
output2 b c = u8 ((bit_and b 0x0f <<< 2) + (c >>> 6))

abbrev pub output3 : ℕ → ℕ
output3 c = bit_and c 0x3f

-- What stands behind the padding. The answer is the return value, `none` for -1, and the bytes
-- stored at `target`.
unfoldable pub terminate : ℕ → List ℕ → Option ℕ × List ℕ
terminate targsize out =
    if leb targsize (length out) then (none, out) else (some (u32 (length out)), out ++ 0 ∷ [])

-- `src` from here on, with the bytes `out` that are stored at `target`.
unfoldable pub ntop_loop : List ℕ → ℕ → List ℕ → Option ℕ × List ℕ
ntop_loop [] targsize out = terminate targsize out
ntop_loop (a ∷ []) targsize out =
    if ltb targsize (u64 (length out + 4))
    then (none, out)
    else terminate targsize
        (out ++ base64_char (output0 a) ∷ base64_char (output1 a 0) ∷ pad64 ∷ pad64 ∷ [])
ntop_loop (a ∷ b ∷ []) targsize out =
    if ltb targsize (u64 (length out + 4))
    then (none, out)
    else terminate targsize (
        out
        ++ base64_char (output0 a)
          ∷ base64_char (output1 a b)
          ∷ base64_char (output2 b 0)
          ∷ pad64
          ∷ [])
ntop_loop (a ∷ b ∷ c ∷ rest) targsize out =
    let more = ntop_loop rest targsize (
      out
      ++ base64_char (output0 a)
        ∷ base64_char (output1 a b)
        ∷ base64_char (output2 b c)
        ∷ base64_char (output3 c)
        ∷ []) in
    if ltb targsize (u64 (length out + 4)) then (none, out) else more

pub f_b64_ntop : List ℕ → ℕ → Option ℕ × List ℕ
f_b64_ntop src targsize = ntop_loop src targsize []

-- The values 0 to 3 of `state`.
pub data State : Type 0 where
  state0 state1 state2 state3 : State

-- The variables of `f_b64_pton`; `target` is the block behind the pointer, or `none` for NULL.
pub record Pton : Type 0 where
  pub state : State
  pub tarindex : ℕ
  pub target : Option (List ℕ)

-- `if (target) { if (last >= targsize) return (-1); write }`
abbrev pub on_target : (List ℕ → List ℕ) → ℕ → ℕ → Option (List ℕ) → Bool × Option (List ℕ)
on_target write last targsize none = (true, none)
on_target write last targsize (some block) =
    if leb targsize last then (false, some block) else (true, some (write block))

-- `target[i] |= v`
abbrev pub or_into : ℕ → ℕ → List ℕ → List ℕ
or_into i v block = put block i (u8 (bit_or (at block i) v))

abbrev pub next_state : State → State
next_state state0 = state1
next_state state1 = state2
next_state state2 = state3
next_state state3 = state0

-- The cases of the switch: the writes for the digit `d`, with the last index they need.
abbrev pub write_digit : State → ℕ → ℕ → List ℕ → List ℕ
write_digit state0 i d block = put block i (u8 (d <<< 2))
write_digit state1 i d block =
    put (or_into i (d >>> 4) block) (u32 (i + 1)) (u8 (bit_and d 0x0f <<< 4))
write_digit state2 i d block =
    put (or_into i (d >>> 2) block) (u32 (i + 1)) (u8 (bit_and d 0x03 <<< 6))
write_digit state3 i d block = or_into i d block

abbrev pub last_index : State → ℕ → ℕ
last_index state0 i = i
last_index state1 i = u32 (i + 1)
last_index state2 i = u32 (i + 1)
last_index state3 i = i

abbrev pub next_tarindex : State → ℕ → ℕ
next_tarindex state0 i = i
next_tarindex state1 i = u32 (i + 1)
next_tarindex state2 i = u32 (i + 1)
next_tarindex state3 i = u32 (i + 1)

-- The switch; false where it returns -1.
unfoldable pub digit_step : ℕ → ℕ → Pton → Bool × Pton
digit_step targsize d s =
    let (go_on, target) =
      on_target (write_digit s.state s.tarindex d) (last_index s.state s.tarindex) targsize
        s.target in
    if go_on
    then (
      true,
      record {
        state = next_state s.state;
        tarindex = next_tarindex s.state s.tarindex;
        target = target;
      },
    )
    else (false, record s { target = target })

-- How the while loop ends: by '\0', by a pad with what follows it, or with -1.
pub data Ending : Type 0 where
  at_end : Pton → Ending
  at_pad : List ℕ → Pton → Ending
  refused : Pton → Ending

abbrev pub after_digit : Bool × Pton → (Pton → Ending) → Ending
after_digit (true, s) loop = loop s
after_digit (false, s) loop = refused s

abbrev pub after_strchr : Option ℕ → ℕ → Pton → (Pton → Ending) → Ending
after_strchr none targsize s loop = refused s
after_strchr (some d) targsize s loop = after_digit (digit_step targsize d s) loop

-- The while loop. The string ends at '\0' or with the list.
unfoldable pub pton_loop : List ℕ → ℕ → Pton → Ending
pton_loop [] targsize s = at_end s
pton_loop (ch ∷ src) targsize s =
    if ch == 0
    then at_end s
    else if isspace ch
    then pton_loop src targsize s
    else if ch == pad64
    then at_pad src s
    else after_strchr (strchr base64_chars ch) targsize s (pton_loop src targsize)

-- `for (; ch != '\0'; ch = *src++) if (!isspace(ch)) break;`, from the list's first char on.
unfoldable pub skip_spaces : List ℕ → List ℕ
skip_spaces [] = []
skip_spaces (ch ∷ src) =
    let rest = skip_spaces src in if not (ch == 0) && isspace ch then rest else ch ∷ src

-- `for (; ch != '\0'; ch = *src++) if (!isspace(ch)) return (-1);`
unfoldable pub only_spaces : List ℕ → Bool
only_spaces [] = true
only_spaces (ch ∷ src) =
    let rest = only_spaces src in if ch == 0 then true else if isspace ch then rest else false

-- `target && target[tarindex] != 0`
abbrev pub has_extra_bits : ℕ → Option (List ℕ) → Bool
has_extra_bits i none = false
has_extra_bits i (some block) = not (at block i == 0)

-- The answer is the return value, `none` for -1, and the block at `target`.
abbrev pub minus_one : Pton → Option ℕ × Option (List ℕ)
minus_one s = (none, s.target)

abbrev pub return_tarindex : Pton → Option ℕ × Option (List ℕ)
return_tarindex s = (some s.tarindex, s.target)

-- The case of one trailing pad; `src` is what follows it.
unfoldable pub after_last_pad : List ℕ → Pton → Option ℕ × Option (List ℕ)
after_last_pad src s =
    if not (only_spaces src)
    then minus_one s
    else if has_extra_bits s.tarindex s.target
    then minus_one s
    else return_tarindex s

-- The case of two trailing pads; the list begins at the char that shall be the second.
abbrev pub second_pad : List ℕ → Pton → Option ℕ × Option (List ℕ)
second_pad [] s = minus_one s
second_pad (ch ∷ src) s = if ch == pad64 then after_last_pad src s else minus_one s

abbrev pub pad_in_state : State → List ℕ → Pton → Option ℕ × Option (List ℕ)
pad_in_state state0 src s = minus_one s
pad_in_state state1 src s = minus_one s
pad_in_state state2 src s = second_pad (skip_spaces src) s
pad_in_state state3 src s = after_last_pad src s

abbrev pub end_in_state : State → Pton → Option ℕ × Option (List ℕ)
end_in_state state0 s = return_tarindex s
end_in_state state1 s = minus_one s
end_in_state state2 s = minus_one s
end_in_state state3 s = minus_one s

abbrev pub after_loop : Ending → Option ℕ × Option (List ℕ)
after_loop (at_end s) = end_in_state s.state s
after_loop (at_pad src s) = pad_in_state s.state src s
after_loop (refused s) = minus_one s

unfoldable pub f_b64_pton : List ℕ → Option (List ℕ) → ℕ → Option ℕ × Option (List ℕ)
f_b64_pton src target targsize =
    after_loop (pton_loop src targsize (record { state = state0; tarindex = 0; target = target }))
