-- ===== src/Base64/Decode.antt =====
-- `f_b64_pton` reads base 64 back.
use teta.Prelude.{
  ℕ, ◌+◌, ◌*◌, ◌/◌, ◌%◌, ◌^◌, ◌≤◌, ◌<◌, ◌≡◌, refl, sym, ap, ◌∙◌, arith, Option, none, some, List,
  [], ◌∷◌, ◌++◌, append_assoc, length, length-append, drop, bit_and, bit_or, and_ones, or_shifted,
  or_comm, u8, ◌<<<◌, ◌>>>◌,
}
use mathlib.Core.Option
use teta.Base64.{
  State, state0, state1, state2, state3, Pton, next_state, write_digit, last_index, next_tarindex,
  after_digit, pton_loop,
}
use teta.Base64.Rfc.{symbol}
use teta.Base64.Steps.{seated, digit_step-seated, pton_loop-digit}

-- Two parts of a byte.
joined :
    (hi lo k : ℕ)
    → hi * 2 ^ k + lo < 256
    → lo < 2 ^ k
    → u8 (bit_or (u8 (hi <<< k)) lo) ≡ hi * 2 ^ k + lo
joined hi lo k small low =
    ap (λ (n : ℕ). u8 (bit_or n lo)) {y = hi * 2 ^ k} (omega arith)
    ∙ omega (arith, or_comm (hi * 2 ^ k) lo, or_shifted k lo hi low)

-- The block has room for `n` bytes more, if there is a block.
abbrev pub Holds : ℕ → Option (List ℕ) → Type 0
Holds n none = Unit {0}
Holds n (some xs) = n ≤ length xs

-- The block behind `w` after two digits, and after three.
abbrev pub two_written : Option (List ℕ) → ℕ → ℕ → Option (List ℕ)
two_written o e0 e1 = Option.map (write_digit state1 0 e1) (Option.map (write_digit state0 0 e0) o)

abbrev pub three_written : Option (List ℕ) → ℕ → ℕ → ℕ → Option (List ℕ)
three_written o e0 e1 e2 = Option.map (write_digit state2 1 e2) (two_written o e0 e1)

module _ (a b c e0 e1 e2 e3 : ℕ) (small0 : e0 < 64) (small1 : e1 < 64) (small2 : e2 < 64)
    (small3 : e3 < 64) where
  byte0 : a ≡ e0 * 4 + e1 / 16 → u8 (bit_or (u8 (e0 <<< 2)) (e1 >>> 4)) ≡ a
  byte0 h = joined e0 (e1 / 16) 2 (omega arith) (omega arith) ∙ sym h

  byte1 : b ≡ e1 % 16 * 16 + e2 / 4 → u8 (bit_or (u8 (bit_and e1 0x0f <<< 4)) (e2 >>> 2)) ≡ b
  byte1 h =
      ap (λ (n : ℕ). u8 (bit_or (u8 (n <<< 4)) (e2 >>> 2))) (and_ones 4 e1)
      ∙ joined (e1 % 16) (e2 / 4) 4 (omega arith) (omega arith)
      ∙ sym h

  byte2 : c ≡ e2 % 4 * 64 + e3 → u8 (bit_or (u8 (bit_and e2 0x03 <<< 6)) e3) ≡ c
  byte2 h =
      ap (λ (n : ℕ). u8 (bit_or (u8 (n <<< 6)) e3)) (and_ones 2 e2)
      ∙ joined (e2 % 4) e3 6 (omega arith) (omega arith)
      ∙ sym h

  module _ (w : List ℕ) (split0 : a ≡ e0 * 4 + e1 / 16) (split1 : b ≡ e1 % 16 * 16 + e2 / 4)
      (split2 : c ≡ e2 % 4 * 64 + e3) where
    moved :
        (st : State) (k : ℕ) (bs : List ℕ) (t : Option (List ℕ))
        → length bs ≡ k
        → ◌≡◌ {A = Pton}
            (record { state = st; tarindex = length w + k; target = t })
            (record { state = st; tarindex = length (w ++ bs) + 0; target = t })
    moved st k bs t h =
        ap (λ (i : ℕ). record { state = st; tarindex = i; target = t })
          (omega (arith, length-append w bs))

    pub three_bytes :
        (o : Option (List ℕ))
        → Holds 3 o
        → seated state0 w 3 (Option.map (write_digit state3 2 e3) (three_written o e0 e1 e2))
          ≡ seated state0 (w ++ a ∷ b ∷ c ∷ []) 0 (Option.map (drop 3) o)
    three_bytes none h = moved state0 3 (a ∷ b ∷ c ∷ []) none refl
    three_bytes (some (x ∷ y ∷ z ∷ r)) h =
        rw (byte0 split0, byte1 split1, byte2 split2, sym (append_assoc w (a ∷ b ∷ c ∷ []) r))
          (moved state0 3 (a ∷ b ∷ c ∷ []) (some ((w ++ a ∷ b ∷ c ∷ []) ++ r)) refl)
    three_bytes (some []) h = absurd (omega arith)
    three_bytes (some (x ∷ [])) h = absurd (omega arith)
    three_bytes (some (x ∷ y ∷ [])) h = absurd (omega arith)

    pub two_bytes :
        c ≡ 0
        → (o : Option (List ℕ)) → Holds 3 o
        → three_written o e0 e1 e2 ≡ Option.map (λ r. a ∷ b ∷ 0 ∷ r) (Option.map (drop 3) o)
    two_bytes none_left none h = refl
    two_bytes none_left (some (x ∷ y ∷ z ∷ r)) h = rw (byte0 split0, byte1 split1, extra) refl
      where
        extra : u8 (bit_and e2 0x03 <<< 6) ≡ 0
        extra = omega (arith, and_ones 2 e2)
    two_bytes none_left (some []) h = absurd (omega arith)
    two_bytes none_left (some (x ∷ [])) h = absurd (omega arith)
    two_bytes none_left (some (x ∷ y ∷ [])) h = absurd (omega arith)

    pub one_byte :
        b ≡ 0
        → (o : Option (List ℕ)) → Holds 2 o
        → two_written o e0 e1 ≡ Option.map (λ r. a ∷ 0 ∷ r) (Option.map (drop 2) o)
    one_byte none_left none h = refl
    one_byte none_left (some (x ∷ y ∷ r)) h = rw (byte0 split0, extra) refl
      where
        extra : u8 (bit_and e1 0x0f <<< 4) ≡ 0
        extra = omega (arith, and_ones 4 e1)
    one_byte none_left (some []) h = absurd (omega arith)
    one_byte none_left (some (x ∷ [])) h = absurd (omega arith)

module _ (targsize : ℕ) where
  scan :
      (d : ℕ) (src : List ℕ) (st : State) (w : List ℕ) (k : ℕ) (o : Option (List ℕ))
      → d < 64
      → length w + k + 1 < 2 ^ 32
      → last_index st (length w + k) < targsize
      → pton_loop (symbol d ∷ src) targsize (seated st w k o)
        ≡ pton_loop src targsize
            (seated (next_state st) w (next_tarindex st k) (Option.map (write_digit st k d) o))
  scan d src st w k o h small fits =
      pton_loop-digit targsize d src (seated st w k o) h
      ∙ ap (λ r. after_digit r (pton_loop src targsize))
          (digit_step-seated targsize st w k d o small fits)

  module _ (w : List ℕ) (o : Option (List ℕ)) (e0 e1 : ℕ) (h0 : e0 < 64) (h1 : e1 < 64)
      (small : length w + 4 < 2 ^ 32) (fits : length w + 1 < targsize) where
    pub scan2 :
        (src : List ℕ)
        → pton_loop (symbol e0 ∷ symbol e1 ∷ src) targsize (seated state0 w 0 o)
          ≡ pton_loop src targsize (seated state2 w 1 (two_written o e0 e1))
    scan2 src =
        scan e0 (symbol e1 ∷ src) state0 w 0 o h0 (omega arith) (omega arith)
        ∙ scan e1 src state1 w 0 (Option.map (write_digit state0 0 e0) o) h1 (omega arith)
            (omega arith)

    module _ (e2 : ℕ) (h2 : e2 < 64) (more : length w + 2 < targsize) where
      pub scan3 :
          (src : List ℕ)
          → pton_loop (symbol e0 ∷ symbol e1 ∷ symbol e2 ∷ src) targsize (seated state0 w 0 o)
            ≡ pton_loop src targsize (seated state3 w 2 (three_written o e0 e1 e2))
      scan3 src =
          scan2 (symbol e2 ∷ src)
          ∙ scan e2 src state2 w 1 (two_written o e0 e1) h2 (omega arith) (omega arith)

      pub scan4 :
          (e3 : ℕ)
          → e3 < 64
          → (src : List ℕ)
          → pton_loop
              (symbol e0 ∷ symbol e1 ∷ symbol e2 ∷ symbol e3 ∷ src)
              targsize
              (seated state0 w 0 o)
            ≡ pton_loop src targsize (
                seated state0 w 3 (Option.map (write_digit state3 2 e3) (three_written o e0 e1 e2)))
      scan4 e3 h3 src =
          scan3 (symbol e3 ∷ src)
          ∙ scan e3 src state3 w 2 (three_written o e0 e1 e2) h3 (omega arith) (omega arith)
