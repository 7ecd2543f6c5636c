-- ===== src/Server/Bytes.antt =====
-- The bytes of text, and decimal numbers, as the standard library has them.
use parler_protocol.Prelude.{
  ℕ, zero, suc, ◌+◌, ◌-◌, ◌*◌, ◌/◌, ◌%◌, ◌^◌, Text, ◌&&◌, Option, none, some, List, [], ◌∷◌, ◌++◌,
  length, leb, ltb, eqb, if◌then◌else◌,
}

-- UTF-8.
abbrev pub utf8_char : ℕ → List ℕ
utf8_char c =
    if ltb c 128
    then c ∷ []
    else if ltb c 2048
    then (192 + c / 64) ∷ (128 + c % 64) ∷ []
    else if ltb c 65536
    then (224 + c / 4096) ∷ (128 + c / 64 % 64) ∷ (128 + c % 64) ∷ []
    else (240 + c / 262144) ∷ (128 + c / 4096 % 64) ∷ (128 + c / 64 % 64) ∷ (128 + c % 64) ∷ []

unfoldable pub utf8 : Text → List ℕ
utf8 [] = []
utf8 (c ∷ cs) = utf8_char c ++ utf8 cs

-- `str::len`.
unfoldable pub byte_len : Text → ℕ
byte_len t = length (utf8 t)

-- `to_string` on an integer that is not negative; `fuel` bounds the digits.
unfoldable pub decimal_on : ℕ → ℕ → Text → Text
decimal_on zero n rest = rest
decimal_on (suc fuel) n rest =
    let more = decimal_on fuel (n / 10) ((48 + n % 10) ∷ rest) in
    if ltb n 10 then (48 + n) ∷ rest else more

unfoldable pub decimal : ℕ → Text
unfolding decimal_on
decimal n = decimal_on (suc n) n []

-- The value of digits, after those of value `acc`.
unfoldable pub digits_value : ℕ → Text → Option ℕ
digits_value acc [] = some acc
digits_value acc (c ∷ cs) =
    let rest = digits_value (acc * 10 + (c - 48)) cs in if leb 48 c && leb c 57 then rest else none

abbrev pub some_digits : Text → Option ℕ
some_digits [] = none
some_digits (c ∷ cs) = digits_value 0 (c ∷ cs)

abbrev pub below_or_none : ℕ → Option ℕ → Option ℕ
below_or_none bound none = none
below_or_none bound (some n) = if ltb n bound then some n else none

-- `parse::<i64>`, as far as a time that is compared with the clock needs it: a negative number is
-- before every time, so it counts as none.
unfoldable pub parse_time : Text → Option ℕ
parse_time [] = none
parse_time (c ∷ cs) =
    if eqb c 43
    then below_or_none (2 ^ 63) (some_digits cs)
    else if eqb c 45
    then below_or_none 1 (some_digits cs)
    else below_or_none (2 ^ 63) (some_digits (c ∷ cs))

-- `split(c)`, which gives at least one piece.
abbrev pub extend : ℕ → List Text → List Text
extend c [] = (c ∷ []) ∷ []
extend c (x ∷ xs) = (c ∷ x) ∷ xs

unfoldable pub split_on : ℕ → Text → List Text
split_on sep [] = [] ∷ []
split_on sep (c ∷ s) = let rest = split_on sep s in if eqb c sep then [] ∷ rest else extend c rest

-- `^` and `|` on `u8`, bit by bit.
unfoldable pub xor_bits : ℕ → ℕ → ℕ → ℕ
xor_bits zero a b = 0
xor_bits (suc n) a b = (a % 2 + b % 2) % 2 + 2 * xor_bits n (a / 2) (b / 2)

unfoldable pub or_bits : ℕ → ℕ → ℕ → ℕ
or_bits zero a b = 0
or_bits (suc n) a b = (a % 2 + b % 2 + 1) / 2 + 2 * or_bits n (a / 2) (b / 2)
