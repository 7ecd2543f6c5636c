-- ===== src/Server/Hello/Secrets.antt =====
-- crates/parler-hub/src/server.rs, `secret_matches`: the comparison in constant time compares.
use parler_protocol.Prelude.{
  ℕ, zero, suc, ◌*◌, ◌/◌, ◌<◌, Text, ◌==◌, eq_iff, Text-cases, ◌≡◌, refl, ap, some, List, [], ◌∷◌,
  length, All, All-append, eqb, arith, Bool-cases, inl, inr,
}
use parler_protocol.Server.Bytes.{utf8_char, utf8, xor_bits, or_bits}
use parler_protocol.Server.Hello.{difference, secret_matches}

abbrev bits : ℕ → ℕ
bits zero = 1
bits (suc n) = 2 * bits n

xor_bits_lt : (n a b : ℕ) → xor_bits n a b < bits n
unfolding xor_bits
xor_bits_lt zero a b = omega arith
xor_bits_lt (suc n) a b = let rest = xor_bits_lt n (a / 2) (b / 2) in omega (arith, rest)

or_bits_lt : (n a b : ℕ) → or_bits n a b < bits n
unfolding or_bits
or_bits_lt zero a b = omega arith
or_bits_lt (suc n) a b = let rest = or_bits_lt n (a / 2) (b / 2) in omega (arith, rest)

xor_bits_self : (n a : ℕ) → xor_bits n a a ≡ 0
unfolding xor_bits
xor_bits_self zero a = refl
xor_bits_self (suc n) a = let rest = xor_bits_self n (a / 2) in omega (arith, rest)

xor_bits_sound : (n a b : ℕ) → a < bits n → b < bits n → xor_bits n a b ≡ 0 → a ≡ b
unfolding xor_bits
xor_bits_sound zero a b la lb h = omega arith
xor_bits_sound (suc n) a b la lb h =
    let rest =
      xor_bits_sound n (a / 2) (b / 2) (omega (arith, la)) (omega (arith, lb)) (omega (arith, h)) in
    omega (arith, rest, h)

or_bits_sound : (n a b : ℕ) → a < bits n → b < bits n → or_bits n a b ≡ 0 → (a ≡ 0) × (b ≡ 0)
unfolding or_bits
or_bits_sound zero a b la lb h = omega arith
or_bits_sound (suc n) a b la lb h =
    let rest =
      or_bits_sound n (a / 2) (b / 2) (omega (arith, la)) (omega (arith, lb)) (omega (arith, h)) in
    omega (arith, rest, h)

abbrev pub AreBytes : List ℕ → Type 0
AreBytes = All (λ (b : ℕ). b < 256)

-- What is left of a difference that was there stays there.
difference_sound :
    (diff : ℕ) (xs ys : List ℕ)
    → diff < 256
    → AreBytes xs
    → AreBytes ys
    → length xs ≡ length ys
    → difference diff xs ys ≡ 0
    → (diff ≡ 0) × (xs ≡ ys)
unfolding difference
difference_sound diff [] [] ld bx by same h = (h, refl)
difference_sound diff [] (y ∷ ys) ld bx by same h = ground arith
difference_sound diff (x ∷ xs) [] ld bx by same h = ground arith
difference_sound diff (x ∷ xs) (y ∷ ys) ld bx by same h =
    let rest =
      difference_sound (or_bits 8 diff (xor_bits 8 x y)) xs ys (or_bits_lt 8 diff (xor_bits 8 x y))
        bx.1 by.1 (omega (arith, same)) h in
    let both = or_bits_sound 8 diff (xor_bits 8 x y) ld (xor_bits_lt 8 x y) rest.0 in
    (both.0, rw (xor_bits_sound 8 x y bx.0 by.0 both.1, rest.1) refl)

difference_self : (xs : List ℕ) → difference 0 xs xs ≡ 0
unfolding difference or_bits
difference_self [] = refl
difference_self (x ∷ xs) = rw (xor_bits_self 8 x) (difference_self xs)

-- Unicode scalar values are below this.
abbrev pub AreScalars : Text → Type 0
AreScalars = All (λ (c : ℕ). c < 1114112)

utf8-AreBytes : (t : Text) → AreScalars t → AreBytes (utf8 t)
unfolding utf8
utf8-AreBytes [] h = tt
utf8-AreBytes (c ∷ cs) h =
    All-append (λ (b : ℕ). b < 256) (utf8_char c) (utf8 cs) (of_char (h.0)) (utf8-AreBytes cs h.1)
  where
    of_char : c < 1114112 → AreBytes (utf8_char c)
    of_char lc = ground arith

-- A presented secret matches exactly when its bytes are those of the expected one.
pub secret_matches-eq :
    (expected got : Text)
    → AreScalars expected
    → AreScalars got
    → secret_matches expected (some got) ≡ (utf8 expected == utf8 got)
unfolding secret_matches
secret_matches-eq expected got se sg = elim (Text-cases (utf8 expected) (utf8 got)) [
  | inl same ↦
      let nothing : difference 0 (utf8 expected) (utf8 got) ≡ 0 =
        rw (same) (difference_self (utf8 got)) in
      ground (arith, ap length same, nothing, (eq_iff (utf8 expected) (utf8 got)).1 same)
  | inr other ↦ elim (Bool-cases (eqb (length (utf8 expected)) (length (utf8 got)))) [
    | inr apart ↦ rw (apart, other) refl
    | inl long ↦ elim (Bool-cases (eqb (difference 0 (utf8 expected) (utf8 got)) 0)) [
      | inr apart ↦ rw (long, apart, other) refl
      | inl zero_diff ↦
          let e =
            difference_sound 0 (utf8 expected) (utf8 got) (omega arith) (utf8-AreBytes expected se)
              (utf8-AreBytes got sg) (ground arith) (ground arith) in
          ground (arith, other, (eq_iff (utf8 expected) (utf8 got)).1 e.1)
    ]
  ]
]
