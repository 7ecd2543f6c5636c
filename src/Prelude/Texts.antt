-- ===== src/Prelude/Texts.antt =====
-- Text as its Unicode scalar values, with the comparisons and case folding that the program uses.
use Prim.Native.Nat.{ℕ, ◌+◌}
use Prim.Native.Char.{code}
use Prim.Native.String.{String}
use mathlib.Core.Path.{◌≡◌, refl}
use mathlib.Core.Logic.{◌↔◌, ◌⊎◌, inl, inr}
use mathlib.Core.Bool.{Bool, true, false, ◌&&◌, ◌||◌}
use mathlib.Core.List.{List, [], ◌∷◌, map, reverse}
use native.Mathlib.Omega.{arith}
use parler_protocol.Prelude.Tests.{ltb, leb, eqb, if◌then◌else◌, Bool-cases}

abbrev pub Text : Type 0
Text = List ℕ

abbrev pub codes : String → Text
codes String.[] = []
codes (String.◌∷◌ c s) = code c ∷ codes s

infix 50 ◌==◌
unfoldable pub ◌==◌ : Text → Text → Bool
◌==◌ [] [] = true
◌==◌ [] (y ∷ ys) = false
◌==◌ (x ∷ xs) [] = false
◌==◌ (x ∷ xs) (y ∷ ys) = eqb x y && (xs == ys)

eq_sound : (a b : Text) → (a == b) ≡ true → a ≡ b
unfolding ◌==◌
eq_sound [] [] h = refl
eq_sound [] (y ∷ ys) h = ground arith
eq_sound (x ∷ xs) [] h = ground arith
eq_sound (x ∷ xs) (y ∷ ys) h = ground (arith, eq_sound xs ys)

pub eq_refl : (a : Text) → (a == a) ≡ true
unfolding ◌==◌
eq_refl [] = refl
eq_refl (x ∷ xs) = ground (arith, eq_refl xs)

pub eq_iff : (a b : Text) → ((a == b) ≡ true) ↔ (a ≡ b)
eq_iff a b = (eq_sound a b, λ e. subst_eq e)
  where
    subst_eq : a ≡ b → (a == b) ≡ true
    subst_eq e = ground (arith, eq_refl a)

pub Text-cases : (a b : Text) → (a ≡ b) ⊎ ((a == b) ≡ false)
Text-cases a b = elim (Bool-cases (a == b)) [ inl h ↦ inl (eq_sound a b h) | inr h ↦ inr h ]

-- `u8::to_ascii_lowercase`, and SQLite's `lower` on text.
pub lower_code : ℕ → ℕ
lower_code c = if leb b'A' c && leb c b'Z' then c + 32 else c

unfoldable pub to_ascii_lowercase : Text → Text
unfolding lower_code
to_ascii_lowercase = map lower_code

-- `str::eq_ignore_ascii_case`.
unfoldable pub eq_ignore_ascii_case : Text → Text → Bool
eq_ignore_ascii_case a b = to_ascii_lowercase a == to_ascii_lowercase b

-- `char::is_whitespace`: the code points with the property White_Space.
pub is_whitespace : ℕ → Bool
is_whitespace c =
    (leb 0x9 c && leb c 0xd)
    || (eqb c 0x20
        || (eqb c 0x85
            || (eqb c 0xa0
                || (eqb c 0x1680
                    || ((leb 0x2000 c && leb c 0x200a)
                        || (eqb c 0x2028
                            || (eqb c 0x2029
                                || (eqb c 0x202f || (eqb c 0x205f || eqb c 0x3000)))))))))

pub trim_start : Text → Text
unfolding is_whitespace
trim_start [] = []
trim_start (c ∷ s) = let rest = trim_start s in if is_whitespace c then rest else c ∷ s

-- `str::trim`.
unfoldable pub trim : Text → Text
unfolding trim_start
trim s = reverse (trim_start (reverse (trim_start s)))

pub Text-eq_symm : (a b : Text) → (a == b) ≡ (b == a)
Text-eq_symm a b = ground (arith, eq_iff a b, eq_iff b a)

-- A row under one composite key is not under another.
pub keys_apart :
    (r a room agent x y : Text)
    → ((r == room) && (a == agent)) ≡ false
    → ((x == room) && (y == agent)) ≡ true
    → ((x == r) && (y == a)) ≡ false
keys_apart r a room agent x y h e =
    ground
      (arith, eq_iff x room, eq_iff y agent, eq_iff x r, eq_iff y a, eq_iff r room, eq_iff a agent)

-- The order of text: by code points, which for UTF-8 is that of the bytes.
unfoldable pub text_leb : Text → Text → Bool
text_leb [] ys = true
text_leb (x ∷ xs) [] = false
text_leb (x ∷ xs) (y ∷ ys) = let rest = text_leb xs ys in if ltb x y then true else eqb x y && rest
