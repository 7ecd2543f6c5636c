-- ===== src/Server/Hello/Challenges.antt =====
-- crates/parler-hub/src/server.rs: what `challenge_valid` makes of `issue_challenge`.
use parler_protocol.Prelude.{
  ℕ, zero, suc, ◌+◌, ◌/◌, ◌%◌, ◌^◌, ◌<◌, Text, codes, ◌==◌, eq_refl, ◌≡◌, refl, sym, ap, subst,
  append_assoc, ◌∙◌, Bool, true, false, ◌&&◌, Bool-cases, inl, inr, some, [], ◌∷◌, ◌++◌, arith, leb,
  ltb, eqb, any, All,
}
use parler_protocol.Server.Bytes.{decimal, decimal_on, digits_value, parse_time, split_on}
use parler_protocol.Server.State.{Library}
use parler_protocol.Server.Hello.{hub_token, challenge_ttl_ms, issue_challenge, challenge_valid}

abbrev is_digit : ℕ → Bool
is_digit c = leb 48 c && leb c 57

abbrev AreDigits : Text → Type 0
AreDigits = All (λ c. is_digit c ≡ true)

abbrev pub has_colon : Text → Bool
has_colon = any (λ c. eqb c 58)

-- The digits that are written, with their value before the rest.
digits_value-decimal_on :
    (fuel n : ℕ) (rest : Text)
    → n < fuel
    → digits_value 0 (decimal_on fuel n rest) ≡ digits_value n rest
unfolding digits_value decimal_on
digits_value-decimal_on zero n rest lt = absurd (omega (arith, lt))
digits_value-decimal_on (suc fuel) n rest lt = elim (Bool-cases (ltb n 10)) [
  | inl small ↦ rw small (ground arith)
  | inr large ↦
      let again = digits_value-decimal_on fuel (n / 10) ((48 + n % 10) ∷ rest) (ground arith) in
      rw (large, again) (ground arith)
]

AreDigits-decimal_on :
    (fuel n : ℕ) (rest : Text) → n < fuel → AreDigits rest → AreDigits (decimal_on fuel n rest)
unfolding decimal_on
AreDigits-decimal_on zero n rest lt h = h
AreDigits-decimal_on (suc fuel) n rest lt h = elim (Bool-cases (ltb n 10)) [
  | inl small ↦ rw small (ground arith, h)
  | inr large ↦
      rw large
        (AreDigits-decimal_on fuel (n / 10) ((48 + n % 10) ∷ rest) (ground arith) (ground arith, h))
]

-- Something is written.
decimal_on-cons :
    (fuel n : ℕ) (rest : Text)
    → n < fuel
    → (c : ℕ) × (cs : Text) × (decimal_on fuel n rest ≡ c ∷ cs)
unfolding decimal_on
decimal_on-cons zero n rest lt = absurd (omega (arith, lt))
decimal_on-cons (suc fuel) n rest lt = elim (Bool-cases (ltb n 10)) [
  | inl small ↦ rw small (48 + n, rest, refl)
  | inr large ↦ rw large (decimal_on-cons fuel (n / 10) ((48 + n % 10) ∷ rest) (ground arith))
]

AreDigits-has_colon : (t : Text) → AreDigits t → has_colon t ≡ false
unfolding any
AreDigits-has_colon [] h = refl
AreDigits-has_colon (c ∷ cs) h = ground (arith, h.0, AreDigits-has_colon cs h.1)

parse_digits :
    (c : ℕ) (cs : Text) (n : ℕ)
    → is_digit c ≡ true
    → digits_value 0 (c ∷ cs) ≡ some n
    → n < 2 ^ 63
    → parse_time (c ∷ cs) ≡ some n
unfolding parse_time
parse_digits c cs n h e lt =
    let plus : eqb c 43 ≡ false = ground (arith, h) in
    let minus : eqb c 45 ≡ false = ground (arith, h) in rw (plus, minus, e) (ground (arith, lt))

-- A time that fits in 63 bits is read back as it was written.
parse_time-decimal : (n : ℕ) → n < 2 ^ 63 → parse_time (decimal n) ≡ some n
unfolding decimal
parse_time-decimal n lt =
    let (c, cs, e) = decimal_on-cons (suc n) n [] (omega arith) in
    let value : digits_value 0 (decimal_on (suc n) n []) ≡ some n =
      digits_value-decimal_on (suc n) n [] (omega arith) ∙ unfold digits_value in refl in
    let digits = AreDigits-decimal_on (suc n) n [] (omega arith) tt in
    rw e (parse_digits c cs n (subst AreDigits e digits).0 (ap (digits_value 0) (sym e) ∙ value) lt)

decimal-has_colon : (n : ℕ) → has_colon (decimal n) ≡ false
unfolding decimal
decimal-has_colon n =
    AreDigits-has_colon (decimal_on (suc n) n [])
      (AreDigits-decimal_on (suc n) n [] (omega arith) tt)

split_on-append : (a b : Text) → has_colon a ≡ false → split_on 58 (a ++ 58 ∷ b) ≡ a ∷ split_on 58 b
unfolding split_on any
split_on-append [] b h = refl
split_on-append (c ∷ a) b h =
    let plain : eqb c 58 ≡ false = ground (arith, h) in
    rw (plain, split_on-append a b (ground (arith, h))) refl

-- A challenge is accepted exactly by a hub with the token of the one that issued it, and until it
-- expires, `challenge_ttl_ms` after it was issued, whatever its random part is. The token of the
-- issuing hub has no colon, as hexadecimal digits have none, and the expiry fits in 63 bits.
pub challenge_valid-issue_challenge :
    (l : Library) (url url' draw : Text) (now later : ℕ)
    → has_colon (hub_token l url) ≡ false
    → now + challenge_ttl_ms < 2 ^ 63
    → challenge_valid l (issue_challenge l url now draw) url' later
      ≡ (hub_token l url == hub_token l url') && leb later (now + challenge_ttl_ms)
unfolding challenge_valid issue_challenge
challenge_valid-issue_challenge l url url' draw now later plain lt =
    let exp = decimal (now + challenge_ttl_ms) in
    let token = hub_token l url in
    let pieces : split_on 58 (issue_challenge l url now draw)
        ≡ codes "parler-auth" ∷ codes "v1" ∷ token ∷ exp ∷ split_on 58 draw =
      split_on-append (codes "parler-auth") (codes "v1:" ++ token ++ 58 ∷ exp ++ 58 ∷ draw)
        (unfold any in refl)
      ∙ ap (λ ps. codes "parler-auth" ∷ ps)
          (split_on-append (codes "v1") (token ++ 58 ∷ exp ++ 58 ∷ draw) (unfold any in refl)
            ∙ ap (λ ps. codes "v1" ∷ ps)
                (ap (split_on 58) (append_assoc token (58 ∷ exp) (58 ∷ draw))
                  ∙ split_on-append token (exp ++ 58 ∷ draw) plain
                  ∙ ap (λ ps. token ∷ ps)
                      (split_on-append exp draw (decimal-has_colon (now + challenge_ttl_ms))))) in
    rw
      (
        pieces,
        eq_refl (codes "parler-auth"),
        eq_refl (codes "v1"),
        parse_time-decimal (now + challenge_ttl_ms) lt,
      )
      refl
