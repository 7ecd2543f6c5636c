-- ===== src/Protocol/Subjects/Matching.antt =====
-- Matching of subjects, and which filters a consumer is left with.
use parler_protocol.Prelude.{
  Text, ◌==◌, eq_iff, eq_refl, ◌≡◌, refl, ap, ◌∙◌, Bool, true, not, ◌&&◌, ◌||◌, Bool-cases, inl,
  inr, List, [], ◌∷◌, arith, select, any,
}
use parler_protocol.Protocol.Subjects.{
  segments_match, subject_matches, unique, is_covered, collapse_filter_subjects,
}

segments_match_refl : (ss : List Text) → segments_match ss ss ≡ true
unfolding segments_match
segments_match_refl [] = refl
segments_match_refl (s ∷ ss) = ground (arith, segments_match_refl ss, eq_refl s)

-- A listed subject that passes a test.
any_at :
    (p : Text → Bool) (x : Text) (xs : List Text)
    → any (λ y. y == x) xs ≡ true
    → p x ≡ true
    → any p xs ≡ true
unfolding any
any_at p x [] h q = ground (arith, h)
any_at p x (y ∷ ys) h q = elim (Bool-cases (y == x)) [
  | inl e ↦ let same : p y ≡ true = ap p ((eq_iff y x).0 e) ∙ q in ground (arith, same)
  | inr e ↦ ground (arith, e, h, any_at p x ys (ground (arith, e, h)) q)
]

-- Removing doubles keeps which subjects are listed.
any-unique_seen :
    (p : Text → Bool) (seen xs : List Text)
    → any p (unique seen xs) || any p seen ≡ any p xs || any p seen
unfolding any unique
any-unique_seen p seen [] = refl
any-unique_seen p seen (x ∷ xs) = elim (Bool-cases (any (λ y. y == x) seen)) [
  | inl h ↦ rw (h) (elim (Bool-cases (p x)) [
    | inl q ↦ ground (arith, q, any-unique_seen p seen xs, any_at p x seen h q)
    | inr q ↦ ground (arith, q, any-unique_seen p seen xs)
  ])
  | inr h ↦ rw (h) (ground (arith, any-unique_seen p (x ∷ seen) xs))
]

any-unique : (p : Text → Bool) (xs : List Text) → any p (unique [] xs) ≡ any p xs
unfolding any
any-unique p xs = ground (arith, any-unique_seen p [] xs)

any-select-not :
    (x : Text) (drop : Text → Bool) (xs : List Text)
    → any (λ y. y == x) (select (λ y. not (drop y)) xs) ≡ any (λ y. y == x) xs && not (drop x)
unfolding any select
any-select-not x drop [] = refl
any-select-not x drop (y ∷ ys) = elim (Bool-cases (y == x)) [
  | inl e ↦
      let same : drop y ≡ drop x = ap drop ((eq_iff y x).0 e) in
      ground (arith, e, same, any-select-not x drop ys)
  | inr e ↦ ground (arith, e, any-select-not x drop ys)
]

-- A subject is kept exactly when it was given and no different subject that was given matches it: so of
-- two that match each other neither is kept.
pub any-collapse_filter_subjects :
    (subjects : List Text) (x : Text)
    → any (λ y. y == x) (collapse_filter_subjects subjects)
      ≡ any (λ y. y == x) subjects && not (any (λ y. not (y == x) && subject_matches y x) subjects)
unfolding collapse_filter_subjects
any-collapse_filter_subjects subjects x =
    any-select-not x (is_covered (unique [] subjects)) (unique [] subjects)
    ∙ ap (λ b. b && not (is_covered (unique [] subjects) x)) (any-unique (λ y. y == x) subjects)
    ∙ ap (λ b. any (λ y. y == x) subjects && not b)
        (any-unique (λ y. not (y == x) && subject_matches y x) subjects)
