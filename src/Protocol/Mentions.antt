-- ===== src/Protocol/Mentions.antt =====
-- crates/parler-protocol/src/subjects.rs, `normalize_mentions`.
use parler_protocol.Prelude.{
  Text, ◌==◌, trim, Bool, true, false, ◌||◌, Option, none, some, List, [], ◌∷◌, any, if◌then◌else◌,
}

abbrev pub is_blank : Text → Bool
is_blank [] = true
is_blank (c ∷ cs) = false

-- The loop; `seen` holds what is in the list before. `lower` is `str::to_lowercase`.
unfoldable pub canonical : (Text → Text) → List Text → List Text → List Text
canonical lower seen [] = []
canonical lower seen (m ∷ ms) =
    let x = lower (trim m) in
    let skipped = canonical lower seen ms in
    let more = canonical lower (x ∷ seen) ms in
    if is_blank x || any (λ y. y == x) seen then skipped else x ∷ more

unfoldable pub normalize_mentions : (Text → Text) → List Text → Option (List Text)
normalize_mentions lower mentions = elim (canonical lower [] mentions) [
  | [] ↦ none
  | (x ∷ xs) ↦ some (x ∷ xs)
]
