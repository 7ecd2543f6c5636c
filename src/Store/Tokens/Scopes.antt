-- ===== src/Store/Tokens/Scopes.antt =====
-- mint_watch_token and the two validations: what a watch token opens, and how long.
use parler_protocol.Prelude.{
  ℕ, any-find, Text, codes, ◌==◌, eq_refl, ◌≡◌, refl, Bool, true, false, ◌&&◌, none, some, List, [],
  ◌∷◌, ◌++◌, arith, leb, if◌then◌else◌, find-append, find_new, any-find, find, any,
}
use parler_protocol.Store.Tables.{Store, TokenRow}
use parler_protocol.Store.Rooms.{room_owned_by, watch_scope}
use parler_protocol.Store.Tokens.{
  mint_watch_token, strip_prefix, validate_watch_token, validate_directory_token,
}

token_of : Text → TokenRow → Bool
token_of token t = t.token == token

pub strip_prefix-append : (p s : Text) → strip_prefix p (p ++ s) ≡ some s
unfolding strip_prefix
strip_prefix-append [] s = refl
strip_prefix-append (c ∷ p) s = ground (arith, strip_prefix-append p s)

watch_not_hub : (room : Text) → watch_scope room == codes "hub" ≡ false
unfolding ◌==◌
watch_not_hub room = refl

find-none_and :
    {A : Type 0} (p q : A → Bool) (xs : List A)
    → find p xs ≡ none
    → find (λ x. p x && q x) xs ≡ none
unfolding find
find-none_and p q [] h = refl
find-none_and p q (x ∷ xs) h = ground (arith, find-none_and p q xs)

find-hub_none :
    (token : Text) (row : TokenRow) (s : Store)
    → find (λ (t : TokenRow). t.token == token) s.directory_tokens ≡ none
    → row.scope == codes "hub" ≡ false
    → find
        (λ (t : TokenRow). (t.token == token) && (t.scope == codes "hub"))
        (s.directory_tokens ++ row ∷ [])
      ≡ none
unfolding find
find-hub_none token row s fresh other = ground (
  arith,
  find-append (λ (t : TokenRow). (t.token == token) && (t.scope == codes "hub")) s.directory_tokens
      (row ∷ []),
  find-none_and (λ (t : TokenRow). t.token == token) (λ t. t.scope == codes "hub")
      s.directory_tokens fresh,
  any-find (λ (t : TokenRow). (t.token == token) && (t.scope == codes "hub")) s.directory_tokens,
)

abbrev watch_row : Text → Text → Text → ℕ → ℕ → TokenRow
watch_row token room owner expires now = record {
  token = token;
  scope = watch_scope room;
  expires = expires;
  created_by = owner;
  created = now;
}

abbrev with_row : TokenRow → Store → Store
with_row t s = record s { directory_tokens = s.directory_tokens ++ t ∷ [] }

minted :
    (token room owner : Text) (expires now : ℕ) (s : Store)
    → room_owned_by room owner s ≡ true
    → find (λ (t : TokenRow). t.token == token) s.directory_tokens ≡ none
    → (mint_watch_token token room owner expires now s).1
      ≡ with_row (watch_row token room owner expires now) s
unfolding mint_watch_token
minted token room owner expires now s mine fresh =
    let unused : any (λ (t : TokenRow). t.token == token) s.directory_tokens ≡ false =
      ground (arith, fresh, any-find (λ (t : TokenRow). t.token == token) s.directory_tokens) in
    rw (mine, unused) refl

-- A watch token minted by the room's owner under an unused name resolves to exactly that room until
-- it expires, to nothing afterwards, and never opens the directory.
pub mint_watch_token-validate :
    (token room owner : Text) (expires now later : ℕ) (s : Store)
    → room_owned_by room owner s ≡ true
    → find (λ (t : TokenRow). t.token == token) s.directory_tokens ≡ none
    → (validate_watch_token token later (mint_watch_token token room owner expires now s).1
        ≡ (if leb later expires then some room else none))
      × (validate_directory_token token later (mint_watch_token token room owner expires now s).1
          ≡ false)
unfolding validate_watch_token validate_directory_token
mint_watch_token-validate token room owner expires now later s mine fresh =
    let row = watch_row token room owner expires now in
    let here : find (λ (t : TokenRow). t.token == token) (with_row row s).directory_tokens
        ≡ some row =
      find_new (λ (t : TokenRow). t.token == token) s.directory_tokens row fresh (eq_refl token) in
    let not_there : find (λ (t : TokenRow). (t.token == token) && (t.scope == codes "hub"))
          (with_row row s).directory_tokens
        ≡ none =
      find-hub_none token row s fresh (watch_not_hub room) in
    rw
      (
        minted token room owner expires now s mine fresh,
        not_there,
        here,
        validate_watch_token,
        strip_prefix-append (codes "watch:") room,
      )
      (refl, refl)
