-- ===== src/Store/Tokens.antt =====
-- crates/parler-hub/src/store.rs: directory tokens, watch tokens and the waitlist.
pub mod Scopes
use parler_protocol.Prelude.{
  ℕ, zero, suc, ◌+◌, ◌-◌, ◌*◌, ◌/◌, ◌%◌, ◌^◌, ◌≤◌, ◌<◌, min, max, Text, codes, ◌==◌, eq_iff,
  eq_refl, Text-cases, trim, to_ascii_lowercase, eq_ignore_ascii_case, ◌≡◌, refl, sym, ap, ◌∙◌,
  subst, ◌≢◌, ◌↔◌, ◌⊎◌, inl, inr, Bool, true, false, not, ◌&&◌, ◌||◌, Bool-cases, and_split, Option,
  none, some, Option-cases, unwrap_or, is_some, is_none, is_some_and, keys_apart, Text-eq_symm,
  List, [], ◌∷◌, ◌++◌, map, append_assoc, append-nil, arith, ltb, leb, eqb, if◌then◌else◌, length,
  take, drop, select-append, take_add, take_nil, length-append, find-append, any-append, any-find,
  find-update-none, any-update, find-update_self, find-update_other, All-append, All-delete,
  All_mono, select, delete, update, find, any, count, insert_or_ignore, upsert, All, Outcome, ok,
  err,
}
use parler_protocol.Store.Tables.{
  Store, Error, not_owner, constraint, TokenRow, WaitlistRow, null_eq,
}
use parler_protocol.Store.Rooms.{room_owned_by, watch_scope}

-- The INSERT of either mint; a token that is taken violates the primary key.
insert_token : Text → Text → ℕ → Text → ℕ → Store → Outcome Error (Unit {0}) × Store
insert_token token scope expires created_by now s =
    if any (λ t. t.token == token) s.directory_tokens then (err constraint, s) else (
      ok tt,
      record s {
        directory_tokens =
            s.directory_tokens
            ++ record {
              token = token;
              scope = scope;
              expires = expires;
              created_by = created_by;
              created = now;
            }
              ∷ [];
      },
    )

unfoldable pub mint_directory_token :
    Text → Text → ℕ → Text → ℕ → Store → Outcome Error (Unit {0}) × Store
unfolding insert_token
mint_directory_token token scope expires created_by now s =
    insert_token token scope expires created_by now s

unfoldable pub active_token_count : Text → ℕ → Store → ℕ
active_token_count created_by now s =
    count (λ t. (t.created_by == created_by) && leb now t.expires) s.directory_tokens

unfoldable pub validate_directory_token : Text → ℕ → Store → Bool
validate_directory_token token now s =
    is_some_and
      (find (λ (t : TokenRow). (t.token == token) && (t.scope == codes "hub")) s.directory_tokens)
      λ t. leb now t.expires

unfoldable pub mint_watch_token :
    Text → Text → Text → ℕ → ℕ → Store → Outcome Error (Unit {0}) × Store
unfolding insert_token
mint_watch_token token room owner expires now s =
    if room_owned_by room owner s
    then insert_token token (watch_scope room) expires owner now s
    else (err not_owner, s)

-- `str::strip_prefix`.
unfoldable pub strip_prefix : Text → Text → Option Text
strip_prefix [] s = some s
strip_prefix (c ∷ p) [] = none
strip_prefix (c ∷ p) (d ∷ s) = let rest = strip_prefix p s in if eqb c d then rest else none

unfoldable pub validate_watch_token : Text → ℕ → Store → Option Text
unfolding strip_prefix
validate_watch_token token now s =
    elim (find (λ (t : TokenRow). t.token == token) s.directory_tokens) [
      | none ↦ none
      | some t ↦ if leb now t.expires then strip_prefix (codes "watch:") t.scope else none
    ]

unfoldable pub waitlist_add : Text → ℕ → Store → Store
waitlist_add email now s = record s {
  waitlist =
      insert_or_ignore (λ w. w.email == email) (record { email = email; created_at = now })
        s.waitlist;
}

unfoldable pub waitlist_count : Store → ℕ
waitlist_count s = length s.waitlist
