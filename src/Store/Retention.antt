-- ===== src/Store/Retention.antt =====
-- crates/parler-hub/src/store.rs, "retention / janitor".
pub mod Pruning
use parler_protocol.Prelude.{
  ℕ, zero, suc, ◌+◌, ◌-◌, ◌*◌, ◌/◌, ◌%◌, ◌^◌, ◌≤◌, ◌<◌, min, max, Text, codes, ◌==◌, eq_iff,
  eq_refl, Text-cases, trim, to_ascii_lowercase, eq_ignore_ascii_case, ◌≡◌, refl, sym, ap, ◌∙◌,
  subst, ◌≢◌, ◌↔◌, ◌⊎◌, inl, inr, Bool, true, false, not, ◌&&◌, ◌||◌, Bool-cases, and_split, Option,
  none, some, Option-cases, unwrap_or, is_some, is_none, is_some_and, keys_apart, Text-eq_symm,
  List, [], ◌∷◌, ◌++◌, map, append_assoc, append-nil, arith, ltb, leb, eqb, if◌then◌else◌, length,
  take, drop, get_elem?, reverse, select-append, take_add, take_nil, length-append, find-append,
  any-append, any-find, find-update-none, any-update, find-update_self, find-update_other,
  All-append, All-delete, All_mono, select, delete, update, find, any, count, insert_or_ignore,
  upsert, All, Outcome, ok, err,
}
use parler_protocol.Store.Tables.{Store, MessageRow, FactRow, InviteRow, TokenRow, VecRow}
use parler_protocol.Store.Facts.{room_text}

-- `(SELECT seq … WHERE room = messages.room ORDER BY seq DESC LIMIT 1 OFFSET keep)`; the table is in
-- the order of `seq`.
unfoldable pub threshold : ℕ → Text → List MessageRow → Option MessageRow
threshold keep room ms = get_elem? (reverse (select (λ x. x.room == room) ms)) keep

-- `seq <= COALESCE(…, -1)`: without such a row nothing is removed.
unfoldable pub is_prunable : ℕ → ℕ → List MessageRow → MessageRow → Bool
unfolding threshold
is_prunable cutoff keep ms m =
    ltb m.ts cutoff && is_some_and (threshold keep m.room ms) (λ x. leb m.seq x.seq)

-- The rows removed, and the log without them.
unfoldable pub prune_messages : ℕ → ℕ → ℕ → Store → ℕ × Store
unfolding is_prunable
prune_messages retain_ms keep_per_room now s =
    let old = is_prunable (now - retain_ms) keep_per_room s.messages in
    (count old s.messages, record s { messages = delete old s.messages })

unfoldable pub sweep_expired : ℕ → Store → ℕ × Store
sweep_expired now s = (
  count (λ (i : InviteRow). ltb i.expires now) s.invites
      + count (λ (t : TokenRow). ltb t.expires now) s.directory_tokens,
  record s {
    invites = delete (λ i. ltb i.expires now) s.invites;
    directory_tokens = delete (λ t. ltb t.expires now) s.directory_tokens;
  },
)

unfoldable pub same_scope : FactRow → FactRow → Bool
same_scope f g =
    is_none g.fkey && ((g.author == f.author) && (room_text g.room == room_text f.room))

-- The table is in the order of `id`.
unfoldable pub is_prunable_fact : ℕ → List FactRow → FactRow → Bool
unfolding same_scope
is_prunable_fact keep fs f =
    is_none f.fkey
    && is_some_and (get_elem? (reverse (select (same_scope f) fs)) keep) (λ x. leb f.id x.id)

unfoldable pub prune_facts : ℕ → Store → ℕ × Store
unfolding is_prunable_fact
prune_facts keep s =
    let old = is_prunable_fact keep s.facts in
    let kept = delete old s.facts in
    let n = count old s.facts in
    (
      n,
      record s {
        facts = kept;
        vec_facts =
            if ltb 0 n
            then select (λ (v : VecRow). any (λ (f : FactRow). eqb f.id v.fact_id) kept) s.vec_facts
            else s.vec_facts;
      },
    )
