-- ===== src/Store/Facts.antt =====
-- crates/parler-hub/src/store.rs, "memory (facts)": writes by key, and the exact lookup by key.
pub mod Keyed
use parler_protocol.Prelude.{
  ℕ, ◌+◌, min, Text, ◌==◌, Bool, true, false, not, ◌&&◌, Option, none, some, unwrap_or, is_some,
  is_some_and, List, [], ◌∷◌, ◌++◌, map, ltb, leb, eqb, if◌then◌else◌, length, take, select, delete,
  update, find, any, count, Outcome, ok, err,
}
use parler_protocol.Store.Tables.{Store, Error, bad_dimension, FactRow, MemberRow, null_eq}

pub record Fact : Type 0 where
  pub key : Option Text
  pub text : Text
  pub room : Option Text

pub record RecallHit : Type 0 where
  pub text : Text
  pub key : Option Text
  pub room : Option Text
  pub author : Text
  pub ts : ℕ

abbrev pub vec_dimension : ℕ
vec_dimension = 768

-- `IFNULL(room, '')`.
abbrev pub room_text : Option Text → Text
room_text r = unwrap_or r []

-- The scope of a keyed write: author, room and key.
unfoldable pub is_keyed : Text → Option Text → Text → FactRow → Bool
is_keyed author room k f =
    (f.author == author) && ((room_text f.room == room_text room) && null_eq f.fkey k)

-- The row of an INSERT, under the next id.
insert_fact : Text → Fact → ℕ → Option Text → Store → ℕ × Store
insert_fact author fact ts model s = (
  s.next_fact,
  record s {
    facts =
        s.facts
        ++ record {
          id = s.next_fact;
          fkey = fact.key;
          room = fact.room;
          author = author;
          text = fact.text;
          ts = ts;
          embedding_model = model;
        }
          ∷ [];
    next_fact = s.next_fact + 1;
  },
)

-- The write of the row, and the id that the embedding goes under.
unfoldable pub write_fact : Text → Fact → ℕ → Option Text → Store → ℕ × Store
unfolding insert_fact
write_fact author fact ts model s = elim fact.key [
  | none ↦ insert_fact author fact ts model s
  | some k ↦ elim (find (is_keyed author fact.room k) s.facts) [
    | none ↦ insert_fact author fact ts model s
    | some f ↦ (
      f.id,
      record s {
        facts =
            update (is_keyed author fact.room k)
              (λ g. record g { text = fact.text; ts = ts; embedding_model = model }) s.facts;
      },
    )
  ]
]

embed : Option (List ℕ) → ℕ × Store → Store
embed none (id, s) = s
embed (some e) (id, s) = record s {
  vec_facts =
      delete (λ v. eqb v.fact_id id) s.vec_facts ++ record { fact_id = id; embedding = e } ∷ [];
}

unfoldable pub remember :
    Text → Fact → ℕ → Option (List ℕ) → Option Text → Store → Outcome Error (Unit {0}) × Store
unfolding write_fact embed
remember author fact ts embedding model s =
    if is_some_and embedding (λ e. not (eqb (length e) vec_dimension))
    then (err bad_dimension, s)
    else (ok tt, embed embedding (write_fact author fact ts model s))

-- SQL's equality of two nullable texts, with the NULL = NULL that the query spells out.
same_room : Option Text → Option Text → Bool
same_room none none = true
same_room none (some r) = false
same_room (some q) none = false
same_room (some q) (some r) = q == r

unfoldable pub keyed_fact_within_quota : Text → Text → Option Text → ℕ → Store → Bool
unfolding same_room
keyed_fact_within_quota author key room limit s =
    if any (λ (f : FactRow). (f.author == author) && (null_eq f.fkey key && same_room f.room room))
      s.facts
    then true
    else ltb (count (λ (f : FactRow). (f.author == author) && is_some f.fkey) s.facts) limit

-- `ORDER BY ts DESC`.
place : FactRow → List FactRow → List FactRow
place f [] = f ∷ []
place f (x ∷ xs) = let rest = x ∷ place f xs in if leb x.ts f.ts then f ∷ x ∷ xs else rest

newest_first : List FactRow → List FactRow
unfolding place
newest_first [] = []
newest_first (f ∷ fs) = place f (newest_first fs)

-- What an agent reaches: one room, or its own unroomed facts and those of its rooms.
unfoldable pub in_scope : Text → Option Text → Store → FactRow → Bool
in_scope agent (some r) s f = null_eq f.room r
in_scope agent none s f = elim f.room [
  | none ↦ f.author == agent
  | some r ↦ any (λ (m : MemberRow). (m.agent == agent) && (m.room == r)) s.members
]

abbrev hit : FactRow → RecallHit
hit f = record { text = f.text; key = f.fkey; room = f.room; author = f.author; ts = f.ts }

unfoldable pub recall_by_key : Text → Text → Option Text → Option ℕ → Store → List RecallHit
unfolding newest_first in_scope
recall_by_key agent key room limit s = map hit (
    take (min (unwrap_or limit 8) 50)
      (newest_first (select (λ f. null_eq f.fkey key && in_scope agent room s f) s.facts)))
