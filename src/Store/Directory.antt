-- ===== src/Store/Directory.antt =====
-- crates/parler-hub/src/store.rs, "directory": cards, and who finds them.
pub mod Privacy
use parler_protocol.Prelude.{
  ℕ, ◌+◌, min, Text, codes, ◌==◌, to_ascii_lowercase, Bool, true, false, ◌&&◌, ◌||◌, Option, none,
  some, unwrap_or, is_some_and, List, [], ◌∷◌, ◌++◌, leb, eqb, if◌then◌else◌, length, select, find,
  count, upsert, Outcome, ok, err, cons_ok,
}
use parler_protocol.Protocol.Visibility.{Visibility, private}
use parler_protocol.Protocol.Visibility as Visibility
use parler_protocol.Protocol.Attention.{Attention}
use parler_protocol.Protocol.Attention as Attention
use parler_protocol.Protocol.Cards.{AgentSkill, AgentCard, DiscoverScope, DirectoryEntry}
use parler_protocol.Store.Tables.{
  Store, Error, bad_encoding, encode_failed, AgentRow, PresenceRow, DirectoryRow, is_fresh,
}

-- serde_json on cards, and `str::to_lowercase`.
pub record CardCodec : Type 0 where
  pub encode_card : AgentCard → Option Text
  pub decode_card : Text → Option AgentCard
  pub to_lowercase : Text → Text

-- A space before each word.
unfoldable pub words : CardCodec → List Text → Text
words c [] = []
words c (t ∷ ts) = 32 ∷ c.to_lowercase t ++ words c ts

-- And one at the end, where there is a word.
abbrev pub spaced : Text → Text
spaced [] = []
spaced (x ∷ xs) = (x ∷ xs) ++ 32 ∷ []

abbrev pub skill_words : List AgentSkill → List Text
skill_words [] = []
skill_words (s ∷ ss) = s.id ∷ s.name ∷ skill_words ss

unfoldable pub card_filter_blobs : CardCodec → AgentCard → Text × Text
card_filter_blobs c card = (
  spaced (words c (unwrap_or card.tags [])),
  spaced (words c (skill_words (unwrap_or card.skills []))),
)

unfoldable pub register_card :
    CardCodec
    → AgentCard
    → Option Text
    → Bool
    → Visibility
    → ℕ
    → Store
    → Outcome Error (Unit {0}) × Store
register_card c card sig verified visibility now s = elim (c.encode_card card) [
  | none ↦ (err encode_failed, s)
  | some json ↦
      let (tags, skills) = card_filter_blobs c card in
      (
        ok tt,
        record s {
          directory =
              upsert (λ d. d.agent == card.id)
                (record {
                  agent = card.id;
                  visibility = Visibility.as_str visibility;
                  card_json = json;
                  card_sig = sig;
                  verified = verified;
                  tags = tags;
                  skills = skills;
                  registered = now;
                  updated = now;
                })
                (λ d. record d {
                  visibility = Visibility.as_str visibility;
                  card_json = json;
                  card_sig = sig;
                  verified = verified;
                  tags = tags;
                  skills = skills;
                  updated = now;
                })
                s.directory;
        },
      )
]

-- SQL's LIKE: `%` is any text and `_` any character; ASCII letters match in either case.
abbrev any_suffix : (Text → Bool) → Text → Bool
any_suffix f [] = f []
any_suffix f (x ∷ xs) = let rest = any_suffix f xs in if f (x ∷ xs) then true else rest

abbrev one : (ℕ → Bool) → (Text → Bool) → Text → Bool
one p f [] = false
one p f (x ∷ xs) = p x && f xs

abbrev is_end : Text → Bool
is_end [] = true
is_end (x ∷ xs) = false

unfoldable pub likes : Text → Text → Bool
likes [] = is_end
likes (c ∷ p) =
    let rest = likes p in
    if eqb c 37
    then any_suffix rest
    else if eqb c 95
    then one (λ x. true) rest
    else one (λ x. to_ascii_lowercase (x ∷ []) == to_ascii_lowercase (c ∷ [])) rest

-- `%term%`, lowercased; an absent term admits everything.
unfoldable pub matches_term : CardCodec → Option Text → Text → Bool
matches_term c none t = true
matches_term c (some q) t = likes (37 ∷ c.to_lowercase q ++ 37 ∷ []) t

-- One row of the join with `agents` and `presence`.
pub record RawDir : Type 0 where
  pub row : DirectoryRow
  pub agent : AgentRow
  pub presence : Option PresenceRow

unfoldable pub raw_dir : Store → DirectoryRow → List RawDir
raw_dir s d = elim (find (λ (a : AgentRow). a.id == d.agent) s.agents) [
  | none ↦ []
  | some a ↦
      record {
        row = d;
        agent = a;
        presence = find (λ (p : PresenceRow). p.agent == d.agent) s.presence;
      }
      ∷ []
]

abbrev pub raw_dirs : Store → List DirectoryRow → List RawDir
raw_dirs s [] = []
raw_dirs s (d ∷ ds) = raw_dir s d ++ raw_dirs s ds

abbrev pub is_public : DirectoryRow → Bool
is_public d = d.visibility == codes "public"

unfoldable pub is_listed :
    CardCodec → DiscoverScope → Option Text → Option Text → Option Text → RawDir → Bool
is_listed c scope query tag skill r =
    elim scope [ DiscoverScope.hub ↦ true | DiscoverScope.public_only ↦ is_public r.row ]
    && ((matches_term c query (to_ascii_lowercase r.agent.name)
          || (matches_term c query r.row.tags || matches_term c query r.row.skills))
        && (matches_term c tag r.row.tags && matches_term c skill r.row.skills))

-- `ORDER BY a.last_seen DESC`.
pub place : RawDir → List RawDir → List RawDir
place r [] = r ∷ []
place r (x ∷ xs) =
    let rest = x ∷ place r xs in
    if leb x.agent.last_seen r.agent.last_seen then r ∷ x ∷ xs else rest

unfoldable pub by_last_seen : List RawDir → List RawDir
unfolding place
by_last_seen [] = []
by_last_seen (r ∷ rs) = place r (by_last_seen rs)

unfoldable pub to_entry : CardCodec → Text → ℕ → RawDir → Outcome Error DirectoryEntry
unfolding is_fresh
to_entry c hub now r = elim (c.decode_card r.row.card_json) [
  | none ↦ err bad_encoding
  | some card ↦ ok (record {
    card = card;
    visibility = unwrap_or (Visibility.parse r.row.visibility) private;
    status = elim r.presence [
      | none ↦ codes "offline"
      | some p ↦ if is_fresh now p.ts then p.status else codes "offline"
    ];
    activity = elim r.presence [ none ↦ none | some p ↦ p.activity ];
    attention = elim r.presence [
      | none ↦ none
      | some p ↦
          if is_fresh now p.ts
          then elim p.attention [ none ↦ none | some t ↦ Attention.parse t ]
          else none
    ];
    hub = hub;
    verified = r.row.verified;
    sig = r.row.card_sig;
    first_seen = r.agent.first_seen;
    last_seen = r.agent.last_seen;
  })
]

-- The loop over the rows; `n` entries are collected before, and it stops once `lim` are.
unfoldable pub collect :
    CardCodec → Text → Option Text → ℕ → ℕ → ℕ → List RawDir → Outcome Error (List DirectoryEntry)
collect c hub status lim now n [] = ok []
collect c hub status lim now n (r ∷ rs) =
    let skipped = collect c hub status lim now n rs in
    let more = collect c hub status lim now (n + 1) rs in
    elim (to_entry c hub now r) [
      | err e ↦ err e
      | ok entry ↦
          if is_some_and status (λ w. elim (c.to_lowercase entry.status == c.to_lowercase w) [
            | true ↦ false
            | false ↦ true
          ])
          then skipped
          else if leb lim (n + 1)
          then ok (entry ∷ [])
          else cons_ok (ok entry) more
    ]

unfoldable pub discover :
    CardCodec
    → DiscoverScope
    → Text
    → Option Text
    → Option Text
    → Option Text
    → Option Text
    → Option ℕ
    → ℕ
    → Store
    → Outcome Error (List DirectoryEntry)
discover c scope hub query tag skill status limit now s =
    collect c hub status (min (unwrap_or limit 200) 1000) now 0
      (by_last_seen (select (is_listed c scope query tag skill) (raw_dirs s s.directory)))

unfoldable pub lookup_card :
    CardCodec → Text → Text → Bool → ℕ → Store → Outcome Error (Option DirectoryEntry)
lookup_card c id hub hub_scope now s =
    elim (find (λ (r : RawDir). r.row.agent == id) (raw_dirs s s.directory)) [
      | none ↦ ok none
      | some r ↦
          if hub_scope || is_public r.row
          then elim (to_entry c hub now r) [ err e ↦ err e | ok entry ↦ ok (some entry) ]
          else ok none
    ]

unfoldable pub directory_visibility : Text → Store → Option Visibility
directory_visibility agent s = elim (find (λ (d : DirectoryRow). d.agent == agent) s.directory) [
  | none ↦ none
  | some d ↦ Visibility.parse d.visibility
]

unfoldable pub directory_counts : Store → ℕ × ℕ
directory_counts s = (length s.directory, count is_public s.directory)
