-- ===== src/Store/Directory/Privacy.antt =====
-- crates/parler-hub/src/store.rs, "directory": what a caller outside the hub's scope can see.
use parler_protocol.Prelude.{
  ℕ, ◌+◌, min, Text, ◌==◌, ◌≡◌, refl, Bool, true, false, and_split, Option, none, some, unwrap_or,
  List, [], ◌∷◌, leb, if◌then◌else◌, select, find, All, All_mono, Outcome, ok, err, cons_ok,
  Bool-cases, inl, inr, Option-cases,
}
use parler_protocol.Protocol.Visibility.{public, parse}
use parler_protocol.Protocol.Cards.{DiscoverScope, DirectoryEntry}
use parler_protocol.Store.Tables.{Store, Error}
use parler_protocol.Store.Directory.{
  CardCodec, RawDir, raw_dirs, is_public, is_listed, place, by_last_seen, to_entry, collect,
  discover, lookup_card,
}

abbrev pub IsPublicEntry : DirectoryEntry → Type 0
IsPublicEntry e = e.visibility ≡ public

-- Every entry of an answer, if it is not an error, is public.
abbrev pub ArePublic : Outcome Error (List DirectoryEntry) → Type 0
ArePublic (err e) = Unit
ArePublic (ok es) = All IsPublicEntry es

abbrev pub IsPublicOrNone : Outcome Error (Option DirectoryEntry) → Type 0
IsPublicOrNone (err e) = Unit
IsPublicOrNone (ok none) = Unit
IsPublicOrNone (ok (some e)) = IsPublicEntry e

abbrev IsPublicRow : RawDir → Type 0
IsPublicRow r = is_public r.row ≡ true

select_sound : {A : Type 0} (p : A → Bool) (xs : List A) → All (λ x. p x ≡ true) (select p xs)
unfolding select
select_sound p [] = tt
select_sound p (x ∷ xs) = elim (Bool-cases (p x)) [
  | inl chosen ↦ rw (chosen) (chosen, select_sound p xs)
  | inr passed ↦ rw (passed) (select_sound p xs)
]

place-All :
    (r : RawDir) (rs : List RawDir)
    → IsPublicRow r
    → All IsPublicRow rs
    → All IsPublicRow (place r rs)
unfolding place
place-All r [] h hs = (h, tt)
place-All r (x ∷ rs) h hs = elim (Bool-cases (leb x.agent.last_seen r.agent.last_seen)) [
  | inl later ↦ rw (later) (h, hs)
  | inr sooner ↦ rw (sooner) (hs.0, place-All r rs h hs.1)
]

by_last_seen-All : (rs : List RawDir) → All IsPublicRow rs → All IsPublicRow (by_last_seen rs)
unfolding by_last_seen
by_last_seen-All [] hs = tt
by_last_seen-All (r ∷ rs) hs = place-All r (by_last_seen rs) hs.0 (by_last_seen-All rs hs.1)

abbrev MadePublic : Outcome Error DirectoryEntry → Type 0
MadePublic (err e) = Unit
MadePublic (ok e) = IsPublicEntry e

-- The entry of a public row is public.
to_entry_public :
    (c : CardCodec) (hub : Text) (now : ℕ) (r : RawDir)
    → IsPublicRow r
    → MadePublic (to_entry c hub now r)
unfolding to_entry parse
to_entry_public c hub now r h = elim (Option-cases (c.decode_card r.row.card_json)) [
  | inl broken ↦ rw (broken, to_entry) tt
  | inr (card, read) ↦ rw (read, to_entry) (rw (h) refl)
]

collect_step :
    (o : Outcome Error DirectoryEntry) (p : DirectoryEntry → Bool) (q : Bool)
    (skipped more : Outcome Error (List DirectoryEntry))
    → MadePublic o
    → ArePublic skipped
    → ArePublic more
    → ArePublic (elim o as (λ x. Outcome Error (List DirectoryEntry)) [
      | err e ↦ err e
      | ok entry ↦
          if p entry then skipped else if q then ok (entry ∷ []) else cons_ok (ok entry) more
    ])
collect_step (err e) p q skipped more made hs hm = tt
collect_step (ok entry) p q skipped more made hs hm = pick (p entry) q more hm
  where
    pick :
        (b q : Bool) (more : Outcome Error (List DirectoryEntry))
        → ArePublic more
        → ArePublic (if b then skipped else if q then ok (entry ∷ []) else cons_ok (ok entry) more)
    pick true q more hm = hs
    pick false true more hm = (made, tt)
    pick false false (err e) hm = tt
    pick false false (ok es) hm = (made, hm)

collect_public :
    (c : CardCodec) (hub : Text) (status : Option Text) (lim now n : ℕ) (rs : List RawDir)
    → All IsPublicRow rs
    → ArePublic (collect c hub status lim now n rs)
unfolding collect
collect_public c hub status lim now n [] hs = tt
collect_public c hub status lim now n (r ∷ rs) hs =
    collect_step (to_entry c hub now r) _ (leb lim (n + 1)) _ _ (to_entry_public c hub now r hs.0)
      (collect_public c hub status lim now n rs hs.1)
      (collect_public c hub status lim now (n + 1) rs hs.1)

is_listed_public :
    (c : CardCodec) (query tag skill : Option Text) (r : RawDir)
    → is_listed c DiscoverScope.public_only query tag skill r ≡ true
    → IsPublicRow r
unfolding is_listed
is_listed_public c query tag skill r h = (and_split (is_public r.row) _ h).0

look :
    (o : Outcome Error DirectoryEntry)
    → MadePublic o
    → IsPublicOrNone (elim o as (λ x. Outcome Error (Option DirectoryEntry)) [
      | err e ↦ err e
      | ok entry ↦ ok (some entry)
    ])
look (err e) made = tt
look (ok entry) made = made

lookup_public :
    (c : CardCodec) (hub id : Text) (now : ℕ) (s : Store)
    → IsPublicOrNone (lookup_card c id hub false now s)
unfolding lookup_card
lookup_public c hub id now s =
    elim (Option-cases (find (λ (r : RawDir). r.row.agent == id) (raw_dirs s s.directory))) [
      | inl missing ↦ rw (missing, lookup_card) tt
      | inr (r, found) ↦ elim (Bool-cases (is_public r.row)) [
        | inl shown ↦
            rw (found, shown, lookup_card)
              (look (to_entry c hub now r) (to_entry_public c hub now r shown))
        | inr hidden ↦ rw (found, hidden, lookup_card) tt
      ]
    ]

-- A caller outside the hub's scope sees public cards only: a search of the public scope, whatever it
-- asks for, and a look at one card without the hub's scope give no private one.
pub discover_public :
    (c : CardCodec) (hub id : Text) (query tag skill status : Option Text) (limit : Option ℕ)
    (now : ℕ) (s : Store)
    → ArePublic (discover c DiscoverScope.public_only hub query tag skill status limit now s)
      × IsPublicOrNone (lookup_card c id hub false now s)
unfolding discover
discover_public c hub id query tag skill status limit now s = (
  collect_public c hub status (min (unwrap_or limit 200) 1000) now 0 _ (
      by_last_seen-All
        (select (is_listed c DiscoverScope.public_only query tag skill) (raw_dirs s s.directory))
        (All_mono _ IsPublicRow (is_listed_public c query tag skill) _ (
          select_sound (is_listed c DiscoverScope.public_only query tag skill)
            (raw_dirs s s.directory)))),
  lookup_public c hub id now s,
)
