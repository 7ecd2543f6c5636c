-- ===== src/Examples/Directory.antt =====
-- The directory with a public and a private card.
use parler_protocol.Prelude.{
  ℕ, Text, codes, ◌==◌, ◌≡◌, refl, to_ascii_lowercase, true, false, none, some, List, [], ◌∷◌, map,
  select, find, Outcome, ok, err,
}
use parler_protocol.Examples.{ann, cat, hub}
use parler_protocol.Protocol.Cards.{AgentCard, EndpointKind, DiscoverScope, DirectoryEntry}
use parler_protocol.Store.Tables.{Store, Error, AgentRow, DirectoryRow}
use parler_protocol.Store.Directory.{
  CardCodec, raw_dir, is_listed, matches_term, by_last_seen, to_entry, collect, discover,
  lookup_card,
}
use parler_protocol.Store.Directory.Privacy.{ArePublic, IsPublicOrNone, discover_public}

abbrev card : Text → AgentCard
card id = record {
  id = id;
  name = id;
  kind = EndpointKind.agent;
  role = none;
  description = none;
  tags = none;
  skills = none;
  meta = none;
  protocol_version = none;
}

abbrev cards : CardCodec
cards = record {
  encode_card = λ c. some c.id;
  decode_card = λ t. some (card t);
  to_lowercase = to_ascii_lowercase;
}

abbrev seen : Text → ℕ → AgentRow
seen id at = record { id = id; name = id; role = none; first_seen = 1; last_seen = at }

abbrev listed : Text → Text → DirectoryRow
listed id visibility = record {
  agent = id;
  visibility = visibility;
  card_json = id;
  card_sig = none;
  verified = false;
  tags = [];
  skills = [];
  registered = 1;
  updated = 1;
}

-- Ann's card is public, Cat's is private.
abbrev listing : Store
listing = record hub {
  agents = seen ann 10 ∷ seen cat 20 ∷ [];
  directory = listed ann (codes "public") ∷ listed cat (codes "private") ∷ [];
}

abbrev ids_of : Outcome Error (List DirectoryEntry) → List Text
ids_of (err e) = []
ids_of (ok es) = map (λ (e : DirectoryEntry). e.card.id) es

abbrev found : DiscoverScope → Outcome Error (List DirectoryEntry)
found scope = discover cards scope (codes "h") none none none none none 500 listing

found_by_scope :
    (ids_of (found DiscoverScope.public_only) ≡ ann ∷ [])
    × (ids_of (found DiscoverScope.hub) ≡ cat ∷ ann ∷ [])
unfolding discover collect by_last_seen select raw_dir find ◌==◌ is_listed matches_term to_entry
found_by_scope = (refl, refl)

cat_is_hidden :
    (lookup_card cards cat (codes "h") false 500 listing ≡ ok none)
    × (ids_of
          (elim (lookup_card cards cat (codes "h") true 500 listing)
            as (λ x. Outcome Error (List DirectoryEntry)) [
              | err e ↦ err e
              | ok none ↦ ok []
              | ok (some e) ↦ ok (e ∷ [])
            ])
        ≡ cat ∷ [])
unfolding lookup_card find raw_dir ◌==◌ to_entry
cat_is_hidden = (refl, refl)

discover_public_example :
    ArePublic (found DiscoverScope.public_only)
    × IsPublicOrNone (lookup_card cards cat (codes "h") false 500 listing)
discover_public_example = discover_public cards (codes "h") cat none none none none none 500 listing
