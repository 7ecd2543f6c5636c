-- ===== src/Server/RecordRequests.antt =====
-- crates/parler-hub/src/server.rs, `handle_authed` on cards, tokens, facts and presence.
use parler_protocol.Prelude.{
  ℕ, Text, codes, ◌==◌, Bool, true, not, ◌&&◌, Option, none, some, is_some, is_some_and, List, leb,
  if◌then◌else◌, ok,
}
use parler_protocol.Protocol.Visibility.{Visibility}
use parler_protocol.Protocol.Attention.{Attention}
use parler_protocol.Protocol.Cards.{AgentCard, DiscoverScope}
use parler_protocol.Protocol.Mentions.{is_blank}
use parler_protocol.Store.Tables.{Store}
use parler_protocol.Store.Rooms.{is_member}
use parler_protocol.Store.Directory.{register_card, discover, lookup_card}
use parler_protocol.Store.Tokens.{active_token_count, mint_directory_token, mint_watch_token}
use parler_protocol.Store.Facts.{Fact, remember, keyed_fact_within_quota, recall_by_key}
use parler_protocol.Store.Presence.{touch_presence, set_attention, refresh_presence}
use parler_protocol.Server.Frames.{ServerFrame, not_member, invalid_card, at_capacity}
use parler_protocol.Server.State.{Config, Library, Draw, Authed, Answer, refuse, reply, answer}
use parler_protocol.Server.RoomRequests.{expiry}

-- Whether a signature stands and verifies over the card.
abbrev pub is_verified : Library → AgentCard → Option Text → Bool
is_verified l card sig = is_some_and sig (λ t. l.verify card.id (l.canonical_card_bytes card) t)

unfoldable pub handle_register :
    Library → Draw → Authed → AgentCard → Visibility → Option Text → Store → Answer Store
handle_register l d me card visibility sig s =
    let verified = is_verified l card sig in
    if not (card.id == me.id)
    then refuse invalid_card s
    else if is_some sig && not verified
    then refuse invalid_card s
    else reply (λ u. ServerFrame.registered card.id visibility verified)
        (register_card l.cards card sig verified visibility d.now s)

unfoldable pub handle_discover :
    Config
    → Library
    → Draw
    → DiscoverScope
    → Option Text
    → Option Text
    → Option Text
    → Option Text
    → Option ℕ
    → Store
    → Answer Store
handle_discover c l d scope query tag skill status limit s =
    answer ServerFrame.directory s
      (discover l.cards scope c.name query tag skill status limit d.now s)

unfoldable pub handle_lookup : Config → Library → Draw → Text → Store → Answer Store
handle_lookup c l d id s = answer ServerFrame.card s (lookup_card l.cards id c.name true d.now s)

unfoldable pub handle_mint_directory_token :
    Config → Draw → Authed → Option ℕ → Store → Answer Store
handle_mint_directory_token c d me ttl_secs s =
    let expires = expiry 3600 ttl_secs d.now in
    if leb c.max_active_tokens (active_token_count me.id d.now s)
    then refuse at_capacity s
    else reply (λ u. ServerFrame.directory_token d.token expires)
        (mint_directory_token d.token (codes "hub") expires me.id d.now s)

unfoldable pub handle_mint_watch : Config → Draw → Authed → Text → Option ℕ → Store → Answer Store
handle_mint_watch c d me room ttl_secs s =
    let expires = expiry 3600 ttl_secs d.now in
    if leb c.max_active_tokens (active_token_count me.id d.now s)
    then refuse at_capacity s
    else reply (λ u. ServerFrame.watch d.token room expires)
        (mint_watch_token d.token room me.id expires d.now s)

-- Whether a fact's or a query's room, where it names one, has the caller as a member.
abbrev pub may_use : Option Text → Text → Store → Bool
may_use none me s = true
may_use (some room) me s = is_member room me s

abbrev pub is_within_quota : Config → Text → Fact → Store → Bool
is_within_quota c me fact s = elim fact.key [
  | none ↦ true
  | some key ↦ keyed_fact_within_quota me key fact.room c.max_keyed_facts s
]

unfoldable pub handle_remember :
    Config → Draw → Authed → Fact → Option (List ℕ) → Option Text → Store → Answer Store
handle_remember c d me fact embedding model s =
    if not (may_use fact.room me.id s)
    then refuse not_member s
    else if not (is_within_quota c me.id fact s)
    then refuse at_capacity s
    else reply (λ u. ServerFrame.remembered true) (remember me.id fact d.now embedding model s)

unfoldable pub handle_recall :
    Library
    → Authed
    → Text
    → Option Text
    → Option ℕ
    → Option (List ℕ)
    → Option Text
    → Store
    → Answer Store
handle_recall l me query room limit embedding key s =
    let searched = answer ServerFrame.recalled s (l.search me.id query room limit embedding s) in
    if not (may_use room me.id s) then refuse not_member s else elim key [
      | none ↦ searched
      | some k ↦
          if is_blank k
          then searched
          else (ok (ServerFrame.recalled (recall_by_key me.id k room limit s)), s)
    ]

unfoldable pub handle_presence :
    Draw → Authed → Text → Option Text → Option Attention → Store → Answer Store
handle_presence d me status activity attention s =
    (ok ServerFrame.presence_ok, touch_presence me.id status activity attention d.now s)

unfoldable pub handle_set_attention : Draw → Authed → Attention → Store → Answer Store
handle_set_attention d me attention s =
    (ok ServerFrame.attention_ok, set_attention me.id attention d.now s)

unfoldable pub handle_ping : Draw → Authed → Store → Answer Store
handle_ping d me s = (ok ServerFrame.pong, refresh_presence me.id d.now s)
