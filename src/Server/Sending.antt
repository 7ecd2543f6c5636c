-- ===== src/Server/Sending.antt =====
-- crates/parler-hub/src/server.rs: sending with its live push, and reading with and without a wait.
-- Waking parked readers is left out: a wait is given the rounds in which it looks again.
pub mod Delivery
pub mod Files
pub mod Pushing
pub mod Retries
pub mod Waiting
use parler_protocol.Prelude.{
  ℕ, ◌+◌, Text, ◌==◌, Bool, true, false, not, ◌||◌, Option, none, some, unwrap_or, is_some, List,
  [], ◌∷◌, ◌++◌, map, select, length, eqb, ltb, if◌then◌else◌, Outcome, ok, err,
}
use parler_protocol.Protocol.Parts.{Part, EndpointRef}
use parler_protocol.Protocol.Mentions.{normalize_mentions}
use parler_protocol.Store.Tables.{Store, Error}
use parler_protocol.Store.Rooms.{is_member, room_member_ids}
use parler_protocol.Store.Messages.{StoredMessage, AppendOutcome, append_message, pull}
use parler_protocol.Server.Windows.{RateKind, Rates, Table, put, rate_allows, room_rate_allows}
use parler_protocol.Server.Frames.{
  Target, ServerFrame, ErrorCode, not_member, rate_limited, too_large,
}
use parler_protocol.Server.State.{
  Config, Library, Push, Draw, Hub, Metrics, Authed, Refusal, coded, of_store, Answer, refuse,
  reply,
}
use parler_protocol.Server.RoomRequests.{resolve_target}

unfoldable pub subscribe : Text → ℕ → Hub → Hub
subscribe agent conn h = record h {
  subscribers =
      put agent (select (λ c. not (eqb c conn)) (unwrap_or (h.subscribers agent) []) ++ conn ∷ [])
        h.subscribers;
}

abbrev pub or_absent : List ℕ → Option (List ℕ)
or_absent [] = none
or_absent (c ∷ cs) = some (c ∷ cs)

unfoldable pub unsubscribe : Text → ℕ → Hub → Hub
unsubscribe agent conn h = elim (h.subscribers agent) [
  | none ↦ h
  | some v ↦ record h {
    subscribers =
        λ x. if x == agent then or_absent (select (λ c. not (eqb c conn)) v) else h.subscribers x;
  }
]

abbrev pub is_sent : Push → Bool
is_sent Push.sent = true
is_sent _ = false

abbrev pub is_closed : Push → Bool
is_closed Push.closed = true
is_closed _ = false

-- One member's connections: a closed one is forgotten, a full one misses this message.
unfoldable pub push_member : Draw → Text → StoredMessage → Text → Hub → Hub
push_member d author msg member h = if member == author then h else elim (h.subscribers member) [
  | none ↦ h
  | some conns ↦
      let reached = select (λ c. is_sent (d.channel c)) conns in
      record h {
        subscribers = put member (select (λ c. not (is_closed (d.channel c))) conns) h.subscribers;
        pushed = h.pushed ++ map (λ c. (c, msg)) reached;
        metrics = record (h.metrics) { pushes_total = h.metrics.pushes_total + length reached };
      }
]

unfoldable pub push_members : Draw → Text → StoredMessage → List Text → Hub → Hub
push_members d author msg [] h = h
push_members d author msg (m ∷ ms) h = push_members d author msg ms (push_member d author msg m h)

-- An empty registry is left at once in the source, which the loop would leave alone too.
unfoldable pub fanout : Draw → Text → Text → StoredMessage → Hub → Hub
fanout d room author msg h = push_members d author msg (room_member_ids room h.store) h

abbrev pub charge_send : Config → Text → ℕ → Hub → Bool × Hub
charge_send c me now h =
    let (allowed, m) = rate_allows c.limits me RateKind.send now h.rates.rate in
    (allowed, record h { rates = record (h.rates) { rate = m } })

abbrev pub charge_room : Config → Text → RateKind → ℕ → Hub → Bool × Hub
charge_room c room kind now h =
    let (allowed, m) = room_rate_allows c.limits room kind now h.rates.room_rate in
    (allowed, record h { rates = record (h.rates) { room_rate = m } })

-- What follows the store's answer: a message that was there before is neither counted nor pushed.
unfoldable pub announce : Draw → StoredMessage → AppendOutcome → Hub → Hub
announce d msg out h =
    if out.deduped
    then h
    else fanout d msg.room msg.from.id msg (record h {
      metrics = record (h.metrics) {
        messages_total = h.metrics.messages_total + 1;
        tokens_total = h.metrics.tokens_total + out.tokens;
      };
    })

-- The message for a resolved room.
unfoldable pub send_to :
    Config
    → Library
    → Draw
    → Authed
    → Text
    → List Part
    → Option (List Text)
    → Option Text
    → Option Text
    → Hub
    → Answer Hub
send_to c l d me room parts mentions reply_to client_id h =
    let (allowed, h2) = charge_room c room RateKind.send d.now h in
    let names : Option (List Text) = elim mentions [
      | none ↦ none
      | some ms ↦ normalize_mentions l.cards.to_lowercase ms
    ] in
    let from : EndpointRef = record { id = me.id; name = me.name; role = me.role } in
    let (out, s) =
      append_message l.codec d.id room from parts names reply_to client_id d.now h2.store in
    let stored = record h2 { store = s } in
    if not allowed then refuse rate_limited h2 else elim out [
      | err e ↦ (err (of_store e), stored)
      | ok o ↦ (
        ok (ServerFrame.sent o.id o.seq room),
        announce d
            (record {
              seq = o.seq;
              id = o.id;
              room = room;
              from = from;
              parts = parts;
              mentions = names;
              reply_to = reply_to;
              ts = d.now;
            })
            o stored,
      )
    ]

unfoldable pub handle_send :
    Config
    → Library
    → Draw
    → Authed
    → Target
    → List Part
    → Option (List Text)
    → Option Text
    → Option Text
    → Hub
    → Answer Hub
handle_send c l d me target parts mentions reply_to client_id h =
    let (allowed, h2) = charge_send c me.id d.now h in
    let (room, s) = resolve_target d me target h2.store in
    let there = record h2 { store = s } in
    if not allowed
    then refuse rate_limited h2
    else if ltb c.max_message_bytes (unwrap_or (l.parts_bytes parts) 0)
    then refuse too_large h2
    else elim room [
      | err e ↦ (err e, there)
      | ok r ↦ send_to c l d me r parts mentions reply_to client_id there
    ]

unfoldable pub handle_pull :
    Library → Authed → Text → Option ℕ → Option ℕ → Option ℕ → Store → Answer Store
handle_pull l me room since limit ack s =
    if not (is_member room me.id s)
    then refuse not_member s
    else reply (λ r. ServerFrame.pulled room r.0 r.1) (pull l.codec room me.id since limit ack s)

abbrev pub has_none : List StoredMessage → Bool
has_none [] = true
has_none (m ∷ ms) = false

-- A read's page, or what the loop gives after an empty one.
abbrev pub Page : Type 0
Page = Outcome Error (List StoredMessage × ℕ) × Store

abbrev pub or_again : Page → Page → Page
or_again (err e, s) again = (err e, s)
or_again (ok page, s) again = if has_none page.0 then again else (ok page, s)

-- The loop of a wait: each round is what others did to the store while the reader slept; the
-- deadline has passed when there is no other.
unfoldable pub await_messages :
    Library
    → Text
    → Text
    → Option ℕ
    → Option ℕ
    → List (Store → Store)
    → Store
    → Outcome Error (List StoredMessage × ℕ) × Store
await_messages l room me limit ack [] s = pull l.codec room me none limit ack s
await_messages l room me limit ack (round ∷ rounds) s =
    let r = pull l.codec room me none limit ack s in
    or_again r (await_messages l room me limit ack rounds (round r.1))

-- A read of the store as a request gives it.
abbrev pub settled : Page → Outcome Refusal (List StoredMessage × ℕ) × Store
settled (ok page, s) = (ok page, s)
settled (err e, s) = (err (of_store e), s)

-- A history read, or messages that are there already, are given at once.
abbrev pub at_once : Bool → Page → Page → Outcome Refusal (List StoredMessage × ℕ) × Store
at_once history (err e, s) waited = (err (of_store e), s)
at_once history (ok page, s) waited =
    if history || not (has_none page.0) then (ok page, s) else settled waited

unfoldable pub store_waited_pull :
    Library
    → Authed
    → Text
    → Option ℕ
    → Option ℕ
    → Option ℕ
    → List (Store → Store)
    → Store
    → Outcome Refusal (List StoredMessage × ℕ) × Store
store_waited_pull l me room since limit ack rounds s =
    let first = pull l.codec room me.id since limit ack s in
    if not (is_member room me.id s)
    then (err (coded not_member), s)
    else at_once (is_some since) first (await_messages l room me.id limit ack rounds first.1)

unfoldable pub waited_pull :
    Library
    → Authed
    → Text
    → Option ℕ
    → Option ℕ
    → Option ℕ
    → List (Store → Store)
    → Store
    → Answer Store
waited_pull l me room since limit ack rounds s =
    let r = store_waited_pull l me room since limit ack rounds s in
    elim r.0 [ ok page ↦ (ok (ServerFrame.pulled room page.0 page.1), r.1) | err e ↦ (err e, r.1) ]
