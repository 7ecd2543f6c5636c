-- ===== src/Store/Messages.antt =====
-- crates/parler-hub/src/store.rs, "messages": the room log and the cursors into it.
pub mod Order
pub mod Delivery
pub mod Idempotence
pub mod Sending
pub mod Acknowledge
use parler_protocol.Prelude.{
  ℕ, zero, suc, ◌+◌, ◌-◌, ◌*◌, ◌/◌, ◌%◌, ◌^◌, ◌≤◌, ◌<◌, min, max, Text, codes, ◌==◌, eq_iff,
  eq_refl, Text-cases, trim, to_ascii_lowercase, eq_ignore_ascii_case, ◌≡◌, refl, sym, ap, ◌∙◌,
  subst, ◌≢◌, ◌↔◌, ◌⊎◌, inl, inr, Bool, true, false, not, ◌&&◌, ◌||◌, Bool-cases, and_split, Option,
  none, some, Option-cases, unwrap_or, is_some, is_none, is_some_and, List, [], ◌∷◌, ◌++◌, map,
  append_assoc, append-nil, arith, ltb, leb, eqb, if◌then◌else◌, length, take, drop, select-append,
  take_add, length-append, find-append, any-append, any-find, select, delete, update, find, any,
  count, insert_or_ignore, upsert, All, Outcome, ok, err, cons_ok,
}
use parler_protocol.Protocol.Parts.{Part, EndpointRef, DispatchRef, dispatches}
use parler_protocol.Protocol.Tokens.{estimate_message_tokens}
use parler_protocol.Store.Tables.{
  Store, Error, Codec, MessageRow, MemberRow, DispatchRow, bad_encoding, encode_failed, constraint,
  room_agent, null_eq,
}

pub record AppendOutcome : Type 0 where
  pub id : Text
  pub seq : ℕ
  pub tokens : ℕ
  pub deduped : Bool

pub record StoredMessage : Type 0 where
  pub seq : ℕ
  pub id : Text
  pub room : Text
  pub from : EndpointRef
  pub parts : List Part
  pub mentions : Option (List Text)
  pub reply_to : Option Text
  pub ts : ℕ

-- The conflict on the partial unique index (room, author, client_id), which holds no NULL key.
unfoldable pub replays : MessageRow → MessageRow → Bool
replays row m = elim row.client_id [
  | none ↦ false
  | some k ↦ (m.room == row.room) && ((m.author == row.author) && null_eq m.client_id k)
]

-- The loop over the dispatch parts.
unfoldable pub index_dispatches :
    Text → Text → ℕ → List DispatchRef → List DispatchRow → List DispatchRow
index_dispatches room id seq [] rows = rows
index_dispatches room id seq (d ∷ ds) rows = index_dispatches room id seq ds (
    insert_or_ignore (λ r. (r.room == room) && ((r.message == id) && (r.role == d.role)))
      (record { room = room; message = id; role = d.role; seq = seq }) rows)

-- The INSERT, and what follows it on either outcome.
unfoldable pub insert_message : MessageRow → List Part → Store → Outcome Error AppendOutcome × Store
insert_message row parts s = elim (find (replays row) s.messages) [
  | some old ↦ (ok (record { id = old.id; seq = old.seq; tokens = 0; deduped = true }), s)
  | none ↦ if any (λ m. m.id == row.id) s.messages then (err constraint, s) else (
    ok (record { id = row.id; seq = s.next_seq; tokens = row.tokens; deduped = false }),
    record s {
      messages = s.messages ++ record row { seq = s.next_seq } ∷ [];
      next_seq = s.next_seq + 1;
      service_dispatches =
          index_dispatches row.room row.id s.next_seq (dispatches parts) s.service_dispatches;
    },
  )
]

-- The row that a send writes; its `seq` is assigned by the insert.
abbrev pub message_row :
    Text
    → Text
    → EndpointRef
    → List Part
    → Text
    → Option Text
    → Option Text
    → Option Text
    → ℕ
    → MessageRow
message_row id room from parts parts_json mentions_json reply_to client_id ts = record {
  seq = 0;
  id = id;
  room = room;
  author = from.id;
  author_name = from.name;
  author_role = from.role;
  parts = parts_json;
  mentions = mentions_json;
  reply_to = reply_to;
  ts = ts;
  tokens = estimate_message_tokens parts;
  client_id = client_id;
}

unfoldable pub encode_mentions : Codec → Option (List Text) → Outcome Error (Option Text)
encode_mentions c none = ok none
encode_mentions c (some m) = elim (c.encode_mentions m) [
  | none ↦ err encode_failed
  | some t ↦ ok (some t)
]

-- `id` is the new UUID.
unfoldable pub append_message :
    Codec
    → Text
    → Text
    → EndpointRef
    → List Part
    → Option (List Text)
    → Option Text
    → Option Text
    → ℕ
    → Store
    → Outcome Error AppendOutcome × Store
append_message c id room from parts mentions reply_to client_id ts s = elim (c.encode parts) [
  | none ↦ (err encode_failed, s)
  | some parts_json ↦ elim (encode_mentions c mentions) [
    | err e ↦ (err e, s)
    | ok mentions_json ↦
        insert_message
          (message_row id room from parts parts_json mentions_json reply_to client_id ts) parts s
  ]
]

unfoldable pub decode_mentions : Codec → Option Text → Outcome Error (Option (List Text))
decode_mentions c none = ok none
decode_mentions c (some t) = elim (c.decode_mentions t) [
  | none ↦ err bad_encoding
  | some m ↦ ok (some m)
]

unfoldable pub to_stored : Codec → MessageRow → Outcome Error StoredMessage
unfolding decode_mentions
to_stored c m = elim (c.decode m.parts) [
  | none ↦ err bad_encoding
  | some parts ↦ elim (decode_mentions c m.mentions) [
    | err e ↦ err e
    | ok mentions ↦ ok (record {
      seq = m.seq;
      id = m.id;
      room = m.room;
      from = record { id = m.author; name = m.author_name; role = m.author_role };
      parts = parts;
      mentions = mentions;
      reply_to = m.reply_to;
      ts = m.ts;
    })
  ]
]

-- The conversion of each row in turn, up to the first that fails.
unfoldable pub read_all : Codec → List MessageRow → Outcome Error (List StoredMessage)
read_all c [] = ok []
read_all c (m ∷ ms) = cons_ok (to_stored c m) (read_all c ms)

unfoldable pub get_cursor : Text → Text → Store → ℕ
get_cursor room agent s = elim (find (room_agent room agent) s.members) [
  | none ↦ 0
  | some m ↦ m.cursor
]

unfoldable pub set_cursor : Text → Text → ℕ → Store → Store
set_cursor room agent cursor s = record s {
  members = update (room_agent room agent) (λ m. record m { cursor = cursor }) s.members;
}

-- `WHERE room = ? AND seq > ?`; the table is in the order of `seq`.
unfoldable pub newer : Text → ℕ → List MessageRow → List MessageRow
unfolding select
newer room cur ms = select (λ m. (m.room == room) && ltb cur m.seq) ms

abbrev pub page_size : Option ℕ → ℕ
page_size limit = min (unwrap_or limit 200) 1000

-- `raws.last().map(|r| r.seq).unwrap_or(cur)`.
unfoldable pub last_seq : ℕ → List MessageRow → ℕ
last_seq cur [] = cur
last_seq cur (m ∷ ms) = last_seq m.seq ms

-- The read floor, with the deferred acknowledgement applied.
unfoldable pub read_floor : Text → Text → Option ℕ → Option ℕ → Store → ℕ × Store
unfolding get_cursor set_cursor
read_floor room agent (some since) ack s = (since, s)
read_floor room agent none none s = (get_cursor room agent s, s)
read_floor room agent none (some a) s =
    if ltb (get_cursor room agent s) a
    then (a, set_cursor room agent a s)
    else (get_cursor room agent s, s)

-- The page past `cur`, and the cursor advanced over it where the client acknowledges by reading.
unfoldable pub read_page :
    Codec
    → Text
    → Text
    → Option ℕ
    → Bool
    → ℕ
    → Store
    → Outcome Error (List StoredMessage × ℕ) × Store
unfolding newer last_seq set_cursor read_all
read_page c room agent limit advance cur s =
    let raws = take (page_size limit) (newer room cur s.messages) in
    let new_cursor = last_seq cur raws in
    (
      elim (read_all c raws) [ err e ↦ err e | ok ms ↦ ok (ms, new_cursor) ],
      if advance && ltb cur new_cursor then set_cursor room agent new_cursor s else s,
    )

unfoldable pub pull :
    Codec
    → Text
    → Text
    → Option ℕ
    → Option ℕ
    → Option ℕ
    → Store
    → Outcome Error (List StoredMessage × ℕ) × Store
pull c room agent since limit ack s =
    let (cur, t) = read_floor room agent since ack s in
    read_page c room agent limit (is_none since && is_none ack) cur t

unfoldable pub room_messages : Codec → Text → ℕ → ℕ → Store → Outcome Error (List StoredMessage)
unfolding newer read_all
room_messages c room since limit s =
    read_all c (take (min limit 1000) (newer room since s.messages))
