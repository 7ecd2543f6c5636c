-- ===== src/Store/Rooms.antt =====
-- crates/parler-hub/src/store.rs, "rooms / membership".
pub mod Deletion
pub mod Direct
use parler_protocol.Prelude.{
  text_leb, ℕ, zero, suc, ◌+◌, ◌-◌, ◌*◌, ◌/◌, ◌%◌, ◌^◌, ◌≤◌, ◌<◌, min, max, Text, codes, ◌==◌,
  eq_iff, eq_refl, Text-cases, trim, to_ascii_lowercase, eq_ignore_ascii_case, ◌≡◌, refl, sym, ap,
  ◌∙◌, subst, ◌≢◌, ◌↔◌, ◌⊎◌, inl, inr, Bool, true, false, not, ◌&&◌, ◌||◌, Bool-cases, and_split,
  Option, none, some, Option-cases, unwrap_or, is_some, is_none, is_some_and, keys_apart,
  Text-eq_symm, List, [], ◌∷◌, ◌++◌, map, append_assoc, append-nil, arith, ltb, leb, eqb,
  if◌then◌else◌, length, take, drop, select-append, take_add, take_nil, length-append, find-append,
  any-append, any-find, find-update-none, any-update, find-update_self, find-update_other,
  All-append, All-delete, All_mono, select, delete, update, find, any, count, insert_or_ignore,
  upsert, All, Outcome, ok, err,
}
use parler_protocol.Protocol.RoomKind.{RoomKind, channel, as_str, parse}
use parler_protocol.Protocol.Attention.{Attention}
use parler_protocol.Protocol.Attention as Attention
use parler_protocol.Store.Tables.{
  Store, Error, not_owner, AgentRow, PresenceRow, RoomRow, MemberRow, MessageRow, WorkerRow,
  FactRow, room_agent, null_eq, is_fresh, worker_key,
}
use parler_protocol.Store.Messages.{newer}

-- `INSERT OR IGNORE` on the name; the owner starts as NULL.
unfoldable pub ensure_room : Text → RoomKind → Option Text → ℕ → Store → Store
ensure_room name kind description now s = record s {
  rooms =
      insert_or_ignore (λ r. r.name == name)
        (record {
          name = name;
          kind = as_str kind;
          description = description;
          owner = none;
          created = now;
        })
        s.rooms;
}

unfoldable pub add_member : Text → Text → ℕ → Store → Store
add_member room agent now s = record s {
  members =
      insert_or_ignore (room_agent room agent)
        (record { room = room; agent = agent; joined = now; cursor = 0 }) s.members;
}

unfoldable pub is_member : Text → Text → Store → Bool
is_member room agent s = ltb 0 (count (room_agent room agent) s.members)

unfoldable pub room_owned_by : Text → Text → Store → Bool
room_owned_by room owner s = ltb 0 (count (λ r. (r.name == room) && null_eq r.owner owner) s.rooms)

-- Set once: a room that has an owner keeps it.
unfoldable pub set_room_owner : Text → Text → Store → Store
set_room_owner room owner s = record s {
  rooms =
      update (λ r. (r.name == room) && is_none r.owner) (λ r. record r { owner = some owner })
        s.rooms;
}

unfoldable pub owned_room_count : Text → Store → ℕ
owned_room_count owner s = count (λ r. null_eq r.owner owner) s.rooms

abbrev pub watch_scope : Text → Text
watch_scope room = codes "watch:" ++ room

-- The statements of the transaction, in order.
unfoldable pub delete_room : Text → Text → Store → Outcome Error (Unit {0}) × Store
delete_room room owner s =
    if room_owned_by room owner s
    then (
      ok tt,
      record s {
        join_requests = delete (λ r. r.room == room) s.join_requests;
        invites = delete (λ i. i.room == room) s.invites;
        directory_tokens = delete (λ t. t.scope == watch_scope room) s.directory_tokens;
        blob_rooms = delete (λ b. b.room == room) s.blob_rooms;
        facts = delete (λ f. null_eq f.room room) s.facts;
        messages = delete (λ m. m.room == room) s.messages;
        members = delete (λ m. m.room == room) s.members;
        rooms = delete (λ r. r.name == room) s.rooms;
      },
    )
    else (err not_owner, s)

unfoldable pub room_member_ids : Text → Store → List Text
room_member_ids room s = map (λ m. m.agent) (select (λ m. m.room == room) s.members)

unfoldable pub room_kind : Text → Store → Option RoomKind
room_kind name s = elim (find (λ (r : RoomRow). r.name == name) s.rooms) [
  | none ↦ none
  | some r ↦ parse r.kind
]

-- The WHERE clause over the join of `members`, `members` and `rooms`.
unfoldable pub is_dm_row : Text → Text → Store → MemberRow → Bool
is_dm_row a b s m =
    (m.agent == a)
    && (any (room_agent m.room b) s.members
        && (any (λ (r : RoomRow). (r.name == m.room) && (r.kind == codes "dm")) s.rooms
            && eqb (count (λ (x : MemberRow). x.room == m.room) s.members) 2))

unfoldable pub find_dm_room : Text → Text → Store → Option Text
find_dm_room a b s = elim (find (is_dm_row a b s) s.members) [ none ↦ none | some m ↦ some m.room ]

pub record RoomInfo : Type 0 where
  pub name : Text
  pub kind : RoomKind
  pub members : ℕ
  pub unread : ℕ

module _ {A : Type 0} (key : A → Text) where
  place : A → List A → List A
  unfolding text_leb
  place x [] = x ∷ []
  place x (y ∷ ys) =
      let rest = y ∷ place x ys in if text_leb (key x) (key y) then x ∷ y ∷ ys else rest

  pub order_by : List A → List A
  unfolding place
  order_by [] = []
  order_by (x ∷ xs) = place x (order_by xs)

-- One row of the join with `rooms`.
room_info : Store → MemberRow → List RoomInfo
room_info s m = elim (find (λ (r : RoomRow). r.name == m.room) s.rooms) [
  | none ↦ []
  | some r ↦
      record {
        name = m.room;
        kind = unwrap_or (parse r.kind) channel;
        members = count (λ (x : MemberRow). x.room == m.room) s.members;
        unread = count (λ (x : MessageRow). (x.room == m.room) && ltb m.cursor x.seq) s.messages;
      }
      ∷ []
]

room_infos : Store → List MemberRow → List RoomInfo
unfolding room_info
room_infos s [] = []
room_infos s (m ∷ ms) = room_info s m ++ room_infos s ms

unfoldable pub rooms_of : Text → Store → List RoomInfo
unfolding room_infos order_by
rooms_of agent s =
    order_by (λ (r : RoomInfo). r.name) (room_infos s (select (λ m. m.agent == agent) s.members))

pub record RosterEntry : Type 0 where
  pub id : Text
  pub name : Text
  pub role : Option Text
  pub status : Text
  pub activity : Option Text
  pub attention : Option Attention
  pub service_role : Option Text
  pub last_seen : ℕ

-- A self-reported status, decayed to `offline` once it goes stale.
unfoldable pub roster_entry : ℕ → AgentRow → Option PresenceRow → Option WorkerRow → RosterEntry
unfolding is_fresh
roster_entry now a p w = record {
  id = a.id;
  name = a.name;
  role = a.role;
  status = elim p [
    | none ↦ codes "offline"
    | some q ↦ if is_fresh now q.ts then q.status else codes "offline"
  ];
  activity = elim p [ none ↦ none | some q ↦ q.activity ];
  attention = elim p [
    | none ↦ none
    | some q ↦
        if is_fresh now q.ts
        then elim q.attention [ none ↦ none | some t ↦ Attention.parse t ]
        else none
  ];
  service_role = elim w [ none ↦ none | some x ↦ some x.role ];
  last_seen = elim p [ none ↦ a.last_seen | some q ↦ q.ts ];
}

-- The joins with `agents`, `presence` and `service_workers`, row by row.
unfoldable pub roster_rows : ℕ → Store → List MemberRow → List RosterEntry
unfolding roster_entry
roster_rows now s [] = []
roster_rows now s (m ∷ ms) =
    let rest = roster_rows now s ms in
    elim (find (λ (a : AgentRow). a.id == m.agent) s.agents) [
      | none ↦ rest
      | some a ↦
          roster_entry now a (find (λ (p : PresenceRow). p.agent == a.id) s.presence)
            (find (worker_key m.room a.id) s.service_workers)
          ∷ rest
    ]

unfoldable pub roster : Text → ℕ → Store → List RosterEntry
unfolding roster_rows order_by
roster room now s =
    order_by (λ (e : RosterEntry). e.name)
      (roster_rows now s (select (λ m. m.room == room) s.members))
