-- ===== src/Store/Rooms/Deletion.antt =====
-- delete_room: the rows of the room, and those of the other rooms.
use parler_protocol.Prelude.{
  select-delete_self, select-delete, Text, ◌==◌, eq_iff, ◌≡◌, refl, ap, ◌≢◌, inl, inr, true, false,
  Bool-cases, Option, none, some, List, [], arith, drop, select, ok,
}
use parler_protocol.Store.Tables.{
  Store, MemberRow, MessageRow, InviteRow, RoomRow, FactRow, TokenRow, BlobRoomRow, JoinRequestRow,
  null_eq,
}
use parler_protocol.Store.Rooms.{room_owned_by, delete_room, watch_scope}

-- What the tables hold of one room.
pub record RoomRows : Type 0 where
  pub rooms : List RoomRow
  pub members : List MemberRow
  pub messages : List MessageRow
  pub invites : List InviteRow
  pub requests : List JoinRequestRow
  pub facts : List FactRow
  pub links : List BlobRoomRow
  pub watches : List TokenRow

abbrev pub rows_of : Text → Store → RoomRows
rows_of room s = record {
  rooms = select (λ r. r.name == room) s.rooms;
  members = select (λ m. m.room == room) s.members;
  messages = select (λ m. m.room == room) s.messages;
  invites = select (λ i. i.room == room) s.invites;
  requests = select (λ r. r.room == room) s.join_requests;
  facts = select (λ f. null_eq f.room room) s.facts;
  links = select (λ b. b.room == room) s.blob_rooms;
  watches = select (λ t. t.scope == watch_scope room) s.directory_tokens;
}

abbrev pub no_rows : RoomRows
no_rows = record {
  rooms = [];
  members = [];
  messages = [];
  invites = [];
  requests = [];
  facts = [];
  links = [];
  watches = [];
}

-- A deletion by the owner succeeds and leaves no row of the room among the rooms, members,
-- messages, invites, join requests, facts, blob links and watch tokens.
pub delete_room-rows_of :
    (room owner : Text) (s : Store)
    → room_owned_by room owner s ≡ true
    → ((delete_room room owner s).0 ≡ ok tt) × (rows_of room (delete_room room owner s).1 ≡ no_rows)
unfolding delete_room
delete_room-rows_of room owner s mine =
    rw (mine, delete_room) (refl, simp (select-delete_self) refl)

key_apart : (t room other : Text) → other ≢ room → t == room ≡ true → t == other ≡ false
key_apart t room other apart h =
    ground (arith, eq_iff t room, eq_iff t other, eq_iff other room, apart)

null_eq_apart :
    (room other : Text) (o : Option Text)
    → other ≢ room
    → null_eq o room ≡ true
    → null_eq o other ≡ false
unfolding null_eq
null_eq_apart room other none apart h = refl
null_eq_apart room other (some t) apart h = key_apart t room other apart h

watch_apart : (room other : Text) → other ≢ room → watch_scope other ≢ watch_scope room
watch_apart room other apart e = apart (ap (drop 6) e)

-- Whoever asks, deleting a room leaves those rows of every other room as they were.
pub delete_room-others :
    (room owner other : Text) (s : Store)
    → other ≢ room
    → rows_of other (delete_room room owner s).1 ≡ rows_of other s
unfolding delete_room
delete_room-others room owner other s apart = elim (Bool-cases (room_owned_by room owner s)) [
  | inr stranger ↦ rw (stranger, delete_room) refl
  | inl mine ↦
      rw (mine, delete_room)
        (λ i. record {
          rooms =
              select-delete (λ (r : RoomRow). r.name == room) (λ r. r.name == other)
                (λ r. key_apart r.name room other apart) s.rooms i;
          members =
              select-delete (λ (r : MemberRow). r.room == room) (λ r. r.room == other)
                (λ r. key_apart r.room room other apart) s.members i;
          messages =
              select-delete (λ (r : MessageRow). r.room == room) (λ r. r.room == other)
                (λ r. key_apart r.room room other apart) s.messages i;
          invites =
              select-delete (λ (r : InviteRow). r.room == room) (λ r. r.room == other)
                (λ r. key_apart r.room room other apart) s.invites i;
          requests =
              select-delete (λ (r : JoinRequestRow). r.room == room) (λ r. r.room == other)
                (λ r. key_apart r.room room other apart) s.join_requests i;
          links =
              select-delete (λ (r : BlobRoomRow). r.room == room) (λ r. r.room == other)
                (λ r. key_apart r.room room other apart) s.blob_rooms i;
          facts =
              select-delete (λ (f : FactRow). null_eq f.room room) (λ f. null_eq f.room other)
                (λ f. null_eq_apart room other f.room apart) s.facts i;
          watches =
              select-delete (λ (t : TokenRow). t.scope == watch_scope room)
                (λ t. t.scope == watch_scope other)
                (λ t.
                  key_apart t.scope (watch_scope room) (watch_scope other)
                    (watch_apart room other apart))
                s.directory_tokens i;
        })
]
