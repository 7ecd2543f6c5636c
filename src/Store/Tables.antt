-- ===== src/Store/Tables.antt =====
-- crates/parler-hub/src/store.rs: the schema (MIGRATION, with the columns that Store::open adds), as
-- one record of tables. A table is the list of its rows in the order of its primary key `seq` or
-- `id` where it has one, else of insertion. Times are epoch milliseconds.
use parler_protocol.Prelude.{
  ℕ, ◌-◌, Text, ◌==◌, Bool, false, ◌&&◌, Option, none, some, List, [], leb,
}
use parler_protocol.Protocol.Parts.{Part}

pub record AgentRow : Type 0 where
  pub id : Text
  pub name : Text
  pub role : Option Text
  pub first_seen : ℕ
  pub last_seen : ℕ

pub record PresenceRow : Type 0 where
  pub agent : Text
  pub status : Text
  pub activity : Option Text
  pub attention : Option Text
  pub ts : ℕ

pub record RoomRow : Type 0 where
  pub name : Text
  pub kind : Text
  pub description : Option Text
  pub owner : Option Text
  pub created : ℕ

pub record MemberRow : Type 0 where
  pub room : Text
  pub agent : Text
  pub joined : ℕ
  pub cursor : ℕ

pub record MessageRow : Type 0 where
  pub seq : ℕ
  pub id : Text
  pub room : Text
  pub author : Text
  pub author_name : Text
  pub author_role : Option Text
  pub parts : Text
  pub mentions : Option Text
  pub reply_to : Option Text
  pub ts : ℕ
  pub tokens : ℕ
  pub client_id : Option Text

pub record WorkerRow : Type 0 where
  pub room : Text
  pub agent : Text
  pub role : Text
  pub registered : ℕ

pub record ClaimRow : Type 0 where
  pub room : Text
  pub message : Text
  pub worker : Text
  pub state : Text
  pub claimed : ℕ
  pub lease_until : ℕ

pub record DispatchRow : Type 0 where
  pub room : Text
  pub message : Text
  pub role : Text
  pub seq : ℕ

pub record FactRow : Type 0 where
  pub id : ℕ
  pub fkey : Option Text
  pub room : Option Text
  pub author : Text
  pub text : Text
  pub ts : ℕ
  pub embedding_model : Option Text

pub record InviteRow : Type 0 where
  pub code : Text
  pub room : Text
  pub kind : Text
  pub role : Option Text
  pub max_uses : ℕ
  pub uses : ℕ
  pub expires : ℕ
  pub created_by : Text
  pub require_approval : Bool
  pub created : ℕ

pub record JoinRequestRow : Type 0 where
  pub room : Text
  pub agent : Text
  pub status : Text
  pub requested : ℕ

pub record DirectoryRow : Type 0 where
  pub agent : Text
  pub visibility : Text
  pub card_json : Text
  pub card_sig : Option Text
  pub verified : Bool
  pub tags : Text
  pub skills : Text
  pub registered : ℕ
  pub updated : ℕ

pub record TokenRow : Type 0 where
  pub token : Text
  pub scope : Text
  pub expires : ℕ
  pub created_by : Text
  pub created : ℕ

pub record BlobRow : Type 0 where
  pub id : Text
  pub media_type : Option Text
  pub size : ℕ
  pub created : ℕ
  pub last_fetched : Option ℕ

pub record BlobRoomRow : Type 0 where
  pub blob : Text
  pub room : Text
  pub author : Text
  pub created : ℕ

pub record WaitlistRow : Type 0 where
  pub email : Text
  pub created_at : ℕ

-- The vector index: the f32 bit patterns of an embedding.
pub record VecRow : Type 0 where
  pub fact_id : ℕ
  pub embedding : List ℕ

-- `next_seq` and `next_fact` are the AUTOINCREMENT counters: one more than any id handed out.
pub record Store : Type 0 where
  pub agents : List AgentRow
  pub presence : List PresenceRow
  pub rooms : List RoomRow
  pub members : List MemberRow
  pub messages : List MessageRow
  pub next_seq : ℕ
  pub service_workers : List WorkerRow
  pub service_claims : List ClaimRow
  pub service_dispatches : List DispatchRow
  pub facts : List FactRow
  pub next_fact : ℕ
  pub vec_facts : List VecRow
  pub invites : List InviteRow
  pub join_requests : List JoinRequestRow
  pub directory : List DirectoryRow
  pub directory_tokens : List TokenRow
  pub blobs : List BlobRow
  pub blob_rooms : List BlobRoomRow
  pub waitlist : List WaitlistRow

-- What a call is refused with: the program's own `bail!`s, a violated constraint of the schema, and
-- text in a column that does not decode.
pub data Error : Type 0 where
  not_owner unknown_code code_expired denied used_up no_join_request not_terminal : Error
  constraint : Error
  bad_encoding : Error
  encode_failed : Error
  bad_dimension : Error

-- serde_json, which writes and reads the columns `parts` and `mentions`.
pub record Codec : Type 0 where
  pub encode : List Part → Option Text
  pub decode : Text → Option (List Part)
  pub encode_mentions : List Text → Option Text
  pub decode_mentions : Text → Option (List Text)

abbrev pub empty : Store
empty = record {
  agents = [];
  presence = [];
  rooms = [];
  members = [];
  messages = [];
  next_seq = 1;
  service_workers = [];
  service_claims = [];
  service_dispatches = [];
  facts = [];
  next_fact = 1;
  vec_facts = [];
  invites = [];
  join_requests = [];
  directory = [];
  directory_tokens = [];
  blobs = [];
  blob_rooms = [];
  waitlist = [];
}

-- Columns that hold a nullable text, compared as SQL compares them: NULL equals nothing.
unfoldable pub null_eq : Option Text → Text → Bool
null_eq none t = false
null_eq (some s) t = s == t

-- The key tests.
abbrev pub room_agent : Text → Text → MemberRow → Bool
room_agent room agent m = (m.room == room) && (m.agent == agent)

abbrev pub claim_key : Text → Text → ClaimRow → Bool
claim_key room message c = (c.room == room) && (c.message == message)

abbrev pub request_key : Text → Text → JoinRequestRow → Bool
request_key room agent r = (r.room == room) && (r.agent == agent)

abbrev pub worker_key : Text → Text → WorkerRow → Bool
worker_key room agent w = (w.room == room) && (w.agent == agent)

pub presence_stale_ms : ℕ
presence_stale_ms = 300000

-- `now - ts <= PRESENCE_STALE_MS`; a timestamp in the future counts as fresh, as it does there.
unfoldable pub is_fresh : ℕ → ℕ → Bool
unfolding presence_stale_ms
is_fresh now ts = leb (now - ts) presence_stale_ms
