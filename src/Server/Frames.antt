-- ===== src/Server/Frames.antt =====
-- crates/parler-protocol/src/hub.rs: what a client asks and what the hub answers.
-- An error keeps its code; its message, meant for people, is left out.
use parler_protocol.Prelude.{ℕ, Text, codes, Bool, Option, List}
use parler_protocol.Protocol.RoomKind.{RoomKind}
use parler_protocol.Protocol.TaskStatus.{TaskStatus}
use parler_protocol.Protocol.Visibility.{Visibility}
use parler_protocol.Protocol.Attention.{Attention}
use parler_protocol.Protocol.Parts.{Part}
use parler_protocol.Protocol.Cards.{AgentCard, DiscoverScope, DirectoryEntry}
use parler_protocol.Store.Rooms.{RoomInfo, RosterEntry}
use parler_protocol.Store.Messages.{StoredMessage}
use parler_protocol.Store.Invites.{JoinRequest}
use parler_protocol.Store.Facts.{Fact, RecallHit}

pub data Target : Type 0 where
  room : Text → Target
  dm : Text → Target
  service : Text → Target

pub data ClientFrame : Type 0 where
  hello : (id name : Text) (role nonce sig secret : Option Text) → ClientFrame
  invite :
      (kind : RoomKind) (room : Option Text) (ttl_secs max_uses : Option ℕ)
      (require_approval : Bool)
      → ClientFrame
  redeem : (code : Text) → ClientFrame
  join_requests : (room : Text) → ClientFrame
  resolve_join : (room agent : Text) (approve : Bool) → ClientFrame
  serve : (service : Text) → ClientFrame
  claim : (room message : Text) (lease_secs : Option ℕ) → ClientFrame
  queue : (room role : Text) (limit : Option ℕ) → ClientFrame
  complete : (room message : Text) (status : TaskStatus) → ClientFrame
  register : (card : AgentCard) (visibility : Visibility) (sig : Option Text) → ClientFrame
  discover :
      (scope : DiscoverScope) (query tag skill status : Option Text) (limit : Option ℕ)
      → ClientFrame
  lookup : (id : Text) → ClientFrame
  mint_directory_token : (ttl_secs : Option ℕ) → ClientFrame
  mint_watch : (room : Text) (ttl_secs : Option ℕ) → ClientFrame
  send :
      (target : Target) (parts : List Part) (mentions : Option (List Text))
      (reply_to client_id : Option Text)
      → ClientFrame
  pull : (room : Text) (since limit wait_secs ack : Option ℕ) → ClientFrame
  remember :
      (fact : Fact) (embedding : Option (List ℕ)) (embedding_model : Option Text) → ClientFrame
  recall :
      (query : Text) (room : Option Text) (limit : Option ℕ) (embedding : Option (List ℕ))
      (key : Option Text)
      → ClientFrame
  rooms : ClientFrame
  delete_room : (room : Text) → ClientFrame
  roster : (room : Text) → ClientFrame
  presence : (status : Text) (activity : Option Text) (attention : Option Attention) → ClientFrame
  set_attention : (attention : Attention) → ClientFrame
  put_blob : (target : Target) (sha256 : Text) (size : ℕ) (media_type : Option Text) → ClientFrame
  get_blob : (id : Text) → ClientFrame
  subscribe : ClientFrame
  ping : ClientFrame

-- The constants of the module `error_code`.
pub data ErrorCode : Type 0 where
  unauthenticated bad_frame protocol at_capacity timeout not_member unknown_service : ErrorCode
  invalid_invite not_owner rate_limited too_large storage_full not_authorized : ErrorCode
  unknown_blob invalid_card internal : ErrorCode

unfoldable pub code_text : ErrorCode → Text
code_text unauthenticated = codes "unauthenticated"
code_text bad_frame = codes "bad_frame"
code_text protocol = codes "protocol"
code_text at_capacity = codes "at_capacity"
code_text timeout = codes "timeout"
code_text not_member = codes "not_member"
code_text unknown_service = codes "unknown_service"
code_text invalid_invite = codes "invalid_invite"
code_text not_owner = codes "not_owner"
code_text rate_limited = codes "rate_limited"
code_text too_large = codes "too_large"
code_text storage_full = codes "storage_full"
code_text not_authorized = codes "not_authorized"
code_text unknown_blob = codes "unknown_blob"
code_text invalid_card = codes "invalid_card"
code_text internal = codes "internal"

pub data ServerFrame : Type 0 where
  challenge : (nonce : Text) (version : Option Text) → ServerFrame
  welcome : (id name : Text) → ServerFrame
  invited : (code url room : Text) (kind : RoomKind) (expires_at : ℕ) → ServerFrame
  joined : (room : Text) (kind : RoomKind) → ServerFrame
  claimed : (room message : Text) (is_claimed : Bool) (lease_until : Option ℕ) → ServerFrame
  queued : (room : Text) (messages : List StoredMessage) → ServerFrame
  completed : (room message : Text) (is_completed : Bool) → ServerFrame
  join_pending : (room : Text) → ServerFrame
  join_requests : (room : Text) (requests : List JoinRequest) → ServerFrame
  join_resolved : (room agent : Text) (approved : Bool) → ServerFrame
  registered : (id : Text) (visibility : Visibility) (verified : Bool) → ServerFrame
  directory : (agents : List DirectoryEntry) → ServerFrame
  card : (entry : Option DirectoryEntry) → ServerFrame
  directory_token : (token : Text) (expires_at : ℕ) → ServerFrame
  watch : (token room : Text) (expires_at : ℕ) → ServerFrame
  sent : (id : Text) (seq : ℕ) (room : Text) → ServerFrame
  pulled : (room : Text) (messages : List StoredMessage) (cursor : ℕ) → ServerFrame
  remembered : (ok : Bool) → ServerFrame
  recalled : (hits : List RecallHit) → ServerFrame
  rooms : (rooms : List RoomInfo) → ServerFrame
  room_deleted : (room : Text) → ServerFrame
  roster : (room : Text) (entries : List RosterEntry) → ServerFrame
  presence_ok : ServerFrame
  attention_ok : ServerFrame
  blob_ready : (id : Text) → ServerFrame
  blob_stored : (id : Text) (size : ℕ) → ServerFrame
  blob_incoming : (id : Text) (size : ℕ) (media_type : Option Text) → ServerFrame
  subscribed : ServerFrame
  delivery : (message : StoredMessage) → ServerFrame
  pong : ServerFrame
  error : (code : Option ErrorCode) → ServerFrame
