-- ===== src/Server/FrameBounds.antt =====
-- crates/parler-hub/src/server.rs, `validate_frame_bounds`: the sizes of a frame's fields.
use parler_protocol.Prelude.{
  ℕ, ◌*◌, Text, Bool, true, false, ◌&&◌, Option, none, some, List, [], ◌∷◌, length, leb,
}
use parler_protocol.Server.Frames.{Target, ClientFrame}
use parler_protocol.Server.Bytes.{byte_len}
use parler_protocol.Server.Hello.{max_control_string_bytes, fits}
use parler_protocol.Server.State.{Config, Library}

abbrev pub max_query_bytes : ℕ
max_query_bytes = 64 * 1024

abbrev pub bounded_string : ℕ → Text → Bool
bounded_string bound t = leb (byte_len t) bound

abbrev pub control : Text → Bool
control = bounded_string max_control_string_bytes

abbrev pub optional_control : Option Text → Bool
optional_control = fits max_control_string_bytes

unfoldable pub bounded_target : Target → Bool
bounded_target (Target.room r) = control r
bounded_target (Target.dm agent) = control agent
bounded_target (Target.service s) = control s

-- The length that serde_json would write, where a failure counts as too long.
abbrev pub serialized_within : ℕ → Option ℕ → Bool
serialized_within bound none = false
serialized_within bound (some n) = leb n bound

abbrev pub every : (Text → Bool) → List Text → Bool
every p [] = true
every p (x ∷ xs) = p x && every p xs

abbrev pub bounded_mentions : Option (List Text) → Bool
bounded_mentions none = true
bounded_mentions (some ms) = leb (length ms) 256 && every control ms

-- Every refusal is `TOO_LARGE`; the model keeps whether there is one.
unfoldable pub validate_frame_bounds : Config → Library → ClientFrame → Bool
validate_frame_bounds c l (ClientFrame.hello id name role echoed sig secret) = true
validate_frame_bounds c l (ClientFrame.invite kind room ttl uses approval) = optional_control room
validate_frame_bounds c l (ClientFrame.redeem code) = control code
validate_frame_bounds c l (ClientFrame.join_requests room) = control room
validate_frame_bounds c l (ClientFrame.delete_room room) = control room
validate_frame_bounds c l (ClientFrame.roster room) = control room
validate_frame_bounds c l (ClientFrame.resolve_join room agent approve) =
    control room && control agent
validate_frame_bounds c l (ClientFrame.serve name) = control name
validate_frame_bounds c l (ClientFrame.claim room message lease) = control room && control message
validate_frame_bounds c l (ClientFrame.complete room message status) =
    control room && control message
validate_frame_bounds c l (ClientFrame.queue room role limit) = control room && control role
validate_frame_bounds c l (ClientFrame.register card visibility sig) =
    serialized_within c.max_message_bytes (l.frame_bytes (ClientFrame.register card visibility sig))
validate_frame_bounds c l (ClientFrame.discover scope query tag skill status limit) =
    fits max_query_bytes query
    && (optional_control tag && (optional_control skill && optional_control status))
validate_frame_bounds c l (ClientFrame.lookup id) = control id
validate_frame_bounds c l (ClientFrame.mint_directory_token ttl) = true
validate_frame_bounds c l (ClientFrame.mint_watch room ttl) = control room
validate_frame_bounds c l (ClientFrame.send target parts mentions reply_to client_id) =
    bounded_target target
    && (serialized_within c.max_message_bytes (l.parts_bytes parts)
        && (bounded_mentions mentions && (optional_control reply_to && optional_control client_id)))
validate_frame_bounds c l (ClientFrame.pull room since limit wait ack) = control room
validate_frame_bounds c l (ClientFrame.remember fact embedding model) =
    serialized_within c.max_message_bytes
      (l.frame_bytes (ClientFrame.remember fact embedding model))
    && (bounded_string c.max_message_bytes fact.text
        && (optional_control fact.key && (optional_control fact.room && optional_control model)))
validate_frame_bounds c l (ClientFrame.recall query room limit embedding key) =
    serialized_within c.max_message_bytes
      (l.frame_bytes (ClientFrame.recall query room limit embedding key))
    && (bounded_string max_query_bytes query && (optional_control room && optional_control key))
validate_frame_bounds c l ClientFrame.rooms = true
validate_frame_bounds c l (ClientFrame.presence status activity attention) =
    control status && optional_control activity
validate_frame_bounds c l (ClientFrame.set_attention attention) = true
validate_frame_bounds c l (ClientFrame.put_blob target sha256 size media_type) =
    bounded_target target && (bounded_string 128 sha256 && fits 256 media_type)
validate_frame_bounds c l (ClientFrame.get_blob id) = bounded_string 128 id
validate_frame_bounds c l ClientFrame.subscribe = true
validate_frame_bounds c l ClientFrame.ping = true
