-- ===== src/Examples.antt =====
-- Concrete inputs: the theorems applied, and the operations run.
mod Messages
mod Service
mod Rooms
mod Invites
mod Attention
mod Subjects
mod Data
mod Server
mod Sends
mod Directory
use parler_protocol.Prelude.{ℕ, ◌*◌, Text, codes, Option, none, some, List, [], ◌∷◌}
use parler_protocol.Protocol.Parts.{Part, text, EndpointRef, dispatch_to_part}
use parler_protocol.Store.Tables.{
  Store, Codec, empty, MessageRow, MemberRow, WorkerRow, PresenceRow, RoomRow,
}

-- A codec for parts that are one text and a dispatch to the role `build`.
abbrev pub write_parts : List Part → Option Text
write_parts (text t ∷ _) = some t
write_parts _ = none

abbrev pub sample_parts : Text → List Part
sample_parts t = text t ∷ dispatch_to_part (record { role = codes "build" }) ∷ []

abbrev pub codec : Codec
codec = record {
  encode = write_parts;
  decode = λ t. some (sample_parts t);
  encode_mentions = λ ms. some [];
  decode_mentions = λ t. some [];
}

abbrev pub den : Text
den = codes "den"

abbrev pub ann : Text
ann = codes "ann"

abbrev pub bob : Text
bob = codes "bob"

abbrev pub cat : Text
cat = codes "cat"

abbrev pub note : Text
note = codes "m1"

abbrev pub from_ann : EndpointRef
from_ann = record { id = ann; name = codes "Ann"; role = none }

abbrev pub message : ℕ → Text → MessageRow
message seq id = record {
  seq = seq;
  id = id;
  room = den;
  author = ann;
  author_name = codes "Ann";
  author_role = none;
  parts = codes "hi";
  mentions = none;
  reply_to = none;
  ts = 10 * seq;
  tokens = 1;
  client_id = none;
}

abbrev pub member : Text → MemberRow
member agent = record { room = den; agent = agent; joined = 1; cursor = 0 }

abbrev pub worker : Text → WorkerRow
worker agent = record { room = den; agent = agent; role = codes "build"; registered = 1 }

abbrev pub idle : Text → PresenceRow
idle agent = record {
  agent = agent;
  status = codes "idle";
  activity = none;
  attention = none;
  ts = 5;
}

abbrev pub den_row : RoomRow
den_row = record {
  name = den;
  kind = codes "dm";
  description = none;
  owner = some ann;
  created = 1;
}

-- One room of Ann's with Bob, and two messages in it.
abbrev pub hub : Store
hub = record empty {
  rooms = den_row ∷ [];
  members = member ann ∷ member bob ∷ [];
  messages = message 1 note ∷ message 2 (codes "m2") ∷ [];
  next_seq = 3;
  service_workers = worker bob ∷ worker cat ∷ [];
  presence = idle bob ∷ idle cat ∷ [];
}
