-- ===== src/Server/State.antt =====
-- crates/parler-hub/src/server.rs: the hub's settings, what it keeps in memory beside its store,
-- and a connection.
use parler_protocol.Prelude.{ℕ, Text, Bool, Option, none, some, List, Outcome, ok, err}
use parler_protocol.Protocol.Parts.{Part}
use parler_protocol.Protocol.Cards.{AgentCard}
use parler_protocol.Store.Tables.{Store, Error, Codec}
use parler_protocol.Store.Messages.{StoredMessage}
use parler_protocol.Store.Directory.{CardCodec}
use parler_protocol.Store.Facts.{RecallHit}
use parler_protocol.Server.Windows.{RateLimits, Rates, Table}
use parler_protocol.Server.Frames.{ClientFrame, ServerFrame, ErrorCode}

-- The fields of `HubState` that no request changes.
pub record Config : Type 0 where
  pub public_url : Text
  pub name : Text
  pub limits : RateLimits
  pub join_secret : Option Text
  pub max_message_bytes : ℕ
  pub max_text_frame_bytes : ℕ
  pub max_blob_bytes : ℕ
  pub max_blob_dir_bytes : ℕ
  pub max_owned_rooms : ℕ
  pub max_active_tokens : ℕ
  pub max_keyed_facts : ℕ

-- What the hub calls of other packages: serde_json, ed25519 and SHA-256 under parler-auth, the
-- BM25 and vector search of SQLite, and `str::to_lowercase` among the codec of cards.
pub record Library : Type 0 where
  pub codec : Codec
  pub cards : CardCodec
  pub canonical_card_bytes : AgentCard → Text
  pub verify : Text → Text → Text → Bool
  pub content_id : Text → Text
  pub parts_bytes : List Part → Option ℕ
  pub frame_bytes : ClientFrame → Option ℕ
  pub search :
      Text
      → Text
      → Option Text
      → Option ℕ
      → Option (List ℕ)
      → Store
      → Outcome Error (List RecallHit)

-- What `try_send` on a connection's channel gives.
pub data Push : Type 0 where
  sent full closed : Push

-- What one request draws: its reading of the clock, the random texts it would use, and the state
-- of the connections' channels. The source
-- reads the clock again in a later step of the same request; the model reads it once.
pub record Draw : Type 0 where
  pub now : ℕ
  pub suffix : Text
  pub code : Text
  pub token : Text
  pub id : Text
  pub channel : ℕ → Push

-- Of the counters, those that sends change.
pub record Metrics : Type 0 where
  pub messages_total : ℕ
  pub tokens_total : ℕ
  pub pushes_total : ℕ

-- `subscribers` holds the numbers of an agent's subscribed connections, `pushed` the messages handed
-- to channels so far, and `files` the bytes under `blob_dir`.
pub record Hub : Type 0 where
  pub store : Store
  pub rates : Rates
  pub subscribers : Table (List ℕ)
  pub metrics : Metrics
  pub pushed : List (ℕ × StoredMessage)
  pub files : Table Text

pub record Authed : Type 0 where
  pub id : Text
  pub name : Text
  pub role : Option Text

pub record PendingUpload : Type 0 where
  pub id : Text
  pub room : Text
  pub author : Text
  pub size : ℕ
  pub media_type : Option Text

pub record ConnState : Type 0 where
  pub nonce : Option Text
  pub authed : Option Authed
  pub upload : Option PendingUpload
  pub conn_id : ℕ
  pub hello_frames : ℕ

-- An `anyhow::Error` of the server: with a code, without one, or the store's, which has none.
pub data Refusal : Type 0 where
  coded : ErrorCode → Refusal
  uncoded : Refusal
  of_store : Error → Refusal

unfoldable pub error_frame : Refusal → ServerFrame
error_frame (coded c) = ServerFrame.error (some c)
error_frame uncoded = ServerFrame.error none
error_frame (of_store e) = ServerFrame.error none

-- A request's outcome and the state after it.
abbrev pub Answer : Type 0 → Type 0
Answer S = Outcome Refusal ServerFrame × S

abbrev pub refuse : {S : Type 0} → ErrorCode → S → Answer S
refuse c s = (err (coded c), s)

-- `?` on a call of the store, and the frame that its result goes into.
abbrev pub reply : {S A : Type 0} → (A → ServerFrame) → Outcome Error A × S → Answer S
reply f r = elim r.0 [ ok a ↦ (ok (f a), r.1) | err e ↦ (err (of_store e), r.1) ]

-- The same for a call that only reads.
abbrev pub answer : {S A : Type 0} → (A → ServerFrame) → S → Outcome Error A → Answer S
answer f s o = elim o [ ok a ↦ (ok (f a), s) | err e ↦ (err (of_store e), s) ]

-- A request that only uses the store.
abbrev pub in_store : (Store → Answer Store) → Hub → Answer Hub
in_store f h = ((f h.store).0, record h { store = (f h.store).1 })
