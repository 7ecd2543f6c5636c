-- ===== src/Server/Socket/Integrity.antt =====
-- crates/parler-hub/src/server.rs: what each message does to the files of blobs.
use parler_protocol.Prelude.{
  ℕ, Text, ◌==◌, Text-eq_symm, ◌≡◌, refl, ◌∙◌, Bool, true, not, Option, none, some, List, length,
  ltb, eqb, Bool-cases, Option-cases, inl, inr, choose,
}
use parler_protocol.Store.Tables.{Store}
use parler_protocol.Server.Frames.{ClientFrame}
use parler_protocol.Server.State.{Config, Library, Draw, Hub, Authed, ConnState, PendingUpload}
use parler_protocol.Server.Uploads.{finish_blob_upload}
use parler_protocol.Server.Dispatch.{Step}
use parler_protocol.Server.Socket.{receive_text, receive_binary, serve_frame, serve_pull}
use parler_protocol.Server.Sending.Files.{SameAt}
use parler_protocol.Server.Dispatch.Files.{dispatch-files}

serve_frame-files :
    (c : Config) (l : Library) (d : Draw) (permit : Bool) (rounds : List (Store → Store))
    (f : ClientFrame) (conn : ConnState) (h : Hub)
    → SameAt h (serve_frame c l d permit rounds f conn h).1
serve_frame-files c l d permit rounds (ClientFrame.invite kind room ttl uses approval) conn h =
    dispatch-files c l d permit (ClientFrame.invite kind room ttl uses approval) conn h
serve_frame-files c l d permit rounds (ClientFrame.redeem code) conn h =
    dispatch-files c l d permit (ClientFrame.redeem code) conn h
serve_frame-files c l d permit rounds (ClientFrame.join_requests room) conn h =
    dispatch-files c l d permit (ClientFrame.join_requests room) conn h
serve_frame-files c l d permit rounds (ClientFrame.resolve_join room agent approve) conn h =
    dispatch-files c l d permit (ClientFrame.resolve_join room agent approve) conn h
serve_frame-files c l d permit rounds (ClientFrame.serve name) conn h =
    dispatch-files c l d permit (ClientFrame.serve name) conn h
serve_frame-files c l d permit rounds (ClientFrame.claim room message lease) conn h =
    dispatch-files c l d permit (ClientFrame.claim room message lease) conn h
serve_frame-files c l d permit rounds (ClientFrame.queue room role limit) conn h =
    dispatch-files c l d permit (ClientFrame.queue room role limit) conn h
serve_frame-files c l d permit rounds (ClientFrame.complete room message status) conn h =
    dispatch-files c l d permit (ClientFrame.complete room message status) conn h
serve_frame-files c l d permit rounds (ClientFrame.register card visibility sig) conn h =
    dispatch-files c l d permit (ClientFrame.register card visibility sig) conn h
serve_frame-files c l d permit rounds (ClientFrame.discover scope query tag skill status limit) conn
      h =
    dispatch-files c l d permit (ClientFrame.discover scope query tag skill status limit) conn h
serve_frame-files c l d permit rounds (ClientFrame.lookup id) conn h =
    dispatch-files c l d permit (ClientFrame.lookup id) conn h
serve_frame-files c l d permit rounds (ClientFrame.mint_directory_token ttl) conn h =
    dispatch-files c l d permit (ClientFrame.mint_directory_token ttl) conn h
serve_frame-files c l d permit rounds (ClientFrame.mint_watch room ttl) conn h =
    dispatch-files c l d permit (ClientFrame.mint_watch room ttl) conn h
serve_frame-files c l d permit rounds (ClientFrame.remember fact embedding model) conn h =
    dispatch-files c l d permit (ClientFrame.remember fact embedding model) conn h
serve_frame-files c l d permit rounds (ClientFrame.recall query room limit embedding key) conn h =
    dispatch-files c l d permit (ClientFrame.recall query room limit embedding key) conn h
serve_frame-files c l d permit rounds ClientFrame.rooms conn h =
    dispatch-files c l d permit ClientFrame.rooms conn h
serve_frame-files c l d permit rounds (ClientFrame.delete_room room) conn h =
    dispatch-files c l d permit (ClientFrame.delete_room room) conn h
serve_frame-files c l d permit rounds (ClientFrame.roster room) conn h =
    dispatch-files c l d permit (ClientFrame.roster room) conn h
serve_frame-files c l d permit rounds (ClientFrame.presence status activity attention) conn h =
    dispatch-files c l d permit (ClientFrame.presence status activity attention) conn h
serve_frame-files c l d permit rounds (ClientFrame.set_attention attention) conn h =
    dispatch-files c l d permit (ClientFrame.set_attention attention) conn h
serve_frame-files c l d permit rounds ClientFrame.ping conn h =
    dispatch-files c l d permit ClientFrame.ping conn h
serve_frame-files c l d permit rounds (ClientFrame.send target parts mentions reply_to client_id)
      conn h =
    dispatch-files c l d permit (ClientFrame.send target parts mentions reply_to client_id) conn h
serve_frame-files c l d permit rounds (ClientFrame.put_blob target sha256 size media_type) conn h =
    dispatch-files c l d permit (ClientFrame.put_blob target sha256 size media_type) conn h
serve_frame-files c l d permit rounds (ClientFrame.get_blob id) conn h =
    dispatch-files c l d permit (ClientFrame.get_blob id) conn h
serve_frame-files c l d permit rounds ClientFrame.subscribe conn h =
    dispatch-files c l d permit ClientFrame.subscribe conn h
serve_frame-files c l d permit rounds (ClientFrame.hello id name role echoed sig secret) conn h =
    dispatch-files c l d permit (ClientFrame.hello id name role echoed sig secret) conn h
serve_frame-files c l d permit rounds (ClientFrame.pull room since limit none ack) conn h =
    dispatch-files c l d permit (ClientFrame.pull room since limit none ack) conn h
serve_frame-files c l d permit rounds (ClientFrame.pull room since limit (some secs) ack) conn h =
    waits conn.authed
  where
    waits :
        (a : Option Authed)
        → SameAt h (serve_pull c l d permit rounds room since limit secs ack a conn h).1
    waits none =
        dispatch-files c l d permit (ClientFrame.pull room since limit (some secs) ack) conn h
    waits (some me) = refl

-- A message of a client: text, read as a frame or not, or the bytes of an upload.
pub data Message : Type 0 where
  as_text :
      (permit : Bool) (rounds : List (Store → Store)) (size : ℕ) (decoded : Option ClientFrame)
      → Message
  as_bytes : (bytes : Text) → Message

abbrev pub receive : Config → Library → Draw → Message → ConnState → Hub → ConnState × Hub
receive c l d (as_text permit rounds size decoded) conn h =
    (receive_text c l d permit rounds size decoded conn h).1.1
receive c l d (as_bytes bytes) conn h = (receive_binary c l d bytes conn h).1.1

-- Every file holds bytes whose content id is its name.
abbrev pub is_intact : Library → Hub → Text → Bool
is_intact l h id = elim (h.files id) [ none ↦ true | some bytes ↦ l.content_id bytes == id ]

abbrev pub AreIntact : Library → Hub → Type 0
AreIntact l h = (id : Text) → is_intact l h id ≡ true

AreIntact-same : (l : Library) (h x : Hub) → x.files ≡ h.files → AreIntact l h → AreIntact l x
AreIntact-same l h x same fine id = rw (same) (fine id)

finish_blob_upload-AreIntact :
    (c : Config) (l : Library) (d : Draw) (p : PendingUpload) (bytes : Text) (h : Hub)
    → AreIntact l h
    → AreIntact l (finish_blob_upload c l d p bytes h).1
unfolding finish_blob_upload
finish_blob_upload-AreIntact c l d p bytes h fine =
    choose (AreIntact l) (not (eqb (length bytes) p.size)) _ _ (λ t. fine)
      λ f.
        choose (AreIntact l) (ltb c.max_blob_bytes (length bytes)) _ _ (λ t. fine)
          λ f.
            choose (AreIntact l) (not (l.content_id bytes == p.id)) _ _ (λ t. fine)
              λ f id. elim (Bool-cases (id == l.content_id bytes)) [
                | inl same ↦ rw (same, is_intact) (Text-eq_symm (l.content_id bytes) id ∙ same)
                | inr other ↦ rw (other, is_intact) (fine id)
              ]

-- Whatever a client sends, and however a connection stands, every file of a blob stays under the
-- content id of its bytes.
pub receive-AreIntact :
    (c : Config) (l : Library) (d : Draw) (m : Message) (conn : ConnState) (h : Hub)
    → AreIntact l h
    → AreIntact l (receive c l d m conn h).1
unfolding receive_text receive_binary
receive-AreIntact c l d (as_text permit rounds size none) conn h fine =
    choose (λ (x : Step). AreIntact l x.1.1) (ltb c.max_text_frame_bytes size) _ _ (λ t. fine)
      (λ f. fine)
receive-AreIntact c l d (as_text permit rounds size (some f)) conn h fine =
    choose (λ (x : Step). AreIntact l x.1.1) (ltb c.max_text_frame_bytes size) _ _ (λ t. fine)
      λ t.
        AreIntact-same l h (serve_frame c l d permit rounds f conn h).1.1
          (serve_frame-files c l d permit rounds f conn h) fine
receive-AreIntact c l d (as_bytes bytes) conn h fine = elim (Option-cases conn.upload) [
  | inl nothing ↦ rw (nothing, receive_binary) fine
  | inr (p, has) ↦ rw (has, receive_binary) (finish_blob_upload-AreIntact c l d p bytes h fine)
]
