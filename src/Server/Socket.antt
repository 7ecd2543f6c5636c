-- ===== src/Server/Socket.antt =====
-- crates/parler-hub/src/server.rs, `handle_socket`: what a connection does with each message.
-- Waiting on the socket and its timeouts are left out.
pub mod Integrity
use parler_protocol.Prelude.{
  ℕ, Text, Bool, true, false, Option, none, some, List, ltb, if◌then◌else◌, Outcome, ok, err,
}
use parler_protocol.Store.Tables.{Store}
use parler_protocol.Server.Frames.{ClientFrame, ServerFrame, too_large, bad_frame, protocol}
use parler_protocol.Server.State.{Config, Library, Draw, Hub, Authed, ConnState, in_store}
use parler_protocol.Server.Sending.{waited_pull, unsubscribe}
use parler_protocol.Server.Uploads.{Reply, frame, finish_blob_upload}
use parler_protocol.Server.Dispatch.{Step, as_frame, refused, dispatch}

-- The reply, and whether the connection goes on.
abbrev pub Served : Type 0
Served = Bool × Step

-- A pull with a wait: on an authenticated connection it is served here, in the rounds that the
-- reader looks, and not by `dispatch`.
abbrev pub serve_pull :
    Config
    → Library
    → Draw
    → Bool
    → List (Store → Store)
    → Text
    → Option ℕ
    → Option ℕ
    → ℕ
    → Option ℕ
    → Option Authed
    → ConnState
    → Hub
    → Step
serve_pull c l d permit rounds room since limit secs ack none conn h =
    dispatch c l d permit (ClientFrame.pull room since limit (some secs) ack) conn h
serve_pull c l d permit rounds room since limit secs ack (some me) conn h =
    let r = in_store (waited_pull l me room since limit ack rounds) h in (as_frame r.0, (conn, r.1))

abbrev pub serve_frame :
    Config → Library → Draw → Bool → List (Store → Store) → ClientFrame → ConnState → Hub → Step
serve_frame c l d permit rounds (ClientFrame.pull room since limit (some secs) ack) conn h =
    serve_pull c l d permit rounds room since limit secs ack conn.authed conn h
serve_frame c l d permit rounds f conn h = dispatch c l d permit f conn h

-- A text message of some length, which serde_json reads as a frame or not.
unfoldable pub receive_text :
    Config
    → Library
    → Draw
    → Bool
    → List (Store → Store)
    → ℕ
    → Option ClientFrame
    → ConnState
    → Hub
    → Served
receive_text c l d permit rounds size decoded conn h =
    if ltb c.max_text_frame_bytes size then (false, refused too_large conn h) else elim decoded [
      | none ↦ (true, refused bad_frame conn h)
      | some f ↦ (true, serve_frame c l d permit rounds f conn h)
    ]

-- The bytes of a reserved upload, which is consumed.
unfoldable pub receive_binary : Config → Library → Draw → Text → ConnState → Hub → Served
receive_binary c l d bytes conn h = elim conn.upload [
  | none ↦ (false, refused protocol conn h)
  | some p ↦
      let r = finish_blob_upload c l d p bytes h in
      (true, (frame r.0, (record conn { upload = none }, r.1)))
]

unfoldable pub disconnect : ConnState → Hub → Hub
disconnect conn h = elim conn.authed [ none ↦ h | some me ↦ unsubscribe me.id conn.conn_id h ]
