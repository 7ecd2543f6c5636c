-- ===== src/Server/Dispatch.antt =====
-- crates/parler-hub/src/server.rs: from a client's frame to the reply.
pub mod Files
pub mod Authentication
pub mod Cases
use parler_protocol.Prelude.{
  ℕ, ◌+◌, Text, Bool, true, false, not, Option, none, some, is_some, List, ltb, min, if◌then◌else◌,
  Outcome, ok, err,
}
use parler_protocol.Store.Tables.{Store}
use parler_protocol.Server.Windows.{RateKind, rate_allows}
use parler_protocol.Server.Frames.{
  ClientFrame, ServerFrame, ErrorCode, protocol, rate_limited, unauthenticated, too_large,
  bad_frame,
}
use parler_protocol.Server.State.{
  Config, Library, Draw, Hub, Authed, ConnState, Refusal, uncoded, error_frame, Answer, in_store,
}
use parler_protocol.Server.RoomRequests.{
  handle_invite, handle_redeem, handle_join_requests, handle_resolve_join, handle_serve,
  handle_rooms, handle_delete_room, handle_roster,
}
use parler_protocol.Server.WorkRequests.{handle_claim, handle_queue, handle_complete}
use parler_protocol.Server.RecordRequests.{
  handle_register, handle_discover, handle_lookup, handle_mint_directory_token, handle_mint_watch,
  handle_remember, handle_recall, handle_presence, handle_set_attention, handle_ping,
}
use parler_protocol.Server.Sending.{subscribe, handle_send, handle_pull, waited_pull}
use parler_protocol.Server.Uploads.{
  Reply, frame, handle_put_blob, handle_get_blob, finish_blob_upload,
}
use parler_protocol.Server.Hello.{handle_hello}
use parler_protocol.Server.FrameBounds.{validate_frame_bounds}

-- The frames that `dispatch` handles itself do not come here.
unfoldable pub handle_authed : Config → Library → Draw → Authed → ClientFrame → Hub → Answer Hub
handle_authed c l d me (ClientFrame.hello id name role echoed sig secret) h = (err uncoded, h)
handle_authed c l d me (ClientFrame.register card visibility sig) h =
    in_store (handle_register l d me card visibility sig) h
handle_authed c l d me (ClientFrame.discover scope query tag skill status limit) h =
    in_store (handle_discover c l d scope query tag skill status limit) h
handle_authed c l d me (ClientFrame.lookup id) h = in_store (handle_lookup c l d id) h
handle_authed c l d me (ClientFrame.mint_directory_token ttl) h =
    in_store (handle_mint_directory_token c d me ttl) h
handle_authed c l d me (ClientFrame.mint_watch room ttl) h =
    in_store (handle_mint_watch c d me room ttl) h
handle_authed c l d me (ClientFrame.invite kind room ttl uses approval) h =
    in_store (handle_invite c d me kind room ttl uses approval) h
handle_authed c l d me (ClientFrame.redeem code) h = in_store (handle_redeem d me code) h
handle_authed c l d me (ClientFrame.join_requests room) h =
    in_store (handle_join_requests me room) h
handle_authed c l d me (ClientFrame.resolve_join room agent approve) h =
    in_store (handle_resolve_join d me room agent approve) h
handle_authed c l d me (ClientFrame.serve name) h = in_store (handle_serve c d me name) h
handle_authed c l d me (ClientFrame.claim room message lease) h =
    in_store (handle_claim l d me room message lease) h
handle_authed c l d me (ClientFrame.queue room role limit) h =
    in_store (handle_queue l d me room role limit) h
handle_authed c l d me (ClientFrame.complete room message status) h =
    in_store (handle_complete d me room message status) h
handle_authed c l d me (ClientFrame.send target parts mentions reply_to client_id) h =
    handle_send c l d me target parts mentions reply_to client_id h
handle_authed c l d me (ClientFrame.pull room since limit wait ack) h =
    in_store (handle_pull l me room since limit ack) h
handle_authed c l d me (ClientFrame.remember fact embedding model) h =
    in_store (handle_remember c d me fact embedding model) h
handle_authed c l d me (ClientFrame.recall query room limit embedding key) h =
    in_store (handle_recall l me query room limit embedding key) h
handle_authed c l d me ClientFrame.rooms h = in_store (handle_rooms me) h
handle_authed c l d me (ClientFrame.delete_room room) h = in_store (handle_delete_room me room) h
handle_authed c l d me (ClientFrame.roster room) h = in_store (handle_roster d me room) h
handle_authed c l d me (ClientFrame.presence status activity attention) h =
    in_store (handle_presence d me status activity attention) h
handle_authed c l d me (ClientFrame.set_attention attention) h =
    in_store (handle_set_attention d me attention) h
handle_authed c l d me ClientFrame.ping h = in_store (handle_ping d me) h
handle_authed c l d me (ClientFrame.put_blob target sha256 size media_type) h = (err uncoded, h)
handle_authed c l d me (ClientFrame.get_blob id) h = (err uncoded, h)
handle_authed c l d me ClientFrame.subscribe h = (err uncoded, h)

-- A connection, the hub, and the reply to it.
abbrev pub Step : Type 0
Step = Reply × (ConnState × Hub)

abbrev pub to_reply : Outcome Refusal Reply → Reply
to_reply (ok r) = r
to_reply (err e) = frame (error_frame e)

abbrev pub as_frame : Outcome Refusal ServerFrame → Reply
as_frame (ok f) = frame f
as_frame (err e) = frame (error_frame e)

abbrev pub refused : ErrorCode → ConnState → Hub → Step
refused e conn h = (frame (ServerFrame.error (some e)), (conn, h))

-- Which handler a frame goes to; `permit` is the answer of the pool of upload bytes.
abbrev pub route : Config → Library → Draw → Bool → Authed → ClientFrame → ConnState → Hub → Step
route c l d permit me (ClientFrame.put_blob target sha256 size media_type) conn h =
    let r = handle_put_blob c d permit me target sha256 size media_type conn h in
    (to_reply r.0, r.1)
route c l d permit me (ClientFrame.get_blob id) conn h =
    let r = handle_get_blob d me id h in (to_reply r.0, (conn, r.1))
route c l d permit me ClientFrame.subscribe conn h =
    (frame ServerFrame.subscribed, (conn, subscribe me.id conn.conn_id h))
route c l d permit me f conn h = let r = handle_authed c l d me f h in (as_frame r.0, (conn, r.1))

-- A frame after the handshake: charged first, then measured, then handled.
abbrev pub dispatch_authed :
    Config → Library → Draw → Bool → Authed → ClientFrame → ConnState → Hub → Step
dispatch_authed c l d permit me f conn h =
    let (allowed, m) = rate_allows c.limits me.id RateKind.operation d.now h.rates.rate in
    let charged = record h { rates = record (h.rates) { rate = m } } in
    if not allowed
    then refused rate_limited conn charged
    else if not (validate_frame_bounds c l f)
    then refused too_large conn charged
    else route c l d permit me f conn charged

abbrev pub dispatch_hello :
    Config
    → Library
    → Draw
    → Text
    → Text
    → Option Text
    → Option Text
    → Option Text
    → ConnState
    → Hub
    → Step
dispatch_hello c l d id name role sig secret conn h =
    let tried = record conn { hello_frames = min 255 (conn.hello_frames + 1) } in
    let r = handle_hello c l d id name role sig secret tried h in
    if is_some conn.authed
    then refused protocol conn h
    else if ltb 4 tried.hello_frames
    then refused rate_limited tried h
    else (frame r.0, r.1)

abbrev pub dispatch_other :
    Config → Library → Draw → Bool → ClientFrame → Option Authed → ConnState → Hub → Step
dispatch_other c l d permit f none conn h = refused unauthenticated conn h
dispatch_other c l d permit f (some me) conn h = dispatch_authed c l d permit me f conn h

unfoldable pub dispatch : Config → Library → Draw → Bool → ClientFrame → ConnState → Hub → Step
dispatch c l d permit (ClientFrame.hello id name role echoed sig secret) conn h =
    dispatch_hello c l d id name role sig secret conn h
dispatch c l d permit f conn h = dispatch_other c l d permit f conn.authed conn h
