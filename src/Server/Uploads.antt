-- ===== src/Server/Uploads.antt =====
-- crates/parler-hub/src/server.rs: uploads and downloads of blobs.
-- The pool of bytes in flight is a parameter: whether a reservation of the frame's size is granted.
pub mod Files
use parler_protocol.Prelude.{
  ℕ, ◌+◌, ◌^◌, Text, ◌==◌, Bool, not, Option, none, some, length, eqb, leb, ltb, if◌then◌else◌,
  Outcome, ok, err,
}
use parler_protocol.Store.Blobs.{
  put_blob_meta, total_blob_bytes, blob_meta, blob_readable_by, touch_blob_fetched,
}
use parler_protocol.Server.Windows.{RateKind, put, rate_allows}
use parler_protocol.Server.Frames.{
  Target, ServerFrame, too_large, at_capacity, rate_limited, storage_full, unknown_blob,
  not_authorized, protocol,
}
use parler_protocol.Server.State.{
  Config, Library, Draw, Hub, Authed, ConnState, PendingUpload, Refusal, coded,
}
use parler_protocol.Server.RoomRequests.{resolve_target}
use parler_protocol.Server.Sending.{charge_room}

-- One frame, or a frame and a file's bytes.
pub data Reply : Type 0 where
  frame : ServerFrame → Reply
  frame_then_file : ServerFrame → Text → Reply

abbrev pub charge_blob : Config → Text → ℕ → Hub → Bool × Hub
charge_blob c me now h =
    let (allowed, m) = rate_allows c.limits me RateKind.blob now h.rates.rate in
    (allowed, record h { rates = record (h.rates) { rate = m } })

-- With a room for the upload.
abbrev pub accept_upload :
    Config
    → Draw
    → Authed
    → Text
    → Text
    → ℕ
    → Option Text
    → ConnState
    → Hub
    → Outcome Refusal Reply × (ConnState × Hub)
accept_upload c d me room sha256 size media_type conn h =
    let (allowed, h2) = charge_room c room RateKind.blob d.now h in
    if not allowed then (err (coded rate_limited), (conn, h2)) else (
      ok (frame (ServerFrame.blob_ready sha256)),
      (
        record conn {
          upload = some (record {
            id = sha256;
            room = room;
            author = me.id;
            size = size;
            media_type = media_type;
          });
        },
        h2,
      ),
    )

-- The reservation is of `max_blob_bytes` at least 1, which must fit in 32 bits.
unfoldable pub handle_put_blob :
    Config
    → Draw
    → Bool
    → Authed
    → Target
    → Text
    → ℕ
    → Option Text
    → ConnState
    → Hub
    → Outcome Refusal Reply × (ConnState × Hub)
handle_put_blob c d permit me target sha256 size media_type conn h =
    let (allowed, h2) = charge_blob c me.id d.now h in
    let (room, s) = resolve_target d me target h2.store in
    let there = record h2 { store = s } in
    if ltb c.max_blob_bytes size
    then (err (coded too_large), (conn, h))
    else if leb (2 ^ 32) c.max_blob_bytes
    then (err (coded too_large), (conn, h))
    else if not permit
    then (err (coded at_capacity), (conn, h))
    else if not allowed
    then (err (coded rate_limited), (conn, h2))
    else if ltb c.max_blob_dir_bytes (total_blob_bytes h2.store + size)
    then (err (coded storage_full), (conn, h2))
    else elim room [
      | err e ↦ (err e, (conn, there))
      | ok r ↦ accept_upload c d me r sha256 size media_type conn there
    ]

unfoldable pub handle_get_blob : Draw → Authed → Text → Hub → Outcome Refusal Reply × Hub
handle_get_blob d me id h = elim (blob_meta id h.store) [
  | none ↦ (err (coded unknown_blob), h)
  | some meta ↦
      if not (blob_readable_by id me.id h.store) then (err (coded not_authorized), h) else (
        ok (frame_then_file (ServerFrame.blob_incoming id meta.size meta.media_type) id),
        record h { store = touch_blob_fetched id d.now h.store },
      )
]

-- The bytes after a `PutBlob`; `files` is the directory, in which a write succeeds.
unfoldable pub finish_blob_upload :
    Config → Library → Draw → PendingUpload → Text → Hub → ServerFrame × Hub
finish_blob_upload c l d p bytes h =
    let id = l.content_id bytes in
    if not (eqb (length bytes) p.size)
    then (ServerFrame.error (some protocol), h)
    else if ltb c.max_blob_bytes (length bytes)
    then (ServerFrame.error (some too_large), h)
    else if not (id == p.id)
    then (ServerFrame.error (some protocol), h)
    else (
      ServerFrame.blob_stored id (length bytes),
      record h {
        files = put id bytes h.files;
        store = put_blob_meta id p.room p.author p.media_type (length bytes) d.now h.store;
      },
    )
