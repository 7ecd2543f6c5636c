-- ===== src/Server/WorkRequests.antt =====
-- crates/parler-hub/src/server.rs, `handle_authed` on the queue of a service room.
use parler_protocol.Prelude.{
  ℕ, Text, Bool, not, Option, unwrap_or, is_some, is_some_and, min, max, if◌then◌else◌, ok,
}
use parler_protocol.Protocol.RoomKind.{is_service}
use parler_protocol.Protocol.TaskStatus.{TaskStatus, is_terminal}
use parler_protocol.Store.Tables.{Store}
use parler_protocol.Store.Rooms.{is_member, room_kind}
use parler_protocol.Store.Service.{
  claim_service_message, queued_service_messages, complete_service_message,
}
use parler_protocol.Server.Frames.{ServerFrame, not_member, not_authorized}
use parler_protocol.Server.State.{Library, Draw, Authed, Answer, refuse, reply, answer}

-- `room_kind(..) == Some(Service)`.
abbrev pub is_service_room : Text → Store → Bool
is_service_room room s = is_some_and (room_kind room s) is_service

-- `lease_secs.unwrap_or(300).clamp(15, 3_600)`.
abbrev pub lease : Option ℕ → ℕ
lease lease_secs = min 3600 (max 15 (unwrap_or lease_secs 300))

-- The two refusals that the three requests begin with.
abbrev pub guarded : Text → Text → Store → Answer Store → Answer Store
guarded room me s rest =
    if not (is_member room me s)
    then refuse not_member s
    else if not (is_service_room room s)
    then refuse not_authorized s
    else rest

unfoldable pub handle_claim :
    Library → Draw → Authed → Text → Text → Option ℕ → Store → Answer Store
handle_claim l d me room message lease_secs s = guarded room me.id s (
    let r = claim_service_message l.codec room message me.id (lease lease_secs) d.now s in
    (ok (ServerFrame.claimed room message (is_some r.0) r.0), r.1))

unfoldable pub handle_queue :
    Library → Draw → Authed → Text → Text → Option ℕ → Store → Answer Store
handle_queue l d me room role limit s = guarded room me.id s (
    answer (ServerFrame.queued room) s
      (queued_service_messages l.codec room me.id role limit d.now s))

unfoldable pub handle_complete : Draw → Authed → Text → Text → TaskStatus → Store → Answer Store
handle_complete d me room message status s = guarded room me.id s (
    if not (is_terminal status)
    then refuse not_authorized s
    else reply (ServerFrame.completed room message)
        (complete_service_message room message me.id status d.now s))
