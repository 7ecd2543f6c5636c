-- ===== src/Server/RoomRequests.antt =====
-- crates/parler-hub/src/server.rs, `handle_authed` on rooms, invites and approval.
use parler_protocol.Prelude.{
  ℕ, ◌+◌, ◌*◌, Text, codes, ◌++◌, Bool, not, ◌&&◌, Option, none, some, unwrap_or, is_some, is_none,
  [], ◌∷◌, reverse, eqb, min, leb, if◌then◌else◌, Outcome, ok, err, trim,
}
use parler_protocol.Protocol.RoomKind.{RoomKind, channel, dm, service, is_channel}
use parler_protocol.Protocol.Subjects.{token}
use parler_protocol.Store.Tables.{Store}
use parler_protocol.Store.Rooms.{
  ensure_room, add_member, is_member, set_room_owner, owned_room_count, delete_room, room_kind,
  rooms_of, roster, find_dm_room,
}
use parler_protocol.Store.Invites.{
  create_invite, redeem_invite, pending_join_requests, resolve_join,
}
use parler_protocol.Store.Service.{serve_role}
use parler_protocol.Store.Tokens.{strip_prefix}
use parler_protocol.Store.Directory.{directory_visibility}
use parler_protocol.Server.Frames.{Target, unknown_service, ServerFrame, at_capacity, not_member}
use parler_protocol.Server.State.{
  Config, Draw, Refusal, coded, Authed, uncoded, Answer, refuse, reply, answer,
}

abbrev pub max_ttl_secs : ℕ
max_ttl_secs = 365 * 24 * 3600

-- `now + (ttl_secs.unwrap_or(d).min(MAX_TTL_SECS) as i64) * 1000`.
abbrev pub expiry : ℕ → Option ℕ → ℕ → ℕ
expiry d ttl_secs now = now + min (unwrap_or ttl_secs d) max_ttl_secs * 1000

-- The room that an invite is for.
abbrev pub invite_room : RoomKind → Option Text → Text → Text
invite_room dm room suffix = codes "dm." ++ suffix
invite_room channel none suffix = codes "room." ++ suffix
invite_room channel (some r) suffix = token r
invite_room service none suffix = codes "svc." ++ suffix
invite_room service (some r) suffix = codes "svc." ++ token r

abbrev pub invite_uses : RoomKind → Option ℕ → ℕ
invite_uses dm max_uses = 1
invite_uses _ max_uses = unwrap_or max_uses 50

-- The room is made, or is there already, and the caller is in it.
abbrev pub open_room : Text → RoomKind → Text → ℕ → Store → Store
open_room room kind me now s = add_member room me now (ensure_room room kind none now s)

unfoldable pub handle_invite :
    Config
    → Draw
    → Authed
    → RoomKind
    → Option Text
    → Option ℕ
    → Option ℕ
    → Bool
    → Store
    → Answer Store
handle_invite c d me kind room ttl_secs max_uses require_approval s =
    let name = invite_room kind room d.suffix in
    let expires = expiry (24 * 3600) ttl_secs d.now in
    if is_some (room_kind name s) && not (is_member name me.id s)
    then (err uncoded, s)
    else if is_none (room_kind name s) && leb c.max_owned_rooms (owned_room_count me.id s)
    then refuse at_capacity s
    else reply
        (λ u.
          ServerFrame.invited d.code (c.public_url ++ codes "/join/" ++ d.code) name kind expires)
        (create_invite d.code name kind none (invite_uses kind max_uses) expires me.id
          (require_approval && is_channel kind) d.now
          (set_room_owner name me.id (open_room name kind me.id d.now s)))

-- What follows the last `/join/`, by `rfind`.
after_join : Text → Option Text
unfolding strip_prefix
after_join [] = none
after_join (c ∷ cs) = elim (after_join cs) [
  | some rest ↦ some rest
  | none ↦ strip_prefix (codes "/join/") (c ∷ cs)
]

-- `trim_end_matches('/')`.
drop_slashes : Text → Text
drop_slashes [] = []
drop_slashes (c ∷ cs) = if eqb c 47 then drop_slashes cs else c ∷ cs

unfoldable pub normalize_code : Text → Text
unfolding after_join drop_slashes
normalize_code s = elim (after_join (trim s)) [
  | some rest ↦ reverse (drop_slashes (reverse (trim rest)))
  | none ↦ trim s
]

unfoldable pub handle_redeem : Draw → Authed → Text → Store → Answer Store
handle_redeem d me code s =
    reply
      (λ r.
        if r.is_pending then ServerFrame.join_pending r.room else ServerFrame.joined r.room r.kind)
      (redeem_invite (normalize_code code) me.id d.now s)

unfoldable pub handle_join_requests : Authed → Text → Store → Answer Store
handle_join_requests me room s =
    answer (ServerFrame.join_requests room) s (pending_join_requests room me.id s)

unfoldable pub handle_resolve_join : Draw → Authed → Text → Text → Bool → Store → Answer Store
handle_resolve_join d me room agent approve s =
    reply (ServerFrame.join_resolved room agent) (resolve_join room me.id agent approve d.now s)

abbrev pub service_room : Text → Text
service_room name = codes "svc." ++ token name

unfoldable pub handle_serve : Config → Draw → Authed → Text → Store → Answer Store
handle_serve c d me name s =
    let room = service_room name in
    let is_new = is_none (room_kind room s) in
    let opened = open_room room service me.id d.now s in
    if is_new && leb c.max_owned_rooms (owned_room_count me.id s) then refuse at_capacity s else (
      ok (ServerFrame.joined room service),
      serve_role room me.id name d.now
          (if is_new then set_room_owner room me.id opened else opened),
    )

unfoldable pub handle_rooms : Authed → Store → Answer Store
handle_rooms me s = (ok (ServerFrame.rooms (rooms_of me.id s)), s)

unfoldable pub handle_delete_room : Authed → Text → Store → Answer Store
handle_delete_room me room s = reply (λ u. ServerFrame.room_deleted room) (delete_room room me.id s)

unfoldable pub handle_roster : Draw → Authed → Text → Store → Answer Store
handle_roster d me room s =
    if not (is_member room me.id s)
    then refuse not_member s
    else (ok (ServerFrame.roster room (roster room d.now s)), s)

-- Where a message or an upload goes.
unfoldable pub resolve_target : Draw → Authed → Target → Store → Outcome Refusal Text × Store
resolve_target d me (Target.room room) s =
    if not (is_member room me.id s) then (err (coded not_member), s) else (ok room, s)
resolve_target d me (Target.dm agent) s = elim (find_dm_room me.id agent s) [
  | some room ↦ (ok room, s)
  | none ↦ elim (directory_visibility agent s) [
    | none ↦ (err uncoded, s)
    | some seen ↦
        let room = codes "dm." ++ d.suffix in
        (ok room, add_member room agent d.now (open_room room dm me.id d.now s))
  ]
]
resolve_target d me (Target.service name) s =
    let room = service_room name in
    if is_none (room_kind room s)
    then (err (coded unknown_service), s)
    else (ok room, add_member room me.id d.now s)
