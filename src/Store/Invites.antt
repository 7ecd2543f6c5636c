-- ===== src/Store/Invites.antt =====
-- crates/parler-hub/src/store.rs, "invites": codes, approval and room ownership.
pub mod Capacity
pub mod Approval
pub mod Denial
use parler_protocol.Prelude.{
  ℕ, zero, suc, ◌+◌, ◌-◌, ◌*◌, ◌/◌, ◌%◌, ◌^◌, ◌≤◌, ◌<◌, min, max, Text, codes, ◌==◌, eq_iff,
  eq_refl, Text-cases, trim, to_ascii_lowercase, eq_ignore_ascii_case, ◌≡◌, refl, sym, ap, ◌∙◌,
  subst, ◌≢◌, ◌↔◌, ◌⊎◌, inl, inr, Bool, true, false, not, ◌&&◌, ◌||◌, Bool-cases, and_split, Option,
  none, some, Option-cases, unwrap_or, is_some, is_none, is_some_and, keys_apart, Text-eq_symm,
  List, [], ◌∷◌, ◌++◌, map, append_assoc, append-nil, arith, ltb, leb, eqb, if◌then◌else◌, length,
  take, drop, select-append, take_add, take_nil, length-append, find-append, any-append, any-find,
  find-update-none, any-update, find-update_self, find-update_other, All-append, All-delete,
  All_mono, select, delete, update, find, any, count, insert_or_ignore, upsert, All, Outcome, ok,
  err,
}
use parler_protocol.Protocol.RoomKind.{RoomKind, channel, as_str, parse}
use parler_protocol.Store.Tables.{
  Store, Error, not_owner, unknown_code, code_expired, denied, used_up, no_join_request, constraint,
  InviteRow, JoinRequestRow, MemberRow, AgentRow, room_agent, request_key,
}
use parler_protocol.Store.Rooms.{is_member, room_owned_by, add_member}

pub record Redeemed : Type 0 where
  pub room : Text
  pub kind : RoomKind
  pub is_pending : Bool

pub record JoinRequest : Type 0 where
  pub agent : Text
  pub name : Text
  pub role : Option Text
  pub requested_at : ℕ

abbrev pub pending : Text
pending = codes "pending"

abbrev pub was_denied : Text
was_denied = codes "denied"

-- A code that is taken violates the primary key.
unfoldable pub create_invite :
    Text
    → Text
    → RoomKind
    → Option Text
    → ℕ
    → ℕ
    → Text
    → Bool
    → ℕ
    → Store
    → Outcome Error (Unit {0}) × Store
create_invite code room kind role max_uses expires created_by require_approval now s =
    if any (λ i. i.code == code) s.invites then (err constraint, s) else (
      ok tt,
      record s {
        invites =
            s.invites
            ++ record {
              code = code;
              room = room;
              kind = as_str kind;
              role = role;
              max_uses = max_uses;
              uses = 0;
              expires = expires;
              created_by = created_by;
              require_approval = require_approval;
              created = now;
            }
              ∷ [];
      },
    )

-- `UPDATE invites SET uses = uses + 1 WHERE code = ?`.
unfoldable pub charge : Text → Store → Store
charge code s = record s {
  invites = update (λ i. i.code == code) (λ i. record i { uses = i.uses + 1 }) s.invites;
}

abbrev pub redeemed_kind : InviteRow → RoomKind
redeemed_kind i = unwrap_or (parse i.kind) channel

-- The approval flow, by the status of an earlier request; a row of any other status would clash with
-- the new one after the use is charged.
unfoldable pub request_join :
    Text → InviteRow → Text → ℕ → Store → Option JoinRequestRow → Outcome Error Redeemed × Store
unfolding charge
request_join code i agent now s prior =
    let waiting : Outcome Error Redeemed =
      ok (record { room = i.room; kind = redeemed_kind i; is_pending = true }) in
    let fresh : Outcome Error Redeemed × Store =
      if leb i.max_uses i.uses then (err used_up, s) else (
        waiting,
        record (charge code s) {
          join_requests =
              s.join_requests
              ++ record { room = i.room; agent = agent; status = pending; requested = now } ∷ [];
        },
      ) in
    elim prior [
      | none ↦ fresh
      | some r ↦
          if r.status == pending
          then (waiting, s)
          else if r.status == was_denied
          then (err denied, s)
          else if leb i.max_uses i.uses
          then (err used_up, s)
          else (err constraint, charge code s)
    ]

-- The join without approval.
unfoldable pub join_now : Text → InviteRow → Text → ℕ → Store → Outcome Error Redeemed × Store
unfolding charge add_member
join_now code i agent now s = if leb i.max_uses i.uses then (err used_up, s) else (
  ok (record { room = i.room; kind = redeemed_kind i; is_pending = false }),
  add_member i.room agent now (charge code s),
)

unfoldable pub redeem_invite : Text → Text → ℕ → Store → Outcome Error Redeemed × Store
redeem_invite code agent now s = elim (find (λ (i : InviteRow). i.code == code) s.invites) [
  | none ↦ (err unknown_code, s)
  | some i ↦
      if is_member i.room agent s
      then (ok (record { room = i.room; kind = redeemed_kind i; is_pending = false }), s)
      else if ltb i.expires now
      then (err code_expired, s)
      else if i.require_approval
      then request_join code i agent now s (find (request_key i.room agent) s.join_requests)
      else join_now code i agent now s
]

join_request : Store → JoinRequestRow → JoinRequest
join_request s r =
    let found = find (λ (a : AgentRow). a.id == r.agent) s.agents in
    record {
      agent = r.agent;
      name = elim found [ none ↦ [] | some a ↦ a.name ];
      role = elim found [ none ↦ none | some a ↦ a.role ];
      requested_at = r.requested;
    }

-- `ORDER BY requested ASC`.
place : JoinRequestRow → List JoinRequestRow → List JoinRequestRow
place r [] = r ∷ []
place r (x ∷ xs) =
    let rest = x ∷ place r xs in if leb r.requested x.requested then r ∷ x ∷ xs else rest

by_requested : List JoinRequestRow → List JoinRequestRow
unfolding place
by_requested [] = []
by_requested (r ∷ rs) = place r (by_requested rs)

unfoldable pub pending_join_requests : Text → Text → Store → Outcome Error (List JoinRequest)
unfolding join_request by_requested
pending_join_requests room owner s =
    if room_owned_by room owner s
    then ok (
        map (join_request s)
          (by_requested (select (λ r. (r.room == room) && (r.status == pending)) s.join_requests)))
    else err not_owner

unfoldable pub resolve_join : Text → Text → Text → Bool → ℕ → Store → Outcome Error Bool × Store
unfolding add_member
resolve_join room owner agent approve now s =
    if not (room_owned_by room owner s)
    then (err not_owner, s)
    else if eqb (count (request_key room agent) s.join_requests) 0
    then (err no_join_request, s)
    else (
      ok approve,
      if approve
          then add_member room agent now
              (record s { join_requests = delete (request_key room agent) s.join_requests })
          else record s {
            join_requests =
                update (request_key room agent) (λ r. record r { status = was_denied })
                  s.join_requests;
          },
    )
