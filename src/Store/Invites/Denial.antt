-- ===== src/Store/Invites/Denial.antt =====
-- resolve_join without approval, and what the requester meets after it.
use parler_protocol.Prelude.{
  ℕ, any-count, any-find, find-update_self, ◌≤◌, Text, ◌==◌, eq_refl, ◌≡◌, refl, sym, subst, true,
  false, some, arith, ltb, eqb, any-count, any-find, find-update_self, update, find, count, err,
}
use parler_protocol.Store.Tables.{Store, denied, InviteRow, JoinRequestRow, request_key}
use parler_protocol.Store.Rooms.{is_member, room_owned_by}
use parler_protocol.Store.Invites.{pending, was_denied, request_join, redeem_invite, resolve_join}

denied_not_pending : was_denied == pending ≡ false
unfolding ◌==◌
denied_not_pending = refl

-- A denied requester meets the denial, and nothing changes.
redeem-was_denied :
    (code agent : Text) (later : ℕ) (i : InviteRow) (r : JoinRequestRow) (s : Store)
    → find (λ (j : InviteRow). j.code == code) s.invites ≡ some i
    → i.require_approval ≡ true
    → later ≤ i.expires
    → is_member i.room agent s ≡ false
    → find (request_key i.room agent) s.join_requests ≡ some r
    → r.status ≡ was_denied
    → redeem_invite code agent later s ≡ (err denied, s)
unfolding redeem_invite request_join
redeem-was_denied code agent later i r s found gated live outside asked was =
    let early : ltb i.expires later ≡ false = ground (arith, live) in
    let waits : r.status == pending ≡ false = rw was denied_not_pending in
    let denies : r.status == was_denied ≡ true = rw was (eq_refl was_denied) in
    rw (found, redeem_invite, outside, early, gated, asked, request_join, waits, denies) refl

deny-request :
    (room owner agent : Text) (now : ℕ) (r : JoinRequestRow) (s : Store)
    → room_owned_by room owner s ≡ true
    → find (request_key room agent) s.join_requests ≡ some r
    → (resolve_join room owner agent false now s).1 ≡ record s {
      join_requests =
          update (request_key room agent) (λ j. record j { status = was_denied }) s.join_requests;
    }
unfolding resolve_join
deny-request room owner agent now r s mine asked =
    let counted : eqb (count (request_key room agent) s.join_requests) 0 ≡ false = ground (
      arith,
      any-count (request_key room agent) s.join_requests,
      any-find (request_key room agent) s.join_requests,
      asked,
    ) in
    rw (mine, counted) refl

-- After the owner denies an existing request, an agent outside that redeems an unexpired invite of
-- the room that asks for approval is told that it was denied, and nothing changes.
pub redeem_invite-deny :
    (code owner agent : Text) (now later : ℕ) (i : InviteRow) (r : JoinRequestRow) (s : Store)
    → find (λ (j : InviteRow). j.code == code) s.invites ≡ some i
    → i.require_approval ≡ true
    → later ≤ i.expires
    → is_member i.room agent s ≡ false
    → room_owned_by i.room owner s ≡ true
    → find (request_key i.room agent) s.join_requests ≡ some r
    → redeem_invite code agent later (resolve_join i.room owner agent false now s).1
      ≡ (err denied, (resolve_join i.room owner agent false now s).1)
redeem_invite-deny code owner agent now later i r s found gated live outside mine asked =
    let t : Store = record s {
      join_requests =
          update (request_key i.room agent) (λ j. record j { status = was_denied }) s.join_requests;
    } in
    let marked : find (request_key i.room agent) t.join_requests
        ≡ some (record r { status = was_denied }) =
      find-update_self (request_key i.room agent) (λ j. record j { status = was_denied })
        (λ j. refl) s.join_requests r asked in
    subst (λ x. redeem_invite code agent later x ≡ (err denied, x))
      (sym (deny-request i.room owner agent now r s mine asked))
      (redeem-was_denied code agent later i (record r { status = was_denied }) t found gated live
        (unfold is_member in outside) marked refl)
