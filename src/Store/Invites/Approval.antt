-- ===== src/Store/Invites/Approval.antt =====
-- The approval gate: who becomes a member of a room whose invites all need the owner's approval.
use parler_protocol.Prelude.{
  ℕ, ◌+◌, choose, count-insert_other, find-any_none, Text, ◌==◌, eq_iff, Text-cases, ◌≡◌, refl, ap,
  ◌∙◌, subst, inl, inr, Bool, true, false, not, ◌&&◌, Option, none, some, Option-cases, List, [],
  ◌∷◌, arith, ltb, leb, eqb, if◌then◌else◌, any-update, delete, update, find, any, count,
}
use parler_protocol.Store.Tables.{Store, InviteRow, JoinRequestRow, room_agent, request_key}
use parler_protocol.Store.Rooms.{is_member, room_owned_by, add_member}
use parler_protocol.Store.Invites.{
  pending, was_denied, charge, request_join, join_now, redeem_invite, resolve_join,
}

-- The calls that can let an agent in.
pub data Call : Type 0 where
  redeems : (code agent : Text) (now : ℕ) → Call
  resolves : (room owner agent : Text) (approve : Bool) (now : ℕ) → Call

abbrev pub step : Call → Store → Store
step (redeems code agent now) s = (redeem_invite code agent now s).1
step (resolves room owner agent approve now) s = (resolve_join room owner agent approve now s).1

abbrev pub run : List Call → Store → Store
run [] s = s
run (c ∷ cs) s = run cs (step c s)

-- The owner's approval of this agent for this room.
abbrev pub is_approval : Text → Text → Text → Call → Bool
is_approval room owner agent (redeems c a now) = false
is_approval room owner agent (resolves r o a approve now) =
    (r == room) && ((o == owner) && ((a == agent) && approve))

abbrev pub is_open : Text → InviteRow → Bool
is_open room i = (i.room == room) && not i.require_approval

-- The agent is outside, no invite lets it in without approval, and only `owner` owns the room.
pub record IsClosed (room owner agent : Text) (s : Store) : Type 0 where
  pub outside : is_member room agent s ≡ false
  pub gated : any (is_open room) s.invites ≡ false
  pub owned : (o : Text) → room_owned_by room o s && not (o == owner) ≡ false

pub is_member-add_member :
    (room agent r a : Text) (now : ℕ) (s : Store)
    → (r == room) && (a == agent) ≡ false
    → is_member room agent (add_member r a now s) ≡ is_member room agent s
unfolding is_member add_member
is_member-add_member room agent r a now s other = ap (ltb 0) (
    count-insert_other (room_agent r a) (room_agent room agent)
      (record { room = r; agent = a; joined = now; cursor = 0 }) s.members other)

module _ (room owner agent : Text) where
  charge-IsClosed :
      (code : Text) (s : Store)
      → IsClosed room owner agent s
      → IsClosed room owner agent (charge code s)
  unfolding charge is_member room_owned_by
  charge-IsClosed code s closed = record {
    outside = closed.outside;
    gated =
        any-update (λ i. i.code == code) (is_open room) (λ i. record i { uses = i.uses + 1 })
          (λ i. refl) s.invites
        ∙ closed.gated;
    owned = closed.owned;
  }

  requests-IsClosed :
      (rs : List JoinRequestRow) (s : Store)
      → IsClosed room owner agent s
      → IsClosed room owner agent (record s { join_requests = rs })
  unfolding is_member room_owned_by
  requests-IsClosed rs s closed = record {
    outside = closed.outside;
    gated = closed.gated;
    owned = closed.owned;
  }

  add-IsClosed :
      (r a : Text) (now : ℕ) (s : Store)
      → (r == room) && (a == agent) ≡ false
      → IsClosed room owner agent s
      → IsClosed room owner agent (add_member r a now s)
  add-IsClosed r a now s other closed = record {
    outside = is_member-add_member room agent r a now s other ∙ closed.outside;
    gated = unfold add_member in closed.gated;
    owned = unfold room_owned_by add_member in closed.owned;
  }

  request-IsClosed :
      (code a : Text) (now : ℕ) (i : InviteRow) (s : Store) (prior : Option JoinRequestRow)
      → IsClosed room owner agent s
      → IsClosed room owner agent (request_join code i a now s prior).1
  unfolding request_join
  request-IsClosed code a now i s none closed =
      choose (IsClosed room owner agent) (leb i.max_uses i.uses) _ _ (λ full. closed)
        λ left. requests-IsClosed _ (charge code s) (charge-IsClosed code s closed)
  request-IsClosed code a now i s (some r) closed =
      choose (IsClosed room owner agent) (r.status == pending) _ _ (λ p. closed)
        λ p.
          choose (IsClosed room owner agent) (r.status == was_denied) _ _ (λ d. closed)
            λ d.
              choose (IsClosed room owner agent) (leb i.max_uses i.uses) _ _ (λ full. closed)
                λ left. charge-IsClosed code s closed

  join-IsClosed :
      (code a : Text) (now : ℕ) (i : InviteRow) (s : Store)
      → i.room == room ≡ false
      → IsClosed room owner agent s
      → IsClosed room owner agent (join_now code i a now s).1
  unfolding join_now
  join-IsClosed code a now i s other closed =
      choose (IsClosed room owner agent) (leb i.max_uses i.uses) _ _ (λ full. closed)
        λ left.
          add-IsClosed i.room a now (charge code s) (ground (arith, other))
            (charge-IsClosed code s closed)

  redeem-IsClosed :
      (code a : Text) (now : ℕ) (s : Store)
      → IsClosed room owner agent s
      → IsClosed room owner agent (redeem_invite code a now s).1
  unfolding redeem_invite
  redeem-IsClosed code a now s closed =
      elim (Option-cases (find (λ (i : InviteRow). i.code == code) s.invites)) [
        | inl missing ↦ rw (missing, redeem_invite) closed
        | inr (i, found) ↦
            rw (found, redeem_invite)
              (choose (IsClosed room owner agent) (is_member i.room a s) _ _ (λ here. closed)
                λ new.
                  choose (IsClosed room owner agent) (ltb i.expires now) _ _ (λ late. closed)
                    λ live.
                      choose (IsClosed room owner agent) i.require_approval _ _
                        (λ asks.
                          request-IsClosed code a now i s
                            (find (request_key i.room a) s.join_requests) closed)
                        λ no_gate.
                          join-IsClosed code a now i s
                            (ground (
                              arith,
                              no_gate,
                              find-any_none (λ (i : InviteRow). i.code == code) (is_open room)
                                  s.invites {x = i} closed.gated found,
                            ))
                            closed)
      ]

  -- A call by the room's owner that approves the agent is the approval; no other call adds it.
  other_pair :
      (r o a : Text) (now : ℕ) (s : Store)
      → is_approval room owner agent (resolves r o a true now) ≡ false
      → room_owned_by r o s ≡ true
      → IsClosed room owner agent s
      → (r == room) && (a == agent) ≡ false
  other_pair r o a now s quiet mine closed = elim (Text-cases r room) [
    | inl same ↦ ground (
      arith,
      quiet,
      (eq_iff r room).1 same,
      closed.owned o,
      subst (λ x. room_owned_by x o s ≡ true) same mine,
    )
    | inr e ↦ ground (arith, e)
  ]

  resolve-IsClosed :
      (r o a : Text) (approve : Bool) (now : ℕ) (s : Store)
      → is_approval room owner agent (resolves r o a approve now) ≡ false
      → IsClosed room owner agent s
      → IsClosed room owner agent (resolve_join r o a approve now s).1
  unfolding resolve_join
  resolve-IsClosed r o a approve now s quiet closed =
      choose (IsClosed room owner agent) (not (room_owned_by r o s)) _ _ (λ stranger. closed)
        λ mine.
          choose (IsClosed room owner agent) (eqb (count (request_key r a) s.join_requests) 0) _ _
            (λ nothing. closed)
            λ asked.
              elim approve
                  as (λ b.
                    is_approval room owner agent (resolves r o a b now) ≡ false
                    → IsClosed room owner agent (
                        if b
                        then add_member r a now
                            (record s { join_requests = delete (request_key r a) s.join_requests })
                        else record s {
                          join_requests =
                              update (request_key r a) (λ j. record j { status = was_denied })
                                s.join_requests;
                        })) [
                          | true ↦ λ quiet.
                              add-IsClosed r a now
                                (record s {
                                  join_requests = delete (request_key r a) s.join_requests;
                                })
                                (other_pair r o a now s quiet (ground (arith, mine)) closed)
                                (requests-IsClosed (delete (request_key r a) s.join_requests) s
                                  closed)
                          | false ↦ λ quiet. requests-IsClosed _ s closed
                        ]
                quiet

  step-IsClosed :
      (c : Call) (s : Store)
      → is_approval room owner agent c ≡ false
      → IsClosed room owner agent s
      → IsClosed room owner agent (step c s)
  step-IsClosed (redeems code a now) s quiet closed = redeem-IsClosed code a now s closed
  step-IsClosed (resolves r o a approve now) s quiet closed =
      resolve-IsClosed r o a approve now s quiet closed

-- While every invite of a room asks for approval and nobody but `owner` owns the room, an agent
-- outside stays outside over every sequence of redemptions and decisions, by anyone, in which
-- `owner` does not approve it.
pub run-IsClosed :
    (room owner agent : Text) (cs : List Call) (s : Store)
    → any (is_approval room owner agent) cs ≡ false
    → IsClosed room owner agent s
    → IsClosed room owner agent (run cs s)
unfolding any
run-IsClosed room owner agent [] s quiet closed = closed
run-IsClosed room owner agent (c ∷ cs) s quiet closed =
    run-IsClosed room owner agent cs (step c s) (ground (arith, quiet))
      (step-IsClosed room owner agent c s (ground (arith, quiet)) closed)
