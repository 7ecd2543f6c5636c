-- ===== src/Store/Invites/Capacity.antt =====
-- The use limit of an invite, over every run of redemptions.
use parler_protocol.Prelude.{
  ℕ, ◌+◌, choose, ◌-◌, ◌≤◌, ◌<◌, Text, ◌==◌, ◌≡◌, refl, ◌⊎◌, inl, inr, false, Option, none, some,
  List, [], ◌∷◌, arith, ltb, leb, length, length-append, find-update_self, find, insert_or_ignore,
}
use parler_protocol.Store.Tables.{Store, InviteRow, JoinRequestRow, request_key}
use parler_protocol.Store.Rooms.{is_member, add_member}
use parler_protocol.Store.Invites.{
  pending, was_denied, charge, request_join, join_now, redeem_invite,
}

abbrev pub invite_of : Text → Store → Option InviteRow
invite_of code s = find (λ (i : InviteRow). i.code == code) s.invites

-- Members and join requests together.
abbrev pub admitted : Store → ℕ
admitted s = length s.members + length s.join_requests

-- One use was charged, and at most one row was added.
pub record IsCharged (code : Text) (i : InviteRow) (s t : Store) : Type 0 where
  pub had_use : i.uses < i.max_uses
  pub counted : invite_of code t ≡ some (record i { uses = i.uses + 1 })
  pub one_more : admitted t ≤ admitted s + 1

invite_of-charge :
    (code : Text) (i : InviteRow) (s : Store)
    → invite_of code s ≡ some i
    → invite_of code (charge code s) ≡ some (record i { uses = i.uses + 1 })
unfolding charge
invite_of-charge code i s e =
    find-update_self (λ (j : InviteRow). j.code == code) (λ j. record j { uses = j.uses + 1 })
      (λ j. refl) s.invites i e

length-add_member :
    (room agent : Text) (now : ℕ) (s : Store)
    → length (add_member room agent now s).members ≤ length s.members + 1
unfolding add_member insert_or_ignore
length-add_member room agent now s = ground (
  arith,
  length-append s.members (record { room = room; agent = agent; joined = now; cursor = 0 } ∷ []),
)

admitted-join :
    (code room agent : Text) (now : ℕ) (s : Store)
    → admitted (add_member room agent now (charge code s)) ≤ admitted s + 1
admitted-join code room agent now s =
    let a : length (add_member room agent now (charge code s)).members ≤ length s.members + 1 =
      (unfold charge in length-add_member room agent now (charge code s)) in
    let b : length (add_member room agent now (charge code s)).join_requests
        ≡ length s.join_requests =
      (unfold add_member charge in refl) in
    omega (arith, a, b)

-- What a redemption of a code may do to the store.
abbrev MayCharge : Text → InviteRow → Store → Store → Type 0
MayCharge code i s t = (t ≡ s) ⊎ IsCharged code i s t

module _ (code agent : Text) (now : ℕ) (i : InviteRow) (s : Store)
    (found : invite_of code s ≡ some i) where
  charged : leb i.max_uses i.uses ≡ false → IsCharged code i s (charge code s)
  charged h = record {
    had_use = ground (arith, h);
    counted = invite_of-charge code i s found;
    one_more = unfold charge in omega arith;
  }

  join-MayCharge : MayCharge code i s (join_now code i agent now s).1
  unfolding join_now
  join-MayCharge =
      choose (MayCharge code i s) (leb i.max_uses i.uses) _ _ (λ full. inl refl)
        λ h. inr (record {
          had_use = (charged h).had_use;
          counted = unfold add_member in invite_of-charge code i s found;
          one_more = admitted-join code i.room agent now s;
        })

  fresh-MayCharge : MayCharge code i s (request_join code i agent now s none).1
  unfolding request_join
  fresh-MayCharge =
      choose (MayCharge code i s) (leb i.max_uses i.uses) _ _ (λ full. inl refl)
        λ h. inr (record {
          had_use = (charged h).had_use;
          counted = unfold charge in invite_of-charge code i s found;
          one_more = omega (
            arith,
            length-append s.join_requests
                (record { room = i.room; agent = agent; status = pending; requested = now } ∷ []),
          );
        })

  prior-MayCharge :
      (r : JoinRequestRow) → MayCharge code i s (request_join code i agent now s (some r)).1
  unfolding request_join
  prior-MayCharge r =
      choose (MayCharge code i s) (r.status == pending) _ _ (λ p. inl refl)
        λ p.
          choose (MayCharge code i s) (r.status == was_denied) _ _ (λ d. inl refl)
            λ d.
              choose (MayCharge code i s) (leb i.max_uses i.uses) _ _ (λ full. inl refl)
                λ h. inr (charged h)

  request-MayCharge :
      (prior : Option JoinRequestRow) → MayCharge code i s (request_join code i agent now s prior).1
  request-MayCharge none = fresh-MayCharge
  request-MayCharge (some r) = prior-MayCharge r

  redeem-MayCharge : MayCharge code i s (redeem_invite code agent now s).1
  unfolding redeem_invite
  redeem-MayCharge =
      rw (found, redeem_invite)
        (choose (MayCharge code i s) (is_member i.room agent s) _ _ (λ here. inl refl)
          λ new.
            choose (MayCharge code i s) (ltb i.expires now) _ _ (λ late. inl refl)
              λ live.
                choose (MayCharge code i s) i.require_approval _ _
                  (λ asks. request-MayCharge (find (request_key i.room agent) s.join_requests))
                  λ open_room. join-MayCharge)

-- A run of redemptions of one code, each by some agent at some time.
abbrev pub redeem_all : Text → List (Text × ℕ) → Store → Store
redeem_all code [] s = s
redeem_all code ((agent, now) ∷ rs) s = redeem_all code rs (redeem_invite code agent now s).1

-- Whoever redeems a code, and however often, the redemptions together add at most as many members and
-- join requests as the invite has uses left.
pub redeem_all-le-uses :
    (code : Text) (rs : List (Text × ℕ)) (s : Store) (i : InviteRow)
    → invite_of code s ≡ some i
    → admitted (redeem_all code rs s) ≤ admitted s + (i.max_uses - i.uses)
redeem_all-le-uses code [] s i found = omega arith
redeem_all-le-uses code ((agent, now) ∷ rs) s i found =
    elim (redeem-MayCharge code agent now i s found) [
      | inl same ↦ rw (same, redeem_all) (redeem_all-le-uses code rs s i found)
      | inr c ↦ omega (
        arith,
        c.had_use,
        c.one_more,
        redeem_all-le-uses code rs (redeem_invite code agent now s).1
            (record i { uses = i.uses + 1 }) c.counted,
      )
    ]
