-- ===== src/Examples/Invites.antt =====
-- Invites: a code that asks for approval, redeemed, approved and denied.
use parler_protocol.Prelude.{
  ◌+◌, ◌-◌, ◌≤◌, Text, codes, ◌==◌, eq_refl, ◌≡◌, refl, true, false, not, ◌&&◌, none, some,
  Text-eq_symm, List, [], ◌∷◌, arith, find, any, count, err,
}
use parler_protocol.Store.Tables.{Store, denied, InviteRow, JoinRequestRow}
use parler_protocol.Store.Rooms.{is_member, room_owned_by}
use parler_protocol.Store.Invites.{pending, redeem_invite, resolve_join}
use parler_protocol.Examples.{den, ann, bob, cat, hub}
use parler_protocol.Store.Tables.{null_eq}
use parler_protocol.Store.Invites.Capacity.{invite_of, admitted, redeem_all, redeem_all-le-uses}
use parler_protocol.Store.Invites.Denial.{redeem_invite-deny}
use parler_protocol.Store.Invites.Approval.{Call, redeems, resolves, run, IsClosed, run-IsClosed}

abbrev key : Text
key = codes "k1"

abbrev invite : InviteRow
invite = record {
  code = key;
  room = den;
  kind = codes "channel";
  role = none;
  max_uses = 2;
  uses = 0;
  expires = 1000;
  created_by = ann;
  require_approval = true;
  created = 1;
}

abbrev asked : JoinRequestRow
asked = record { room = den; agent = cat; status = pending; requested = 5 }

abbrev guarded : Store
guarded = record hub { invites = invite ∷ []; join_requests = asked ∷ [] }

found : invite_of key guarded ≡ some invite
unfolding find ◌==◌
found = refl

redeem_all-le-uses_example :
    admitted (redeem_all key ((cat, 10) ∷ (codes "eve", 11) ∷ (codes "joe", 12) ∷ []) guarded)
    ≤ admitted guarded + (2 - 0)
redeem_all-le-uses_example =
    redeem_all-le-uses key ((cat, 10) ∷ (codes "eve", 11) ∷ (codes "joe", 12) ∷ []) guarded invite
      found

only_ann : (o : Text) → room_owned_by den o guarded && not (o == ann) ≡ false
unfolding room_owned_by count null_eq
only_ann o = ground (arith, Text-eq_symm ann o, eq_refl den)

guarded-IsClosed : IsClosed den ann cat guarded
unfolding is_member count any ◌==◌ room_owned_by null_eq
guarded-IsClosed = record { outside = refl; gated = refl; owned = only_ann }

abbrev calls : List Call
calls = redeems key cat 10 ∷ resolves den bob cat true 11 ∷ resolves den ann cat false 12 ∷ []

run-IsClosed_example : IsClosed den ann cat (run calls guarded)
run-IsClosed_example =
    run-IsClosed den ann cat calls guarded (unfold any ◌==◌ in refl) guarded-IsClosed

redeem_invite-deny_example :
    redeem_invite key cat 20 (resolve_join den ann cat false 10 guarded).1
    ≡ (err denied, (resolve_join den ann cat false 10 guarded).1)
redeem_invite-deny_example =
    redeem_invite-deny key ann cat 10 20 invite asked guarded found refl (omega arith)
      guarded-IsClosed.outside (unfold room_owned_by count null_eq ◌==◌ in refl)
      (unfold find ◌==◌ in refl)
