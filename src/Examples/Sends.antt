-- ===== src/Examples/Sends.antt =====
-- A send of Ann's to her room with Bob.
use parler_protocol.Prelude.{
  ◌<◌, Text, codes, ◌==◌, ◌≡◌, refl, ap, true, false, Option, none, some, unwrap_or, [], ◌∷◌, ◌++◌,
  arith, find, any, Outcome, ok, if◌then◌else◌,
}
use parler_protocol.Examples.{codec, sample_parts, den, ann, bob, note, from_ann, hub}
use parler_protocol.Examples.Messages.{both, bob-pending}
use parler_protocol.Examples.Server.{config, library, draw, state}
use parler_protocol.Protocol.Tokens.{estimate_message_tokens}
use parler_protocol.Store.Tables.{Store, Error, null_eq}
use parler_protocol.Store.Rooms.{room_member_ids}
use parler_protocol.Store.Messages.{
  AppendOutcome, StoredMessage, replays, insert_message, append_message, encode_mentions,
  decode_mentions, get_cursor, read_all,
}
use parler_protocol.Store.Messages.Delivery.{pending}
use parler_protocol.Store.Messages.Sending.{IsFaithful, pushed}
use parler_protocol.Store.Stats.Growth.{Grows, room_stats-append}
use parler_protocol.Server.Frames.{ServerFrame}
use parler_protocol.Server.State.{Authed, Draw, Answer, Hub}
use parler_protocol.Server.Windows.{RateKind, charge_window, room_rate_allows}
use parler_protocol.Server.Sending.{charge_room, send_to}
use parler_protocol.Server.Sending.Pushing.{deliveries}
use parler_protocol.Server.Sending.Delivery.{send_to_delivers}

abbrev as_ann : Authed
as_ann = record { id = ann; name = codes "Ann"; role = none }

abbrev yo : Outcome Error AppendOutcome × Store
yo =
    append_message codec (codes "m9") den from_ann (sample_parts (codes "yo")) none none none 500
      hub

abbrev yo_outcome : AppendOutcome
yo_outcome = record {
  id = codes "m9";
  seq = 3;
  tokens = estimate_message_tokens (sample_parts (codes "yo"));
  deduped = false;
}

yo_ok : yo ≡ (ok yo_outcome, yo.1)
unfolding append_message encode_mentions insert_message find replays null_eq ◌==◌ any
yo_ok = refl

faithful : IsFaithful codec (sample_parts (codes "yo")) none
unfolding encode_mentions decode_mentions
faithful = record {
  parts_kept = λ pj h. cc (ap (λ (o : Option Text). unwrap_or o []) h);
  mentions_kept = λ mj h. ground arith;
}

abbrev yo_message : StoredMessage
yo_message = pushed yo_outcome den from_ann (sample_parts (codes "yo")) none none 500

abbrev anns_send : Answer Hub
anns_send = send_to config library draw as_ann den (sample_parts (codes "yo")) none none none state

send_allowed : (charge_room config den RateKind.send 500 state).0 ≡ true
unfolding charge_window room_rate_allows ◌==◌
send_allowed = refl

bobs_cursor : get_cursor den bob state.store < 3
unfolding get_cursor find ◌==◌
bobs_cursor = omega arith

send_to_delivers_example :
    (anns_send.0 ≡ ok (ServerFrame.sent (codes "m9") 3 den))
    × ((anns_send.1.pushed
          ≡ []
            ++ deliveries draw ann yo_message state.subscribers
                (room_member_ids den anns_send.1.store))
        × (read_all codec (pending den bob anns_send.1.store)
            ≡ ok (both ++ (if den == den then yo_message ∷ [] else []))))
send_to_delivers_example =
    send_to_delivers config library draw as_ann den (sample_parts (codes "yo")) none none none state
      yo_outcome yo.1 den bob both faithful send_allowed yo_ok refl bobs_cursor bob-pending

room_stats-append_example : Grows den (codes "Ann") none hub yo.1 den from_ann yo_outcome.tokens
room_stats-append_example =
    room_stats-append codec (codes "m9") den from_ann (sample_parts (codes "yo")) none none none 500
      hub yo.1 yo_outcome den (codes "Ann") none yo_ok refl

-- The same under a key, and again a little later.
abbrev later : Draw
later = record draw { now = 600; id = codes "m10" }

abbrev keyed : Draw → Hub → Answer Hub
keyed d h = send_to config library d as_ann den (sample_parts (codes "yo")) none none (some note) h
