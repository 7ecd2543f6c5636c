-- ===== src/Examples/Rooms.antt =====
-- Rooms and tokens: the sample room is Ann's direct room with Bob.
use parler_protocol.Prelude.{
  reverse, Text, codes, ◌==◌, eq_iff, ◌≡◌, refl, ◌≢◌, true, false, ◌&&◌, ◌||◌, none, some, is_some,
  arith, leb, if◌then◌else◌, take, select, find, any, count, ok,
}
use parler_protocol.Examples.{den, ann, bob, cat, hub}
use parler_protocol.Store.Tables.{null_eq, MessageRow, RoomRow}
use parler_protocol.Store.Rooms.{is_member, room_owned_by, is_dm_row, find_dm_room, delete_room}
use parler_protocol.Store.Tokens.{mint_watch_token, validate_watch_token, validate_directory_token}
use parler_protocol.Server.Janitor.{Retention, janitor_pass}
use parler_protocol.Server.Janitor.Floor.{is_young, janitor_pass-keeps}
use parler_protocol.Store.Rooms.Deletion.{rows_of, no_rows, delete_room-rows_of, delete_room-others}
use parler_protocol.Store.Rooms.Direct.{find_dm_room_sound, find_dm_room_self}
use parler_protocol.Store.Tokens.Scopes.{mint_watch_token-validate}
use parler_protocol.Store.Messages.Delivery.{IsLog}

ann_owns : room_owned_by den ann hub ≡ true
unfolding room_owned_by count null_eq ◌==◌
ann_owns = refl

apart : (a b : Text) → a == b ≡ false → a ≢ b
apart a b h e = ground (arith, h, (eq_iff a b).1 e)

delete_room-rows_of_example :
    ((delete_room den ann hub).0 ≡ ok tt) × (rows_of den (delete_room den ann hub).1 ≡ no_rows)
delete_room-rows_of_example = delete_room-rows_of den ann hub ann_owns

delete_room-others_example : rows_of cat (delete_room den ann hub).1 ≡ rows_of cat hub
delete_room-others_example =
    delete_room-others den ann cat hub (apart cat den (unfold ◌==◌ in refl))

direct : find_dm_room ann bob hub ≡ some den
unfolding find_dm_room find is_dm_row any count ◌==◌
direct = refl

find_dm_room_sound_example :
    (any (λ (r : RoomRow). (r.name == den) && (r.kind == codes "dm")) hub.rooms ≡ true)
    × (is_member den cat hub ≡ (cat == ann) || (cat == bob))
find_dm_room_sound_example =
    find_dm_room_sound ann bob cat den hub (apart ann bob (unfold ◌==◌ in refl)) direct

find_dm_room_self_example : is_some (find_dm_room ann ann hub) ≡ true
find_dm_room_self_example = find_dm_room_self ann bob den hub direct

abbrev ticket : Text
ticket = codes "wt"

mint_watch_token-validate_example :
    (validate_watch_token ticket 50 (mint_watch_token ticket den ann 100 10 hub).1
      ≡ (if leb 50 100 then some den else none))
    × (validate_directory_token ticket 50 (mint_watch_token ticket den ann 100 10 hub).1 ≡ false)
mint_watch_token-validate_example =
    mint_watch_token-validate ticket den ann 100 10 50 hub ann_owns (unfold find in refl)

log : IsLog hub
log = record {
  ordered = (omega arith, (omega arith, tt));
  below = (omega arith, (omega arith, tt));
  started = omega arith;
}

abbrev hourly : Retention
hourly = record {
  message_max_age = some 5;
  keep_messages_per_room = 1;
  keep_unkeyed_facts = none;
  blob_max_idle = some 50;
  interval = 3600;
}

janitor_pass-keeps_example :
    (take 1 (
        reverse
          (select (λ (m : MessageRow). m.room == den) (janitor_pass hourly 100 hub).1.messages))
      ≡ take 1 (reverse (select (λ (m : MessageRow). m.room == den) hub.messages)))
    × (select (is_young (some 5) 100) (janitor_pass hourly 100 hub).1.messages
        ≡ select (is_young (some 5) 100) hub.messages)
janitor_pass-keeps_example = janitor_pass-keeps hourly 100 den hub log
