-- ===== src/Examples/Attention.antt =====
-- The attention policy: Bob mutes a room in which nothing is for him.
use parler_protocol.Prelude.{codes, eq_iff, ◌≡◌, ◌≢◌, arith, none, some, [], ◌∷◌, ◌||◌}
use parler_protocol.Examples.{den, bob, cat, note, from_ann, sample_parts}
use parler_protocol.Protocol.RoomKind.{channel, is_dm}
use parler_protocol.Protocol.Attention.{focus}
use parler_protocol.Store.Messages.{StoredMessage}
use parler_protocol.Connector.Attention.{
  AttentionPolicy, quiet, wake_if, is_handed, is_assigned, set_room, decide,
}
use parler_protocol.Connector.Attention.Modes.{decide-set_room}

abbrev policy : AttentionPolicy
policy = record { mode = focus; quiet_rooms = []; muted_rooms = cat ∷ [] }

abbrev greeting : StoredMessage
greeting = record {
  seq = 1;
  id = note;
  room = den;
  from = from_ann;
  parts = sample_parts (codes "hi");
  mentions = none;
  reply_to = none;
  ts = 10;
}

den_is_not_cat : den ≢ cat
den_is_not_cat e = ground (arith, (eq_iff den cat).1 e)

decide-set_room_example :
    (decide (set_room den quiet policy) den channel greeting bob (some (codes "build"))
      ≡ wake_if (
          is_dm channel
          || (is_handed greeting bob (some (codes "build"))
              || is_assigned greeting (some (codes "build")))))
    × (decide (set_room den quiet policy) cat channel greeting bob (some (codes "build"))
        ≡ decide policy cat channel greeting bob (some (codes "build")))
decide-set_room_example =
    decide-set_room policy den cat quiet channel greeting bob (some (codes "build")) den_is_not_cat
