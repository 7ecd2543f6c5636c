-- ===== src/Protocol/RoomKind.antt =====
-- crates/parler-protocol/src/hub.rs, RoomKind.
use parler_protocol.Prelude.{
  Text, codes, ◌==◌, Bool, true, false, Option, none, some, if◌then◌else◌,
}

pub data RoomKind : Type 0 where
  channel dm service : RoomKind

unfoldable pub as_str : RoomKind → Text
as_str channel = codes "channel"
as_str dm = codes "dm"
as_str service = codes "service"

unfoldable pub parse : Text → Option RoomKind
parse s =
    if s == codes "channel"
    then some channel
    else if s == codes "dm"
    then some dm
    else if s == codes "service"
    then some service
    else none

-- The `==` derived for the enum.
abbrev pub is_dm : RoomKind → Bool
is_dm dm = true
is_dm _ = false

abbrev pub is_channel : RoomKind → Bool
is_channel channel = true
is_channel _ = false

abbrev pub is_service : RoomKind → Bool
is_service service = true
is_service _ = false
