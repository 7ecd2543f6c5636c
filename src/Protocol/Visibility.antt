-- ===== src/Protocol/Visibility.antt =====
-- crates/parler-protocol/src/hub.rs, Visibility.
use parler_protocol.Prelude.{Text, codes, ◌==◌, Option, none, some, if◌then◌else◌}

pub data Visibility : Type 0 where
  public private : Visibility

unfoldable pub as_str : Visibility → Text
as_str public = codes "public"
as_str private = codes "private"

unfoldable pub parse : Text → Option Visibility
parse s =
    if s == codes "public" then some public else if s == codes "private" then some private else none
