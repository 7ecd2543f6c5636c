-- ===== src/Protocol/Attention.antt =====
-- crates/parler-protocol/src/hub.rs, Attention.
use parler_protocol.Prelude.{
  Text, codes, ◌==◌, to_ascii_lowercase, Option, none, some, if◌then◌else◌,
}

pub data Attention : Type 0 where
  open_ dnd focus : Attention

unfoldable pub as_str : Attention → Text
as_str open_ = codes "open"
as_str dnd = codes "dnd"
as_str focus = codes "focus"

unfoldable pub parse : Text → Option Attention
parse s =
    let t = to_ascii_lowercase s in
    if t == codes "open"
    then some open_
    else if t == codes "dnd"
    then some dnd
    else if t == codes "focus"
    then some focus
    else none
