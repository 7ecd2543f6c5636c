-- ===== src/Protocol/TaskStatus.antt =====
-- crates/parler-protocol/src/hub.rs, TaskStatus.
use parler_protocol.Prelude.{
  Text, codes, ◌==◌, trim, to_ascii_lowercase, Bool, true, false, ◌||◌, Option, none, some,
  if◌then◌else◌,
}

pub data TaskStatus : Type 0 where
  accepted working awaiting done failed cancelled : TaskStatus

unfoldable pub label : TaskStatus → Text
label accepted = codes "accepted"
label working = codes "working"
label awaiting = codes "awaiting"
label done = codes "done"
label failed = codes "failed"
label cancelled = codes "cancelled"

unfoldable pub is_terminal : TaskStatus → Bool
is_terminal done = true
is_terminal failed = true
is_terminal cancelled = true
is_terminal _ = false

unfoldable pub parse : Text → Option TaskStatus
parse s =
    let t = to_ascii_lowercase (trim s) in
    if t == codes "accepted"
    then some accepted
    else if t == codes "working"
    then some working
    else if t == codes "awaiting"
    then some awaiting
    else if t == codes "done"
    then some done
    else if t == codes "failed"
    then some failed
    else if (t == codes "cancelled") || (t == codes "canceled")
    then some cancelled
    else none
