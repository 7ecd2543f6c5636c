-- ===== src/Connector/Attention.antt =====
-- crates/parler-connector/src/attention.rs: which messages wake an agent, by its own policy.
pub mod Modes
use parler_protocol.Prelude.{
  text_leb, Text, codes, ◌==◌, to_ascii_lowercase, eq_ignore_ascii_case, Bool, not, ◌||◌, true,
  false, Option, none, some, is_some_and, List, [], ◌∷◌, ◌++◌, select, any, if◌then◌else◌, ltb, eqb,
  ◌&&◌,
}
use parler_protocol.Protocol.RoomKind.{RoomKind, is_dm}
use parler_protocol.Protocol.Attention.{Attention, open_, dnd, focus}
use parler_protocol.Protocol.Parts.{HandoffRef, DispatchRef, handoffs, dispatches, is_for}
use parler_protocol.Store.Messages.{StoredMessage}

pub record AttentionPolicy : Type 0 where
  pub mode : Attention
  pub quiet_rooms : List Text
  pub muted_rooms : List Text

pub data AttentionDecision : Type 0 where
  wake hold drop : AttentionDecision

pub data RoomAttention : Type 0 where
  quiet muted inherit : RoomAttention

unfoldable pub parse : Text → Option RoomAttention
parse t =
    let s = to_ascii_lowercase t in
    if s == codes "quiet"
    then some quiet
    else if s == codes "muted"
    then some muted
    else if (s == codes "inherit") || ((s == codes "open") || (s == codes "default"))
    then some inherit
    else none

-- `Vec::retain(|r| r != room)`.
abbrev retain_other : Text → List Text → List Text
retain_other room rs = select (λ r. not (r == room)) rs

place : Text → List Text → List Text
unfolding text_leb
place x [] = x ∷ []
place x (y ∷ ys) = let rest = y ∷ place x ys in if text_leb x y then x ∷ y ∷ ys else rest

-- `Vec::sort`.
unfoldable pub sort : List Text → List Text
unfolding place
sort [] = []
sort (x ∷ xs) = place x (sort xs)

-- `Vec::dedup`: of neighbours that are equal, the first stays.
unfoldable pub dedup_from : Text → List Text → List Text
dedup_from x [] = x ∷ []
dedup_from x (y ∷ ys) =
    let same = dedup_from x ys in let next = x ∷ dedup_from y ys in if x == y then same else next

unfoldable pub dedup : List Text → List Text
dedup [] = []
dedup (x ∷ xs) = dedup_from x xs

unfoldable pub set_room : Text → RoomAttention → AttentionPolicy → AttentionPolicy
set_room room mode p =
    let q = retain_other room p.quiet_rooms in
    let m = retain_other room p.muted_rooms in
    record p {
      quiet_rooms = dedup (sort (elim mode [ quiet ↦ q ++ room ∷ [] | muted ↦ q | inherit ↦ q ]));
      muted_rooms = dedup (sort (elim mode [ quiet ↦ m | muted ↦ m ++ room ∷ [] | inherit ↦ m ]));
    }

abbrev pub wake_if : Bool → AttentionDecision
wake_if b = if b then wake else hold

unfoldable pub is_handed : StoredMessage → Text → Option Text → Bool
is_handed message name role = any (λ (h : HandoffRef). is_for h name role) (handoffs message.parts)

unfoldable pub is_assigned : StoredMessage → Option Text → Bool
is_assigned message role =
    any (λ (d : DispatchRef). is_some_and role (λ r. eq_ignore_ascii_case d.role r))
      (dispatches message.parts)

unfoldable pub decide :
    AttentionPolicy → Text → RoomKind → StoredMessage → Text → Option Text → AttentionDecision
decide p room kind message name role =
    let handoff = is_handed message name role in
    let assigned = is_assigned message role in
    let direct = is_dm kind || (handoff || assigned) in
    if any (λ r. r == room) p.muted_rooms
    then drop
    else if any (λ r. r == room) p.quiet_rooms
    then wake_if direct
    else elim p.mode [ open_ ↦ wake | dnd ↦ wake_if direct | focus ↦ wake_if (handoff || assigned) ]
