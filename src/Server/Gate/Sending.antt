-- ===== src/Server/Gate/Sending.antt =====
-- crates/parler-hub/src/server.rs, `Send`: the store after a message and its push.
use parler_protocol.Prelude.{
  Text, ◌==◌, ◌≡◌, refl, ap, ◌∙◌, false, not, Option, List, [], ◌∷◌, choose, choose_outcome, err,
  Option-cases, Bool-cases, inl, inr, ltb, unwrap_or,
}
use parler_protocol.Protocol.Parts.{Part}
use parler_protocol.Store.Messages.{StoredMessage, AppendOutcome}
use parler_protocol.Server.Frames.{Target}
use parler_protocol.Server.State.{Config, Library, Draw, Hub, Authed}
use parler_protocol.Server.Windows.{RateKind}
use parler_protocol.Server.RoomRequests.{resolve_target}
use parler_protocol.Server.Sending.{
  push_member, push_members, fanout, announce, send_to, handle_send, charge_send, charge_room,
}
use parler_protocol.Server.Gate.Members.{Same, append_message-Same}
use parler_protocol.Server.Gate.Outside.{
  is_reserved, IsOutside, IsOutside-Same, resolve_target-IsOutside,
}

push_member-store :
    (d : Draw) (author member : Text) (msg : StoredMessage) (h : Hub)
    → (push_member d author msg member h).store ≡ h.store
unfolding push_member
push_member-store d author member msg h = elim (Bool-cases (member == author)) [
  | inl own ↦ rw (own) refl
  | inr other ↦ elim (Option-cases (h.subscribers member)) [
    | inl quiet ↦ rw (other, quiet) refl
    | inr (conns, has) ↦ rw (other, has) refl
  ]
]

push_members-store :
    (d : Draw) (author : Text) (msg : StoredMessage) (members : List Text) (h : Hub)
    → (push_members d author msg members h).store ≡ h.store
unfolding push_members
push_members-store d author msg [] h = refl
push_members-store d author msg (m ∷ ms) h =
    push_members-store d author msg ms (push_member d author msg m h)
    ∙ push_member-store d author m msg h

pub announce-store :
    (d : Draw) (msg : StoredMessage) (out : AppendOutcome) (h : Hub)
    → (announce d msg out h).store ≡ h.store
unfolding announce fanout
announce-store d msg out h = elim (Bool-cases out.deduped) [
  | inl replay ↦ rw (replay) refl
  | inr new ↦ rw (new) (push_members-store d msg.from.id msg _ _)
]

send_to-members :
    (c : Config) (l : Library) (d : Draw) (me : Authed) (room : Text) (parts : List Part)
    (mentions : Option (List Text)) (reply_to client_id : Option Text) (h : Hub)
    → Same h.store (send_to c l d me room parts mentions reply_to client_id h).1.store
unfolding send_to
send_to-members c l d me room parts mentions reply_to client_id h =
    choose (λ (x : Hub). Same h.store x.store) (not (charge_room c room RateKind.send d.now h).0) _
      _ (λ over. refl)
      λ under.
        choose_outcome (λ (x : Hub). Same h.store x.store) _ _ _
          (λ o.
            ap (λ t. t.members) (announce-store d _ o _)
            ∙ append_message-Same l.codec d.id room _ parts _ reply_to client_id d.now h.store)
          (λ e. append_message-Same l.codec d.id room _ parts _ reply_to client_id d.now h.store)

send_to-IsOutside :
    (room agent : Text) (c : Config) (l : Library) (d : Draw) (me : Authed) (r : Text)
    (parts : List Part) (mentions : Option (List Text)) (reply_to client_id : Option Text) (h : Hub)
    → IsOutside room agent h.store
    → IsOutside room agent (send_to c l d me r parts mentions reply_to client_id h).1.store
send_to-IsOutside room agent c l d me r parts mentions reply_to client_id h out =
    IsOutside-Same room agent h.store
      (send_to c l d me r parts mentions reply_to client_id h).1.store
      (send_to-members c l d me r parts mentions reply_to client_id h) out

pub handle_send-IsOutside :
    (room agent : Text) (c : Config) (l : Library) (d : Draw) (me : Authed) (target : Target)
    (parts : List Part) (mentions : Option (List Text)) (reply_to client_id : Option Text) (h : Hub)
    → is_reserved room ≡ false
    → IsOutside room agent h.store
    → IsOutside room agent (handle_send c l d me target parts mentions reply_to client_id h).1.store
unfolding handle_send
handle_send-IsOutside room agent c l d me target parts mentions reply_to client_id h free out =
    let resolved = resolve_target-IsOutside room agent d me target h.store free out in
    let there = record ((charge_send c me.id d.now h).1) {
      store = (resolve_target d me target h.store).1;
    } in
    choose (λ (x : Hub). IsOutside room agent x.store) (not (charge_send c me.id d.now h).0) _ _
      (λ over. out)
      λ under.
        choose (λ (x : Hub). IsOutside room agent x.store)
          (ltb c.max_message_bytes (unwrap_or (l.parts_bytes parts) 0)) _ _ (λ big. out)
          λ small.
            choose_outcome (λ (x : Hub). IsOutside room agent x.store)
              (resolve_target d me target h.store).0
              (λ r. send_to c l d me r parts mentions reply_to client_id there)
              (λ e. (err e, there))
              (λ r.
                send_to-IsOutside room agent c l d me r parts mentions reply_to client_id there
                  resolved)
              (λ e. resolved)
