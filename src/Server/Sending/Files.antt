-- ===== src/Server/Sending/Files.antt =====
-- crates/parler-hub/src/server.rs, `Send`: the files of blobs are left alone.
use parler_protocol.Prelude.{
  Text, ◌==◌, ◌≡◌, refl, ◌∙◌, not, Option, List, [], ◌∷◌, ltb, Bool-cases, Option-cases, inl, inr,
  choose, choose_outcome, unwrap_or,
}
use parler_protocol.Protocol.Parts.{Part}
use parler_protocol.Store.Messages.{StoredMessage, AppendOutcome}
use parler_protocol.Server.Frames.{Target}
use parler_protocol.Server.State.{Config, Library, Draw, Hub, Authed, ConnState}
use parler_protocol.Server.Windows.{RateKind}
use parler_protocol.Server.Sending.{
  push_member, push_members, fanout, announce, send_to, handle_send, charge_send, charge_room,
}

abbrev pub Same : Hub → Hub → Type 0
Same h x = x.files ≡ h.files

abbrev pub SameAt : Hub → ConnState × Hub → Type 0
SameAt h x = x.1.files ≡ h.files

push_member-files :
    (d : Draw) (author member : Text) (msg : StoredMessage) (h : Hub)
    → (push_member d author msg member h).files ≡ h.files
unfolding push_member
push_member-files d author member msg h = elim (Bool-cases (member == author)) [
  | inl own ↦ rw (own) refl
  | inr other ↦ elim (Option-cases (h.subscribers member)) [
    | inl quiet ↦ rw (other, quiet) refl
    | inr (conns, has) ↦ rw (other, has) refl
  ]
]

push_members-files :
    (d : Draw) (author : Text) (msg : StoredMessage) (members : List Text) (h : Hub)
    → (push_members d author msg members h).files ≡ h.files
unfolding push_members
push_members-files d author msg [] h = refl
push_members-files d author msg (m ∷ ms) h =
    push_members-files d author msg ms (push_member d author msg m h)
    ∙ push_member-files d author m msg h

announce-files :
    (d : Draw) (msg : StoredMessage) (out : AppendOutcome) (h : Hub)
    → (announce d msg out h).files ≡ h.files
unfolding announce fanout
announce-files d msg out h = elim (Bool-cases out.deduped) [
  | inl replay ↦ rw (replay) refl
  | inr new ↦ rw (new) (push_members-files d msg.from.id msg _ _)
]

send_to-files :
    (c : Config) (l : Library) (d : Draw) (me : Authed) (room : Text) (parts : List Part)
    (mentions : Option (List Text)) (reply_to client_id : Option Text) (h : Hub)
    → (send_to c l d me room parts mentions reply_to client_id h).1.files ≡ h.files
unfolding send_to
send_to-files c l d me room parts mentions reply_to client_id h =
    choose (Same h) (not (charge_room c room RateKind.send d.now h).0) _ _ (λ over. refl)
      λ under. choose_outcome (Same h) _ _ _ (λ o. announce-files d _ o _) (λ e. refl)

pub handle_send-files :
    (c : Config) (l : Library) (d : Draw) (me : Authed) (target : Target) (parts : List Part)
    (mentions : Option (List Text)) (reply_to client_id : Option Text) (h : Hub)
    → (handle_send c l d me target parts mentions reply_to client_id h).1.files ≡ h.files
unfolding handle_send
handle_send-files c l d me target parts mentions reply_to client_id h =
    choose (Same h) (not (charge_send c me.id d.now h).0) _ _ (λ over. refl)
      λ under.
        choose (Same h) (ltb c.max_message_bytes (unwrap_or (l.parts_bytes parts) 0)) _ _
          (λ big. refl)
          λ small.
            choose_outcome (Same h) _ _ _
              (λ room. send_to-files c l d me room parts mentions reply_to client_id _) (λ e. refl)
