-- ===== src/Server/Gate/Members.antt =====
-- crates/parler-hub/src/store.rs: the operations that leave the table of members alone.
use parler_protocol.Prelude.{
  ℕ, Text, ◌==◌, ◌≡◌, refl, ap, ◌∙◌, Bool, not, ◌&&◌, ◌||◌, Option, none, some, List, choose,
  choose_outcome, Outcome, ok, err, Option-cases, inl, inr, find, any, leb, eqb, length,
}
use parler_protocol.Protocol.Parts.{Part, EndpointRef}
use parler_protocol.Protocol.Visibility.{Visibility}
use parler_protocol.Protocol.TaskStatus.{TaskStatus, is_terminal}
use parler_protocol.Protocol.Cards.{AgentCard}
use parler_protocol.Store.Tables.{
  Store, Error, Codec, MessageRow, InviteRow, JoinRequestRow, TokenRow, worker_key, claim_key,
}
use parler_protocol.Store.Rooms.{room_owned_by, set_room_owner}
use parler_protocol.Store.Invites.{create_invite, charge, request_join, pending, was_denied}
use parler_protocol.Protocol.RoomKind.{RoomKind}
use parler_protocol.Store.Directory.{CardCodec, register_card}
use parler_protocol.Store.Tokens.{mint_directory_token, mint_watch_token}
use parler_protocol.Store.Messages.{
  replays, message_row, insert_message, encode_mentions, append_message,
}
use parler_protocol.Store.Service.{
  serve_role, take_claim, may_take, claim_service_message, owns_live_claim, is_available,
  is_dispatched, complete_service_message,
}
use parler_protocol.Store.Facts.{Fact, vec_dimension, is_keyed, write_fact, remember}
use parler_protocol.Server.State.{reply, answer}
use parler_protocol.Server.Frames.{ServerFrame}

-- The second store has the members of the first.
abbrev pub Same : Store → Store → Type 0
Same s t = t.members ≡ s.members

-- What a call of the store leaves is what its reply leaves.
pub reply_state :
    {A : Type 0} (f : A → ServerFrame) (r : Outcome Error A × Store) → (reply f r).1 ≡ r.1
reply_state f (ok a, s) = refl
reply_state f (err e, s) = refl

pub answer_state :
    {A : Type 0} (f : A → ServerFrame) (s : Store) (o : Outcome Error A) → (answer f s o).1 ≡ s
answer_state f s (ok a) = refl
answer_state f s (err e) = refl

pub register_card-Same :
    (c : CardCodec) (card : AgentCard) (sig : Option Text) (verified : Bool) (v : Visibility)
    (now : ℕ) (s : Store)
    → Same s (register_card c card sig verified v now s).1
unfolding register_card
register_card-Same c card sig verified v now s = elim (Option-cases (c.encode_card card)) [
  | inl failed ↦ rw (failed, register_card) refl
  | inr (json, done) ↦ rw (done, register_card) refl
]

pub mint_directory_token-Same :
    (token scope : Text) (expires : ℕ) (me : Text) (now : ℕ) (s : Store)
    → Same s (mint_directory_token token scope expires me now s).1
unfolding mint_directory_token
mint_directory_token-Same token scope expires me now s =
    choose (Same s) (any (λ (t : TokenRow). t.token == token) s.directory_tokens) _ _ (λ t. refl)
      (λ f. refl)

pub mint_watch_token-Same :
    (token room me : Text) (expires now : ℕ) (s : Store)
    → Same s (mint_watch_token token room me expires now s).1
unfolding mint_watch_token
mint_watch_token-Same token room me expires now s =
    choose (Same s) (room_owned_by room me s) _ _
      (λ mine.
        choose (Same s) (any (λ (t : TokenRow). t.token == token) s.directory_tokens) _ _
          (λ t. refl) (λ f. refl))
      (λ f. refl)

take_claim-Same :
    (room message worker : Text) (now until : ℕ) (s : Store)
    → Same s (take_claim room message worker now until s).1
unfolding take_claim
take_claim-Same room message worker now until s =
    elim (Option-cases (find (claim_key room message) s.service_claims)) [
      | inl new ↦ rw (new, take_claim) refl
      | inr (c, old) ↦
          rw (old, take_claim) (choose (Same s) (may_take worker now c) _ _ (λ t. refl) (λ f. refl))
    ]

pub claim_service_message-Same :
    (codec : Codec) (room message worker : Text) (lease now : ℕ) (s : Store)
    → Same s (claim_service_message codec room message worker lease now s).1
unfolding claim_service_message
claim_service_message-Same codec room message worker lease now s =
    elim (Option-cases (find (worker_key room worker) s.service_workers)) [
      | inl nobody ↦ rw (nobody, claim_service_message) refl
      | inr (w, found) ↦
          rw (found, claim_service_message)
            (choose (Same s)
              ((owns_live_claim room message worker now s || is_available worker now s)
                && is_dispatched codec room message w.role s)
              _ _ (λ t. take_claim-Same room message worker now _ s) (λ f. refl))
    ]

pub complete_service_message-Same :
    (room message worker : Text) (status : TaskStatus) (now : ℕ) (s : Store)
    → Same s (complete_service_message room message worker status now s).1
unfolding complete_service_message
complete_service_message-Same room message worker status now s =
    choose (Same s) (is_terminal status) _ _ (λ t. refl) (λ f. refl)

write_fact-Same :
    (author : Text) (fact : Fact) (now : ℕ) (model : Option Text) (s : Store)
    → Same s (write_fact author fact now model s).1
unfolding write_fact
write_fact-Same author fact now model s = elim (Option-cases fact.key) [
  | inl unkeyed ↦ rw (unkeyed, write_fact) refl
  | inr (k, keyed) ↦ elim (Option-cases (find (is_keyed author fact.room k) s.facts)) [
    | inl new ↦ rw (keyed, new, write_fact) refl
    | inr (old, found) ↦ rw (keyed, found, write_fact) refl
  ]
]

pub remember-Same :
    (author : Text) (fact : Fact) (now : ℕ) (e : Option (List ℕ)) (model : Option Text) (s : Store)
    → Same s (remember author fact now e model s).1
unfolding remember
remember-Same author fact now none model s = write_fact-Same author fact now model s
remember-Same author fact now (some e) model s =
    choose (Same s) (not (eqb (length e) vec_dimension)) _ _ (λ t. refl)
      λ f. write_fact-Same author fact now model s

insert_message-Same :
    (row : MessageRow) (parts : List Part) (s : Store) → Same s (insert_message row parts s).1
unfolding insert_message
insert_message-Same row parts s = elim (Option-cases (find (replays row) s.messages)) [
  | inl new ↦
      rw (new, insert_message)
        (choose (Same s) (any (λ (m : MessageRow). m.id == row.id) s.messages) _ _ (λ t. refl)
          (λ f. refl))
  | inr (old, found) ↦ rw (found, insert_message) refl
]

pub append_message-Same :
    (c : Codec) (id room : Text) (from : EndpointRef) (parts : List Part)
    (mentions : Option (List Text)) (reply_to client_id : Option Text) (now : ℕ) (s : Store)
    → Same s (append_message c id room from parts mentions reply_to client_id now s).1
unfolding append_message
append_message-Same c id room from parts mentions reply_to client_id now s =
    elim (Option-cases (c.encode parts)) [
      | inl failed ↦ rw (failed, append_message) refl
      | inr (json, done) ↦
          rw (done, append_message)
            (choose_outcome (Same s) (encode_mentions c mentions) _ _
              (λ names.
                insert_message-Same
                  (message_row id room from parts json names reply_to client_id now) parts s)
              (λ e. refl))
    ]

pub set_room_owner-Same : (room me : Text) (s : Store) → Same s (set_room_owner room me s)
unfolding set_room_owner
set_room_owner-Same room me s = refl

pub serve_role-Same :
    (room me role : Text) (now : ℕ) (s : Store) → Same s (serve_role room me role now s)
unfolding serve_role
serve_role-Same room me role now s = refl

pub create_invite-Same :
    (code room : Text) (kind : RoomKind) (role : Option Text) (uses expires : ℕ) (me : Text)
    (approval : Bool) (now : ℕ) (s : Store)
    → Same s (create_invite code room kind role uses expires me approval now s).1
unfolding create_invite
create_invite-Same code room kind role uses expires me approval now s =
    choose (Same s) (any (λ (i : InviteRow). i.code == code) s.invites) _ _ (λ t. refl) (λ f. refl)

pub reply-Same :
    {A : Type 0} (f : A → ServerFrame) (s : Store) (r : Outcome Error A × Store)
    → Same s r.1
    → Same s (reply f r).1
reply-Same f s r same = ap (λ (t : Store). t.members) (reply_state f r) ∙ same

pub charge-Same : (code : Text) (s : Store) → Same s (charge code s)
unfolding charge
charge-Same code s = refl

pub request_join-Same :
    (code : Text) (i : InviteRow) (agent : Text) (now : ℕ) (s : Store)
    (prior : Option JoinRequestRow)
    → Same s (request_join code i agent now s prior).1
unfolding request_join
request_join-Same code i agent now s none =
    choose (Same s) (leb i.max_uses i.uses) _ _ (λ t. refl) (λ f. charge-Same code s)
request_join-Same code i agent now s (some r) =
    choose (Same s) (r.status == pending) _ _ (λ t. refl)
      λ f.
        choose (Same s) (r.status == was_denied) _ _ (λ t. refl)
          λ f. choose (Same s) (leb i.max_uses i.uses) _ _ (λ t. refl) (λ f. charge-Same code s)
