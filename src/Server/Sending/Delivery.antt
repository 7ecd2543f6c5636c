-- ===== src/Server/Sending/Delivery.antt =====
-- crates/parler-hub/src/server.rs, `Send`: the message that is pushed and the one that is read.
use parler_protocol.Prelude.{
  ◌<◌, Text, ◌==◌, ◌≡◌, refl, ap, ◌∙◌, true, false, Option, none, some, List, [], ◌∷◌, ◌++◌,
  if◌then◌else◌, Outcome, ok, err,
}
use parler_protocol.Protocol.Parts.{Part, EndpointRef}
use parler_protocol.Protocol.Mentions.{normalize_mentions}
use parler_protocol.Store.Tables.{Store, Error}
use parler_protocol.Store.Rooms.{room_member_ids}
use parler_protocol.Store.Messages.{
  AppendOutcome, StoredMessage, append_message, get_cursor, read_all,
}
use parler_protocol.Store.Messages.Delivery.{pending}
use parler_protocol.Store.Messages.Sending.{IsFaithful, pushed, append_delivers}
use parler_protocol.Server.Frames.{ServerFrame}
use parler_protocol.Server.State.{Config, Library, Draw, Hub, Authed, Answer, of_store}
use parler_protocol.Server.Windows.{RateKind}
use parler_protocol.Server.Sending.{announce, send_to, charge_room}
use parler_protocol.Server.Sending.Pushing.{deliveries, pushed-fanout}
use parler_protocol.Server.Gate.Sending.{announce-store}

-- The mentions that a send stores, and its author.
abbrev pub names_of : Library → Option (List Text) → Option (List Text)
names_of l none = none
names_of l (some ms) = normalize_mentions l.cards.to_lowercase ms

abbrev pub author_of : Authed → EndpointRef
author_of me = record { id = me.id; name = me.name; role = me.role }

announce-pushed :
    (d : Draw) (msg : StoredMessage) (out : AppendOutcome) (h : Hub)
    → out.deduped ≡ false
    → (announce d msg out h).pushed
      ≡ h.pushed ++ deliveries d msg.from.id msg h.subscribers (room_member_ids msg.room h.store)
unfolding announce
announce-pushed d msg out h new = rw new (pushed-fanout d msg.room msg.from.id msg _)

-- What a send makes of the store's answer, in a hub that has been charged.
abbrev pub answered :
    Draw
    → Text
    → EndpointRef
    → List Part
    → Option (List Text)
    → Option Text
    → Hub
    → Outcome Error AppendOutcome × Store
    → Answer Hub
answered d room from parts names reply_to h (err e, t) = (err (of_store e), record h { store = t })
answered d room from parts names reply_to h (ok o, t) = (
  ok (ServerFrame.sent o.id o.seq room),
  announce d (pushed o room from parts names reply_to d.now) o (record h { store = t }),
)

eta :
    (d : Draw) (room : Text) (from : EndpointRef) (parts : List Part) (names : Option (List Text))
    (reply_to : Option Text) (h : Hub) (a : Outcome Error AppendOutcome × Store)
    → (elim a.0 as (λ x. Answer Hub) [
      | err e ↦ (err (of_store e), record h { store = a.1 })
      | ok o ↦ (
        ok (ServerFrame.sent o.id o.seq room),
        announce d (pushed o room from parts names reply_to d.now) o (record h { store = a.1 }),
      )
    ])
      ≡ answered d room from parts names reply_to h a
eta d room from parts names reply_to h (err e, t) = refl
eta d room from parts names reply_to h (ok o, t) = refl

-- Within the limit of its room, a send is what the store's answer makes it.
pub send_to-answered :
    (c : Config) (l : Library) (d : Draw) (me : Authed) (room : Text) (parts : List Part)
    (mentions : Option (List Text)) (reply_to client_id : Option Text) (h : Hub)
    → (charge_room c room RateKind.send d.now h).0 ≡ true
    → send_to c l d me room parts mentions reply_to client_id h
      ≡ answered d room
          (author_of me)
          parts
          (names_of l mentions)
          reply_to
          (charge_room c room RateKind.send d.now h).1
          (append_message l.codec d.id room
            (author_of me)
            parts
            (names_of l mentions)
            reply_to
            client_id
            d.now
            h.store)
unfolding send_to
send_to-answered c l d me room parts none reply_to client_id h allowed =
    let a =
      append_message l.codec d.id room (author_of me) parts none reply_to client_id d.now h.store in
    rw allowed
      (eta d room (author_of me) parts none reply_to (charge_room c room RateKind.send d.now h).1 a)
send_to-answered c l d me room parts (some ms) reply_to client_id h allowed =
    let names = normalize_mentions l.cards.to_lowercase ms in
    let a =
      append_message l.codec d.id room (author_of me) parts names reply_to client_id d.now
        h.store in
    rw allowed (
      eta d room (author_of me) parts names reply_to (charge_room c room RateKind.send d.now h).1 a)

-- A send within the limit of its room, of a message that the store takes as new, is answered with the
-- id and the seq of the message; it pushes to the connections of the members of the room other than
-- the author that are subscribed and take it the same message that it adds, as the last one, to what a
-- reader of the room has pending; and it adds nothing for a reader of another room. The codec reads back what it writes
-- for this message; the reader's cursor is below the counter and its pending rows decode.
pub send_to_delivers :
    (c : Config) (l : Library) (d : Draw) (me : Authed) (room : Text) (parts : List Part)
    (mentions : Option (List Text)) (reply_to client_id : Option Text) (h : Hub)
    (out : AppendOutcome) (t : Store) (r a : Text) (before : List StoredMessage)
    → IsFaithful l.codec parts (names_of l mentions)
    → (charge_room c room RateKind.send d.now h).0 ≡ true
    → append_message l.codec d.id room
        (author_of me)
        parts
        (names_of l mentions)
        reply_to
        client_id
        d.now
        h.store
      ≡ (ok out, t)
    → out.deduped ≡ false
    → get_cursor r a h.store < h.store.next_seq
    → read_all l.codec (pending r a h.store) ≡ ok before
    → let msg = pushed out room (author_of me) parts (names_of l mentions) reply_to d.now in
      let sent = send_to c l d me room parts mentions reply_to client_id h in
      (sent.0 ≡ ok (ServerFrame.sent msg.id msg.seq room))
      × ((sent.1.pushed
            ≡ h.pushed ++ deliveries d me.id msg h.subscribers (room_member_ids room sent.1.store))
          × (read_all l.codec (pending r a sent.1.store)
              ≡ ok (before ++ (if room == r then msg ∷ [] else []))))
send_to_delivers c l d me room parts mentions reply_to client_id h out t r a before faith allowed e
      new cur b =
    let msg = pushed out room (author_of me) parts (names_of l mentions) reply_to d.now in
    let stored = record ((charge_room c room RateKind.send d.now h).1) { store = t } in
    let result =
      send_to-answered c l d me room parts mentions reply_to client_id h allowed
      ∙ ap
          (answered d room (author_of me) parts (names_of l mentions) reply_to
            (charge_room c room RateKind.send d.now h).1)
          e in
    rw (result, announce-store d msg out stored)
      (
        refl,
        (
          announce-pushed d msg out stored new,
          append_delivers l.codec d.id room (author_of me) parts (names_of l mentions) reply_to
              client_id d.now h.store t out r a before faith e new cur b,
        ),
      )
