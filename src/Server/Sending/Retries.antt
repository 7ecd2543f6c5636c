-- ===== src/Server/Sending/Retries.antt =====
-- crates/parler-hub/src/server.rs, `Send`: a send that is repeated under its idempotency key.
use parler_protocol.Prelude.{Text, Bool, Option, some, List, Outcome}
use parler_protocol.Protocol.Parts.{Part}
use parler_protocol.Store.Tables.{Store, Error}
use parler_protocol.Store.Messages.{AppendOutcome, append_message}
use parler_protocol.Server.State.{Config, Library, Draw, Hub, Authed, Answer}
use parler_protocol.Server.Windows.{RateKind}
use parler_protocol.Server.Sending.{send_to, charge_room}
use parler_protocol.Server.Sending.Delivery.{names_of, author_of}

module _ (c : Config) (l : Library) (me : Authed) (room : Text) (parts : List Part)
    (mentions : Option (List Text)) (reply_to : Option Text) (k : Text) where
  -- The send, with what one try of it draws.
  abbrev pub try : Draw → Hub → Answer Hub
  try d h = send_to c l d me room parts mentions reply_to (some k) h

  abbrev charge : Draw → Hub → Bool × Hub
  charge d h = charge_room c room RateKind.send d.now h

  abbrev append : Draw → Store → Outcome Error AppendOutcome × Store
  append d s =
      append_message l.codec d.id room (author_of me) parts (names_of l mentions) reply_to (some k)
        d.now s
