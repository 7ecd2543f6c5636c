-- ===== src/Server/Gate/Connections.antt =====
-- crates/parler-hub/src/server.rs, `dispatch`: uploads, handshakes and the frames of a connection leave
-- an agent outside a room.
use parler_protocol.Prelude.{Text, Bool, false, Option, none, some}
use parler_protocol.Server.Frames.{ClientFrame}
use parler_protocol.Server.State.{Hub, Authed, ConnState}
use parler_protocol.Server.Gate.Outside.{IsOutside}
use parler_protocol.Server.Gate.{may_admit}

-- The requests of a connection that can let an agent into a room; before the handshake there are none.
abbrev pub may_admit_on : Text → Text → Option Authed → ClientFrame → Bool
may_admit_on room agent none f = false
may_admit_on room agent (some me) f = may_admit room agent me f

module _ (room agent : Text) where
  -- The agent is outside in the hub after a frame.
  abbrev StaysOut : ConnState × Hub → Type 0
  StaysOut x = IsOutside room agent x.1.store
