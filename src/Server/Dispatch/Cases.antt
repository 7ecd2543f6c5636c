-- ===== src/Server/Dispatch/Cases.antt =====
-- crates/parler-hub/src/server.rs, `dispatch`: which handler a frame goes to, as a rule for what holds
-- of the connection and the hub after it.
use parler_protocol.Prelude.{ℕ, Text, Bool, Option}
use parler_protocol.Server.Frames.{ClientFrame, Target}
use parler_protocol.Server.State.{Config, Library, Draw, Hub, Authed, ConnState}
use parler_protocol.Server.Sending.{subscribe}
use parler_protocol.Server.Uploads.{handle_put_blob, handle_get_blob}
use parler_protocol.Server.Dispatch.{handle_authed, route, dispatch_hello, dispatch_other, dispatch}

module _ (P : ConnState × Hub → Type 0) (c : Config) (l : Library) (d : Draw) (permit : Bool)
    (conn : ConnState) (h : Hub) where
  pub route_by :
      (me : Authed) (f : ClientFrame)
      → ((target : Target)
          → (sha256 : Text) → (size : ℕ) → (media_type : Option Text)
          → P (handle_put_blob c d permit me target sha256 size media_type conn h).1)
      → ((id : Text) → P (conn, (handle_get_blob d me id h).1))
      → P (conn, subscribe me.id conn.conn_id h)
      → P (conn, (handle_authed c l d me f h).1)
      → P (route c l d permit me f conn h).1
  route_by me (ClientFrame.hello id name role echoed sig secret) put get sub other = other
  route_by me (ClientFrame.invite kind room ttl uses approval) put get sub other = other
  route_by me (ClientFrame.redeem code) put get sub other = other
  route_by me (ClientFrame.join_requests room) put get sub other = other
  route_by me (ClientFrame.resolve_join room agent approve) put get sub other = other
  route_by me (ClientFrame.serve name) put get sub other = other
  route_by me (ClientFrame.claim room message lease) put get sub other = other
  route_by me (ClientFrame.queue room role limit) put get sub other = other
  route_by me (ClientFrame.complete room message status) put get sub other = other
  route_by me (ClientFrame.register card visibility sig) put get sub other = other
  route_by me (ClientFrame.discover scope query tag skill status limit) put get sub other = other
  route_by me (ClientFrame.lookup id) put get sub other = other
  route_by me (ClientFrame.mint_directory_token ttl) put get sub other = other
  route_by me (ClientFrame.mint_watch room ttl) put get sub other = other
  route_by me (ClientFrame.send target parts mentions reply_to client_id) put get sub other = other
  route_by me (ClientFrame.pull room since limit wait ack) put get sub other = other
  route_by me (ClientFrame.remember fact embedding model) put get sub other = other
  route_by me (ClientFrame.recall query room limit embedding key) put get sub other = other
  route_by me ClientFrame.rooms put get sub other = other
  route_by me (ClientFrame.delete_room room) put get sub other = other
  route_by me (ClientFrame.roster room) put get sub other = other
  route_by me (ClientFrame.presence status activity attention) put get sub other = other
  route_by me (ClientFrame.set_attention attention) put get sub other = other
  route_by me (ClientFrame.put_blob target sha256 size media_type) put get sub other =
      put target sha256 size media_type
  route_by me (ClientFrame.get_blob id) put get sub other = get id
  route_by me ClientFrame.subscribe put get sub other = sub
  route_by me ClientFrame.ping put get sub other = other

  pub dispatch_by :
      (f : ClientFrame)
      → ((id : Text)
          → (name : Text) → (role : Option Text) → (sig : Option Text) → (secret : Option Text)
          → P (dispatch_hello c l d id name role sig secret conn h).1)
      → P (dispatch_other c l d permit f conn.authed conn h).1
      → P (dispatch c l d permit f conn h).1
  unfolding dispatch
  dispatch_by (ClientFrame.hello id name role echoed sig secret) hi other =
      hi id name role sig secret
  dispatch_by (ClientFrame.invite kind room ttl uses approval) hi other = other
  dispatch_by (ClientFrame.redeem code) hi other = other
  dispatch_by (ClientFrame.join_requests room) hi other = other
  dispatch_by (ClientFrame.resolve_join room agent approve) hi other = other
  dispatch_by (ClientFrame.serve name) hi other = other
  dispatch_by (ClientFrame.claim room message lease) hi other = other
  dispatch_by (ClientFrame.queue room role limit) hi other = other
  dispatch_by (ClientFrame.complete room message status) hi other = other
  dispatch_by (ClientFrame.register card visibility sig) hi other = other
  dispatch_by (ClientFrame.discover scope query tag skill status limit) hi other = other
  dispatch_by (ClientFrame.lookup id) hi other = other
  dispatch_by (ClientFrame.mint_directory_token ttl) hi other = other
  dispatch_by (ClientFrame.mint_watch room ttl) hi other = other
  dispatch_by (ClientFrame.send target parts mentions reply_to client_id) hi other = other
  dispatch_by (ClientFrame.pull room since limit wait ack) hi other = other
  dispatch_by (ClientFrame.remember fact embedding model) hi other = other
  dispatch_by (ClientFrame.recall query room limit embedding key) hi other = other
  dispatch_by ClientFrame.rooms hi other = other
  dispatch_by (ClientFrame.delete_room room) hi other = other
  dispatch_by (ClientFrame.roster room) hi other = other
  dispatch_by (ClientFrame.presence status activity attention) hi other = other
  dispatch_by (ClientFrame.set_attention attention) hi other = other
  dispatch_by (ClientFrame.put_blob target sha256 size media_type) hi other = other
  dispatch_by (ClientFrame.get_blob id) hi other = other
  dispatch_by ClientFrame.subscribe hi other = other
  dispatch_by ClientFrame.ping hi other = other
