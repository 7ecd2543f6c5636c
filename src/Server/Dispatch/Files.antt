-- ===== src/Server/Dispatch/Files.antt =====
-- crates/parler-hub/src/server.rs, `dispatch`: no frame writes a file.
use parler_protocol.Prelude.{
  ◌+◌, Text, ◌≡◌, refl, Bool, not, Option, none, some, ltb, choose, is_some, is_some_and, min,
}
use parler_protocol.Server.Frames.{ClientFrame}
use parler_protocol.Server.State.{Config, Library, Draw, Hub, Authed, ConnState}
use parler_protocol.Server.Windows.{RateKind, rate_allows}
use parler_protocol.Server.Sending.{subscribe}
use parler_protocol.Server.Bytes.{utf8}
use parler_protocol.Server.Hello.{
  challenge_valid, secret_matches, handle_hello, hello_fits, answer_signed, answer_challenge,
}
use parler_protocol.Server.Dispatch.{
  handle_authed, route, dispatch_authed, dispatch_other, dispatch,
}
use parler_protocol.Server.Dispatch.Cases.{route_by, dispatch_by}
use parler_protocol.Server.FrameBounds.{validate_frame_bounds}
use parler_protocol.Server.Sending.Files.{SameAt, handle_send-files}
use parler_protocol.Server.Uploads.Files.{handle_put_blob-files, handle_get_blob-files}

handle_authed-files :
    (c : Config) (l : Library) (d : Draw) (me : Authed) (f : ClientFrame) (h : Hub)
    → (handle_authed c l d me f h).1.files ≡ h.files
unfolding handle_authed
handle_authed-files c l d me (ClientFrame.hello id name role echoed sig secret) h = refl
handle_authed-files c l d me (ClientFrame.send target parts mentions reply_to client_id) h =
    handle_send-files c l d me target parts mentions reply_to client_id h
handle_authed-files c l d me (ClientFrame.put_blob target sha256 size media_type) h = refl
handle_authed-files c l d me (ClientFrame.get_blob id) h = refl
handle_authed-files c l d me ClientFrame.subscribe h = refl
handle_authed-files c l d me (ClientFrame.invite kind room ttl uses approval) h = refl
handle_authed-files c l d me (ClientFrame.redeem code) h = refl
handle_authed-files c l d me (ClientFrame.join_requests room) h = refl
handle_authed-files c l d me (ClientFrame.resolve_join room agent approve) h = refl
handle_authed-files c l d me (ClientFrame.serve name) h = refl
handle_authed-files c l d me (ClientFrame.claim room message lease) h = refl
handle_authed-files c l d me (ClientFrame.queue room role limit) h = refl
handle_authed-files c l d me (ClientFrame.complete room message status) h = refl
handle_authed-files c l d me (ClientFrame.register card visibility sig) h = refl
handle_authed-files c l d me (ClientFrame.discover scope query tag skill status limit) h = refl
handle_authed-files c l d me (ClientFrame.lookup id) h = refl
handle_authed-files c l d me (ClientFrame.mint_directory_token ttl) h = refl
handle_authed-files c l d me (ClientFrame.mint_watch room ttl) h = refl
handle_authed-files c l d me (ClientFrame.remember fact embedding model) h = refl
handle_authed-files c l d me (ClientFrame.recall query room limit embedding key) h = refl
handle_authed-files c l d me ClientFrame.rooms h = refl
handle_authed-files c l d me (ClientFrame.delete_room room) h = refl
handle_authed-files c l d me (ClientFrame.roster room) h = refl
handle_authed-files c l d me (ClientFrame.presence status activity attention) h = refl
handle_authed-files c l d me (ClientFrame.set_attention attention) h = refl
handle_authed-files c l d me ClientFrame.ping h = refl
handle_authed-files c l d me (ClientFrame.pull room since limit wait ack) h = refl

route-files :
    (c : Config) (l : Library) (d : Draw) (permit : Bool) (me : Authed) (f : ClientFrame)
    (conn : ConnState) (h : Hub)
    → SameAt h (route c l d permit me f conn h).1
unfolding subscribe
route-files c l d permit me f conn h =
    route_by (SameAt h) c l d permit conn h me f
      (λ target sha256 size media_type.
        handle_put_blob-files c d permit me target sha256 size media_type conn h)
      (λ id. handle_get_blob-files d me id h) refl (handle_authed-files c l d me f h)

dispatch_authed-files :
    (c : Config) (l : Library) (d : Draw) (permit : Bool) (me : Authed) (f : ClientFrame)
    (conn : ConnState) (h : Hub)
    → SameAt h (dispatch_authed c l d permit me f conn h).1
dispatch_authed-files c l d permit me f conn h =
    choose (SameAt h) (not (rate_allows c.limits me.id RateKind.operation d.now h.rates.rate).0) _ _
      (λ over. refl)
      λ under.
        choose (SameAt h) (not (validate_frame_bounds c l f)) _ _ (λ big. refl)
          λ fit. route-files c l d permit me f conn _

dispatch_other-files :
    (c : Config) (l : Library) (d : Draw) (permit : Bool) (f : ClientFrame) (a : Option Authed)
    (conn : ConnState) (h : Hub)
    → SameAt h (dispatch_other c l d permit f a conn h).1
dispatch_other-files c l d permit f none conn h = refl
dispatch_other-files c l d permit f (some me) conn h =
    dispatch_authed-files c l d permit me f conn h

answer_challenge-files :
    (c : Config) (l : Library) (d : Draw) (id name : Text) (role secret : Option Text)
    (issued sig : Text) (conn : ConnState) (h : Hub)
    → SameAt h (answer_challenge c l d id name role secret issued sig conn h).1
answer_challenge-files c l d id name role secret issued sig conn h =
    choose (SameAt h) (not (challenge_valid l issued c.public_url d.now)) _ _ (λ t. refl)
      λ f.
        choose (SameAt h) (not (l.verify id (utf8 issued) sig)) _ _ (λ t. refl)
          λ f.
            choose (SameAt h)
              (is_some_and c.join_secret (λ expected. not (secret_matches expected secret))) _ _
              (λ t. refl) (λ f. refl)

answer_signed-files :
    (c : Config) (l : Library) (d : Draw) (id name : Text) (role secret : Option Text) (sig : Text)
    (issued : Option Text) (conn : ConnState) (h : Hub)
    → SameAt h (answer_signed c l d id name role secret sig issued conn h).1
answer_signed-files c l d id name role secret sig none conn h = refl
answer_signed-files c l d id name role secret sig (some issued) conn h =
    answer_challenge-files c l d id name role secret issued sig conn h

handle_hello-files :
    (c : Config) (l : Library) (d : Draw) (id name : Text) (role sig secret : Option Text)
    (conn : ConnState) (h : Hub)
    → SameAt h (handle_hello c l d id name role sig secret conn h).1
unfolding handle_hello
handle_hello-files c l d id name role none secret conn h =
    choose (SameAt h) (not (hello_fits id name role none secret)) _ _ (λ t. refl) (λ f. refl)
handle_hello-files c l d id name role (some sig) secret conn h =
    choose (SameAt h) (not (hello_fits id name role (some sig) secret)) _ _ (λ t. refl)
      λ f. answer_signed-files c l d id name role secret sig conn.nonce conn h

pub dispatch-files :
    (c : Config) (l : Library) (d : Draw) (permit : Bool) (f : ClientFrame) (conn : ConnState)
    (h : Hub)
    → SameAt h (dispatch c l d permit f conn h).1
dispatch-files c l d permit f conn h =
    dispatch_by (SameAt h) c l d permit conn h f
      (λ id name role sig secret.
        choose (SameAt h) (is_some conn.authed) _ _ (λ t. refl)
          λ f.
            choose (SameAt h) (ltb 4 (min 255 (conn.hello_frames + 1))) _ _ (λ t. refl)
              λ f. handle_hello-files c l d id name role sig secret _ h)
      (dispatch_other-files c l d permit f conn.authed conn h)
