-- ===== src/Server/Dispatch/Authentication.antt =====
-- crates/parler-hub/src/server.rs, `dispatch` before authentication.
use parler_protocol.Prelude.{
  ◌+◌, min, ltb, Text, ◌≡◌, refl, sym, ap, subst, ◌⊎◌, inl, inr, Bool, true, false, not, Option,
  none, some, is_some_and, is_some, Bool-cases,
}
use parler_protocol.Server.Frames.{ClientFrame}
use parler_protocol.Server.Bytes.{utf8}
use parler_protocol.Server.State.{Config, Library, Draw, Hub, ConnState}
use parler_protocol.Server.Hello.{
  challenge_valid, secret_matches, hello_fits, handle_hello, answer_challenge, answer_signed,
}
use parler_protocol.Server.Dispatch.{dispatch, dispatch_hello, dispatch_other}

-- What a connection must have shown to be let in: a signature by its key over the challenge that
-- this connection was given, which is this hub's and not expired, and the join secret if there is one.
pub record IsProven (c : Config) (l : Library) (d : Draw) (f : ClientFrame) (conn : ConnState)
    : Type 0 where
  pub id : Text
  pub name : Text
  pub role : Option Text
  pub echoed : Option Text
  pub sig : Text
  pub secret : Option Text
  pub issued : Text
  pub is_hello : f ≡ ClientFrame.hello id name role echoed (some sig) secret
  pub has_challenge : conn.nonce ≡ some issued
  pub is_valid : challenge_valid l issued c.public_url d.now ≡ true
  pub is_signed : l.verify id (utf8 issued) sig ≡ true
  pub has_secret :
      is_some_and c.join_secret (λ expected. not (secret_matches expected secret)) ≡ false

-- The connection stays outside and the hub as it was.
abbrev pub IsRefused : Hub → ConnState × Hub → Type 0
IsRefused h r = (r.0.authed ≡ none) × (r.1 ≡ h)

module _ (c : Config) (l : Library) (d : Draw) (h : Hub) where
  answer_challenge-cases :
      (id name : Text) (role echoed secret : Option Text) (issued sig : Text) (conn : ConnState)
      → conn.authed ≡ none
      → conn.nonce ≡ some issued
      → IsRefused h (answer_challenge c l d id name role secret issued sig conn h).1
        ⊎ IsProven c l d (ClientFrame.hello id name role echoed (some sig) secret) conn
  answer_challenge-cases id name role echoed secret issued sig conn out has =
      elim (Bool-cases (challenge_valid l issued c.public_url d.now)) [
        | inr stale ↦ rw (stale) (inl (out, refl))
        | inl valid ↦ elim (Bool-cases (l.verify id (utf8 issued) sig)) [
          | inr forged ↦ rw (valid, forged) (inl (out, refl))
          | inl signed ↦
              elim (Bool-cases
                (is_some_and c.join_secret (λ expected. not (secret_matches expected secret)))) [
                  | inl no_secret ↦ rw (valid, signed, no_secret) (inl (out, refl))
                  | inr with_secret ↦ inr (record {
                    id = id;
                    name = name;
                    role = role;
                    echoed = echoed;
                    sig = sig;
                    secret = secret;
                    issued = issued;
                    is_hello = refl;
                    has_challenge = has;
                    is_valid = valid;
                    is_signed = signed;
                    has_secret = with_secret;
                  })
                ]
        ]
      ]

  answer_signed-cases :
      (id name : Text) (role echoed secret issued : Option Text) (sig : Text) (conn : ConnState)
      → conn.authed ≡ none
      → conn.nonce ≡ issued
      → IsRefused h (answer_signed c l d id name role secret sig issued conn h).1
        ⊎ IsProven c l d (ClientFrame.hello id name role echoed (some sig) secret) conn
  answer_signed-cases id name role echoed secret none sig conn out has = inl (out, refl)
  answer_signed-cases id name role echoed secret (some issued) sig conn out has =
      answer_challenge-cases id name role echoed secret issued sig conn out has

  handle_hello-cases :
      (id name : Text) (role echoed sig secret : Option Text) (conn : ConnState)
      → conn.authed ≡ none
      → IsRefused h (handle_hello c l d id name role sig secret conn h).1
        ⊎ IsProven c l d (ClientFrame.hello id name role echoed sig secret) conn
  unfolding handle_hello
  handle_hello-cases id name role echoed none secret conn out =
      elim (Bool-cases (hello_fits id name role none secret)) [
        | inr big ↦ rw (big) (inl (out, refl))
        | inl fit ↦ rw (fit) (inl (out, refl))
      ]
  handle_hello-cases id name role echoed (some sig) secret conn out =
      elim (Bool-cases (hello_fits id name role (some sig) secret)) [
        | inr big ↦ rw (big) (inl (out, refl))
        | inl fit ↦
            rw (fit) (answer_signed-cases id name role echoed secret conn.nonce sig conn out refl)
      ]

  dispatch_hello-cases :
      (id name : Text) (role echoed sig secret : Option Text) (conn : ConnState)
      → conn.authed ≡ none
      → IsRefused h (dispatch_hello c l d id name role sig secret conn h).1
        ⊎ IsProven c l d (ClientFrame.hello id name role echoed sig secret) conn
  dispatch_hello-cases id name role echoed sig secret conn out =
      let tried : ConnState = record conn { hello_frames = min 255 (conn.hello_frames + 1) } in
      rw (ap is_some out) (elim (Bool-cases (ltb 4 tried.hello_frames)) [
        | inl often ↦ rw (often) (inl (out, refl))
        | inr few ↦ rw (few) (elim (handle_hello-cases id name role echoed sig secret tried out) [
          | inl r ↦ inl r
          | inr p ↦ inr (record {
            id = p.id;
            name = p.name;
            role = p.role;
            echoed = p.echoed;
            sig = p.sig;
            secret = p.secret;
            issued = p.issued;
            is_hello = p.is_hello;
            has_challenge = p.has_challenge;
            is_valid = p.is_valid;
            is_signed = p.is_signed;
            has_secret = p.has_secret;
          })
        ])
      ])

-- Before the handshake every other frame is refused.
closed :
    (c : Config) (l : Library) (d : Draw) (permit : Bool) (f : ClientFrame) (conn : ConnState)
    (h : Hub)
    → conn.authed ≡ none
    → IsRefused h (dispatch_other c l d permit f conn.authed conn h).1
closed c l d permit f conn h out =
    subst (λ a. IsRefused h (dispatch_other c l d permit f a conn h).1) (sym out) (out, refl)

-- A frame on a connection that is not authenticated leaves the connection so and the hub as it is,
-- unless it is a Hello signed by the key it names over the challenge that this connection was given,
-- which is this hub's and has not expired, with the join secret where the hub has one.
pub dispatch-unauthenticated :
    (c : Config) (l : Library) (d : Draw) (permit : Bool) (f : ClientFrame) (conn : ConnState)
    (h : Hub)
    → conn.authed ≡ none
    → IsRefused h (dispatch c l d permit f conn h).1 ⊎ IsProven c l d f conn
unfolding dispatch
dispatch-unauthenticated c l d permit (ClientFrame.hello id name role echoed sig secret) conn h
      out =
    dispatch_hello-cases c l d h id name role echoed sig secret conn out
dispatch-unauthenticated c l d permit (ClientFrame.invite kind room ttl uses approval) conn h out =
    inl (closed c l d permit (ClientFrame.invite kind room ttl uses approval) conn h out)
dispatch-unauthenticated c l d permit (ClientFrame.redeem code) conn h out =
    inl (closed c l d permit (ClientFrame.redeem code) conn h out)
dispatch-unauthenticated c l d permit (ClientFrame.join_requests room) conn h out =
    inl (closed c l d permit (ClientFrame.join_requests room) conn h out)
dispatch-unauthenticated c l d permit (ClientFrame.resolve_join room agent approve) conn h out =
    inl (closed c l d permit (ClientFrame.resolve_join room agent approve) conn h out)
dispatch-unauthenticated c l d permit (ClientFrame.serve name) conn h out =
    inl (closed c l d permit (ClientFrame.serve name) conn h out)
dispatch-unauthenticated c l d permit (ClientFrame.claim room message lease) conn h out =
    inl (closed c l d permit (ClientFrame.claim room message lease) conn h out)
dispatch-unauthenticated c l d permit (ClientFrame.queue room role limit) conn h out =
    inl (closed c l d permit (ClientFrame.queue room role limit) conn h out)
dispatch-unauthenticated c l d permit (ClientFrame.complete room message status) conn h out =
    inl (closed c l d permit (ClientFrame.complete room message status) conn h out)
dispatch-unauthenticated c l d permit (ClientFrame.register card visibility sig) conn h out =
    inl (closed c l d permit (ClientFrame.register card visibility sig) conn h out)
dispatch-unauthenticated c l d permit (ClientFrame.discover scope query tag skill status limit) conn
      h out =
    inl (closed c l d permit (ClientFrame.discover scope query tag skill status limit) conn h out)
dispatch-unauthenticated c l d permit (ClientFrame.lookup id) conn h out =
    inl (closed c l d permit (ClientFrame.lookup id) conn h out)
dispatch-unauthenticated c l d permit (ClientFrame.mint_directory_token ttl) conn h out =
    inl (closed c l d permit (ClientFrame.mint_directory_token ttl) conn h out)
dispatch-unauthenticated c l d permit (ClientFrame.mint_watch room ttl) conn h out =
    inl (closed c l d permit (ClientFrame.mint_watch room ttl) conn h out)
dispatch-unauthenticated c l d permit (ClientFrame.send target parts mentions reply_to client_id)
      conn h out =
    inl (closed c l d permit (ClientFrame.send target parts mentions reply_to client_id) conn h out)
dispatch-unauthenticated c l d permit (ClientFrame.pull room since limit wait ack) conn h out =
    inl (closed c l d permit (ClientFrame.pull room since limit wait ack) conn h out)
dispatch-unauthenticated c l d permit (ClientFrame.remember fact embedding model) conn h out =
    inl (closed c l d permit (ClientFrame.remember fact embedding model) conn h out)
dispatch-unauthenticated c l d permit (ClientFrame.recall query room limit embedding key) conn h
      out =
    inl (closed c l d permit (ClientFrame.recall query room limit embedding key) conn h out)
dispatch-unauthenticated c l d permit ClientFrame.rooms conn h out =
    inl (closed c l d permit ClientFrame.rooms conn h out)
dispatch-unauthenticated c l d permit (ClientFrame.delete_room room) conn h out =
    inl (closed c l d permit (ClientFrame.delete_room room) conn h out)
dispatch-unauthenticated c l d permit (ClientFrame.roster room) conn h out =
    inl (closed c l d permit (ClientFrame.roster room) conn h out)
dispatch-unauthenticated c l d permit (ClientFrame.presence status activity attention) conn h out =
    inl (closed c l d permit (ClientFrame.presence status activity attention) conn h out)
dispatch-unauthenticated c l d permit (ClientFrame.set_attention attention) conn h out =
    inl (closed c l d permit (ClientFrame.set_attention attention) conn h out)
dispatch-unauthenticated c l d permit (ClientFrame.put_blob target sha256 size media_type) conn h
      out =
    inl (closed c l d permit (ClientFrame.put_blob target sha256 size media_type) conn h out)
dispatch-unauthenticated c l d permit (ClientFrame.get_blob id) conn h out =
    inl (closed c l d permit (ClientFrame.get_blob id) conn h out)
dispatch-unauthenticated c l d permit ClientFrame.subscribe conn h out =
    inl (closed c l d permit ClientFrame.subscribe conn h out)
dispatch-unauthenticated c l d permit ClientFrame.ping conn h out =
    inl (closed c l d permit ClientFrame.ping conn h out)
