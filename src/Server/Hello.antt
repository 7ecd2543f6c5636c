-- ===== src/Server/Hello.antt =====
-- crates/parler-hub/src/server.rs: the handshake.
pub mod Challenges
pub mod Secrets
use parler_protocol.Prelude.{
  ℕ, ◌+◌, ◌*◌, Text, codes, ◌==◌, ◌++◌, Bool, true, false, not, ◌&&◌, ◌||◌, Option, none, some,
  is_some_and, List, [], ◌∷◌, take, length, eqb, leb, ltb, min, if◌then◌else◌,
}
use parler_protocol.Store.Presence.{upsert_agent, touch_presence}
use parler_protocol.Server.Bytes.{utf8, byte_len, decimal, parse_time, split_on, xor_bits, or_bits}
use parler_protocol.Server.Frames.{
  ServerFrame, ErrorCode, too_large, protocol, unauthenticated, not_authorized, rate_limited,
}
use parler_protocol.Server.State.{Config, Library, Draw, Hub, Authed, ConnState}

-- `PROTOCOL_VERSION` of crates/parler-protocol/src/lib.rs.
abbrev pub protocol_version : Text
protocol_version = codes "0.2"

abbrev pub challenge_ttl_ms : ℕ
challenge_ttl_ms = 60000

unfoldable pub hub_token : Library → Text → Text
hub_token l public_url = take 12 (l.content_id (utf8 public_url))

-- `draw` stands for the fresh UUID.
unfoldable pub issue_challenge : Library → Text → ℕ → Text → Text
issue_challenge l public_url now draw =
    codes "parler-auth:v1:"
    ++ hub_token l public_url
    ++ 58 ∷ decimal (now + challenge_ttl_ms)
    ++ 58 ∷ draw

-- The pieces between colons: name, version, hub, expiry, and what follows.
abbrev pub pieces_valid : Text → ℕ → List Text → Bool
pieces_valid hub now (name ∷ version ∷ h ∷ exp ∷ rest) =
    (name == codes "parler-auth")
    && ((version == codes "v1") && ((h == hub) && is_some_and (parse_time exp) (λ e. leb now e)))
pieces_valid hub now _ = false

unfoldable pub challenge_valid : Library → Text → Text → ℕ → Bool
challenge_valid l nonce public_url now =
    pieces_valid (hub_token l public_url) now (split_on 58 nonce)

-- `diff |= x ^ y` along two lists of bytes.
unfoldable pub difference : ℕ → List ℕ → List ℕ → ℕ
difference diff (x ∷ xs) (y ∷ ys) = difference (or_bits 8 diff (xor_bits 8 x y)) xs ys
difference diff _ _ = diff

unfoldable pub secret_matches : Text → Option Text → Bool
secret_matches expected none = false
secret_matches expected (some got) =
    if not (eqb (length (utf8 expected)) (length (utf8 got)))
    then false
    else eqb (difference 0 (utf8 expected) (utf8 got)) 0

abbrev pub max_control_string_bytes : ℕ
max_control_string_bytes = 4 * 1024

abbrev pub fits : ℕ → Option Text → Bool
fits bound none = true
fits bound (some t) = leb (byte_len t) bound

abbrev pub hello_fits : Text → Text → Option Text → Option Text → Option Text → Bool
hello_fits id name role sig secret =
    fits 256 (some id)
    && (fits 256 (some name)
        && (fits 256 role && (fits 512 sig && fits max_control_string_bytes secret)))

-- The second step, after the signature's challenge was found.
abbrev pub answer_challenge :
    Config
    → Library
    → Draw
    → Text
    → Text
    → Option Text
    → Option Text
    → Text
    → Text
    → ConnState
    → Hub
    → ServerFrame × (ConnState × Hub)
answer_challenge c l d id name role secret nonce sig conn h =
    let refused : ErrorCode → ServerFrame × (ConnState × Hub) =
      λ e. (ServerFrame.error (some e), (conn, h)) in
    if not (challenge_valid l nonce c.public_url d.now)
    then refused unauthenticated
    else if not (l.verify id (utf8 nonce) sig)
    then refused unauthenticated
    else if is_some_and c.join_secret (λ expected. not (secret_matches expected secret))
    then refused not_authorized
    else (
      ServerFrame.welcome id name,
      (
        record conn { authed = some (record { id = id; name = name; role = role }) },
        record h {
          store =
              touch_presence id (codes "idle") none none d.now
                (upsert_agent id name role d.now h.store);
        },
      ),
    )

-- The challenge that the connection was given, if any.
abbrev pub answer_signed :
    Config
    → Library
    → Draw
    → Text
    → Text
    → Option Text
    → Option Text
    → Text
    → Option Text
    → ConnState
    → Hub
    → ServerFrame × (ConnState × Hub)
answer_signed c l d id name role secret sig none conn h =
    (ServerFrame.error (some protocol), (conn, h))
answer_signed c l d id name role secret sig (some issued) conn h =
    answer_challenge c l d id name role secret issued sig conn h

unfoldable pub handle_hello :
    Config
    → Library
    → Draw
    → Text
    → Text
    → Option Text
    → Option Text
    → Option Text
    → ConnState
    → Hub
    → ServerFrame × (ConnState × Hub)
handle_hello c l d id name role sig secret conn h =
    let nonce = issue_challenge l c.public_url d.now d.token in
    if not (hello_fits id name role sig secret)
    then (ServerFrame.error (some too_large), (conn, h))
    else elim sig [
      | none ↦ (
        ServerFrame.challenge nonce (some protocol_version),
        (record conn { nonce = some nonce }, h),
      )
      | some t ↦ answer_signed c l d id name role secret t conn.nonce conn h
    ]
