-- ===== src/Server/Waitlist.antt =====
-- crates/parler-hub/src/server.rs: the waitlist endpoint, the address a request is charged to and the
-- bearer token that opens the hub scope. A header is looked up by its name in lower case; reading an
-- address is a parameter, since it is the standard library's.
pub mod Listing
use parler_protocol.Prelude.{
  ℕ, Text, codes, ◌==◌, Bool, true, false, not, ◌&&◌, ◌||◌, Option, none, some, is_some, List, [],
  is_whitespace, ◌∷◌, leb, eqb, if◌then◌else◌, length, any, trim, to_ascii_lowercase, reverse,
}
use parler_protocol.Store.Tables.{Store}
use parler_protocol.Store.Tokens.{strip_prefix, validate_directory_token, waitlist_add}
use parler_protocol.Server.Bytes.{split_on}
use parler_protocol.Server.Windows.{Table, Window, waitlist_rate_allows}

abbrev pub HeaderMap : Type 0
HeaderMap = Text → Option Text

-- `char::is_control`: the general category Cc.
unfoldable pub is_control : ℕ → Bool
is_control c = leb c 0x1f || (leb 0x7f c && leb c 0x9f)

-- The first part of `split(',')`.
unfoldable pub before_comma : Text → Text
before_comma [] = []
before_comma (c ∷ s) = let rest = before_comma s in if eqb c b',' then [] else c ∷ rest

unfoldable pub header_ip : (Text → Option Text) → Option Text → Option Text
header_ip parse_ip none = none
header_ip parse_ip (some v) = parse_ip (trim v)

unfoldable pub forwarded : Option Text → Option Text
unfolding before_comma
forwarded none = none
forwarded (some v) = some (before_comma v)

unfoldable pub client_ip : (Text → Option Text) → HeaderMap → Option Text → Bool → Option Text
unfolding header_ip forwarded
client_ip parse_ip headers peer false = peer
client_ip parse_ip headers peer true = elim (header_ip parse_ip (headers (codes "fly-client-ip"))) [
  | some ip ↦ some ip
  | none ↦ elim (header_ip parse_ip (forwarded (headers (codes "x-forwarded-for")))) [
    | some ip ↦ some ip
    | none ↦ peer
  ]
]

unfoldable pub bearer_token : HeaderMap → Option Text
bearer_token headers = elim (headers (codes "authorization")) [
  | none ↦ none
  | some h ↦ elim (strip_prefix (codes "Bearer ") h) [ none ↦ none | some s ↦ some (trim s) ]
]

unfoldable pub hub_scope_authorized : HeaderMap → ℕ → Store → Bool
unfolding bearer_token
hub_scope_authorized headers now s = elim (bearer_token headers) [
  | some tok ↦ validate_directory_token tok now s
  | none ↦ false
]

unfoldable pub normalize_email : Text → Text
normalize_email email = to_ascii_lowercase (trim email)

unfoldable pub starts_with : ℕ → Text → Bool
starts_with d [] = false
starts_with d (c ∷ s) = eqb c d

unfoldable pub valid_parts : List Text → Bool
unfolding starts_with
valid_parts (local ∷ (domain ∷ [])) =
    leb 1 (length local)
    && (any (λ c. eqb c b'.') domain
        && (not (starts_with b'.' domain) && not (starts_with b'.' (reverse domain))))
valid_parts parts = false

unfoldable pub valid_email : Text → Bool
unfolding is_control split_on valid_parts
valid_email email =
    let len = length email in
    if not (leb 3 len && leb len 254)
    then false
    else (if any (λ c. is_whitespace c || is_control c) email
        then false
        else valid_parts (split_on b'@' email))

-- The status of the answer.
pub data WaitlistReply : Type 0 where
  ok_listed : WaitlistReply
  too_many_requests : WaitlistReply
  bad_request : WaitlistReply

unfoldable pub waitlist_charge : Option Text → ℕ → Table Window → Bool × Table Window
waitlist_charge none now m = (true, m)
waitlist_charge (some ip) now m = waitlist_rate_allows ip now m

unfoldable pub api_waitlist :
    (Text → Option Text)
    → Bool
    → HeaderMap
    → Text
    → Text
    → ℕ
    → Table Window
    → Store
    → WaitlistReply × (Table Window × Store)
unfolding waitlist_charge client_ip normalize_email
api_waitlist parse_ip trust_proxy_headers headers peer email now m s =
    let (allowed, w) =
      waitlist_charge (client_ip parse_ip headers (some peer) trust_proxy_headers) now m in
    if not allowed
    then (too_many_requests, (w, s))
    else (if not (valid_email (normalize_email email))
        then (bad_request, (w, s))
        else (ok_listed, (w, waitlist_add (normalize_email email) now s)))
