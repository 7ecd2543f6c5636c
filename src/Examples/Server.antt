-- ===== src/Examples/Server.antt =====
-- The hub in front of the sample store: a config, a library of made-up functions, and connections.
use parler_protocol.Prelude.{
  ℕ, codes, ◌==◌, ◌≡◌, refl, ◌⊎◌, true, false, if◌then◌else◌, count, none, some, List, [], ◌∷◌,
  ◌++◌, ◌≤◌, ◌*◌, ◌+◌, ◌&&◌, leb, arith, ok, length, to_ascii_lowercase, trim, any,
}
use parler_protocol.Examples.{den, ann, bob, cat, hub, codec, from_ann, sample_parts}
use parler_protocol.Store.Tokens.{waitlist_add}
use parler_protocol.Server.Waitlist.{WaitlistReply, api_waitlist, valid_email}
use parler_protocol.Server.Windows.{waitlist_rate_allows}
use parler_protocol.Server.Waitlist.Listing.{
  AreDistinct, Post, posts, AreListable, posts-AreListable,
}
use parler_protocol.Store.Tables.{Store}
use parler_protocol.Store.Rooms.{is_member, room_member_ids}
use parler_protocol.Store.Messages.{StoredMessage, pull}
use parler_protocol.Server.Windows.{RateKind, Rates, default_limits, agent_limit}
use parler_protocol.Server.Windows.Bounds.{
  Charge, Within, times_of, allowed_total, allowed_total_le,
}
use parler_protocol.Server.Windows.Pruning.{Event, charged, pruned}
use parler_protocol.Server.Frames.{ClientFrame}
use parler_protocol.Server.Bytes.{utf8}
use parler_protocol.Server.State.{Config, Library, Draw, Push, Hub, Authed, ConnState}
use parler_protocol.Server.Hello.{
  issue_challenge, challenge_valid, challenge_ttl_ms, hub_token, secret_matches,
}
use parler_protocol.Server.Hello.Challenges.{has_colon, challenge_valid-issue_challenge}
use parler_protocol.Server.Hello.Secrets.{secret_matches-eq}
use parler_protocol.Server.Sending.{fanout, store_waited_pull, settled}
use parler_protocol.Server.Sending.Pushing.{deliveries, pushed-fanout}
use parler_protocol.Server.Sending.Waiting.{Looks, store_waited_pull-pull}
use parler_protocol.Server.Dispatch.{dispatch}
use parler_protocol.Server.Dispatch.Authentication.{IsRefused, IsProven, dispatch-unauthenticated}
use parler_protocol.Protocol.RoomKind.{channel}
use parler_protocol.Server.Socket.Integrity.{as_bytes, receive, AreIntact, receive-AreIntact}

abbrev pub config : Config
config = record {
  public_url = codes "parler://h";
  name = codes "h";
  limits = default_limits;
  join_secret = some (codes "open sesame");
  max_message_bytes = 1000;
  max_text_frame_bytes = 2000;
  max_blob_bytes = 100;
  max_blob_dir_bytes = 1000;
  max_owned_rooms = 10;
  max_active_tokens = 10;
  max_keyed_facts = 10;
}

abbrev pub library : Library
library = record {
  codec = codec;
  cards = record { encode_card = λ c. some c.id; decode_card = λ t. none; to_lowercase = λ t. t };
  canonical_card_bytes = λ c. c.id;
  verify = λ id bytes sig. sig == id;
  content_id = λ bytes. codes "0123456789abcdef" ++ bytes;
  parts_bytes = λ ps. some (length ps);
  frame_bytes = λ f. some 1;
  search = λ me query room limit embedding s. ok [];
}

abbrev pub draw : Draw
draw = record {
  now = 500;
  suffix = codes "abcdef";
  code = codes "CODE";
  token = codes "TOKEN";
  id = codes "m9";
  channel = λ c. Push.sent;
}

abbrev no_rates : Rates
no_rates = record {
  rate = λ k. none;
  room_rate = λ k. none;
  http_rate = λ k. none;
  waitlist_rate = λ k. none;
}

abbrev pub state : Hub
state = record {
  store = hub;
  rates = no_rates;
  subscribers = λ a. if a == bob then some (7 ∷ []) else none;
  metrics = record { messages_total = 0; tokens_total = 0; pushes_total = 0 };
  pushed = [];
  files = λ id. none;
}

abbrev conn : ConnState
conn = record {
  nonce = some (issue_challenge library config.public_url 500 (codes "u"));
  authed = none;
  upload = some (record {
    id = codes "0123456789abcdef!";
    room = den;
    author = ann;
    size = 1;
    media_type = none;
  });
  conn_id = 1;
  hello_frames = 1;
}

abbrev ann_says : StoredMessage
ann_says = record {
  seq = 9;
  id = codes "m9";
  room = den;
  from = from_ann;
  parts = sample_parts (codes "hi");
  mentions = none;
  reply_to = none;
  ts = 500;
}

abbrev send_at : ℕ → Charge
send_at n = record { agent = ann; kind = RateKind.send; now = n }

sends-Within : Within 50 60000 (times_of ann RateKind.send (send_at 100 ∷ send_at 200 ∷ []))
unfolding ◌==◌
sends-Within = ((omega arith, omega arith), ((omega arith, omega arith), tt))

allowed_total_le_example :
    allowed_total default_limits ann RateKind.send (send_at 100 ∷ send_at 200 ∷ []) no_rates.rate
    ≤ 2 * agent_limit default_limits RateKind.send
allowed_total_le_example =
    allowed_total_le default_limits ann RateKind.send 50 (send_at 100 ∷ send_at 200 ∷ [])
      no_rates.rate (omega arith) sends-Within

abbrev events : List Event
events = charged (send_at 100) ∷ pruned 4000000 ∷ charged (send_at 4000001) ∷ []

abbrev hello : ClientFrame
hello = ClientFrame.hello ann (codes "Ann") none none (some ann) (some (codes "open sesame"))

dispatch-unauthenticated_example :
    IsRefused state (dispatch config library draw true hello conn state).1
    ⊎ IsProven config library draw hello conn
dispatch-unauthenticated_example =
    dispatch-unauthenticated config library draw true hello conn state refl

pushed-fanout_example :
    (fanout draw den ann ann_says state).pushed
    ≡ state.pushed ++ deliveries draw ann ann_says state.subscribers (room_member_ids den hub)
pushed-fanout_example = pushed-fanout draw den ann ann_says state

receive-AreIntact_example :
    AreIntact library (receive config library draw (as_bytes (codes "!")) conn state).1
receive-AreIntact_example =
    receive-AreIntact config library draw (as_bytes (codes "!")) conn state (λ id. refl)

abbrev as_bob : Authed
as_bob = record { id = bob; name = codes "Bob"; role = none }

bob_is_in : is_member den bob hub ≡ true
unfolding is_member count ◌==◌
bob_is_in = refl

store_waited_pull-pull_example :
    (t : Store) × Looks library den bob none none ((λ x. x) ∷ []) hub t
    × (store_waited_pull library as_bob den none none none [] hub
        ≡ settled (pull codec den bob none none none t))
store_waited_pull-pull_example =
    store_waited_pull-pull library as_bob den none none [] hub bob_is_in

secret_matches-eq_example :
    secret_matches (codes "a") (some (codes "b")) ≡ (utf8 (codes "a") == utf8 (codes "b"))
secret_matches-eq_example =
    secret_matches-eq (codes "a") (codes "b") (omega arith, tt) (omega arith, tt)

no_colon : has_colon (hub_token library config.public_url) ≡ false
unfolding hub_token any
no_colon = refl

challenge_valid-issue_challenge_example :
    challenge_valid library
      (issue_challenge library config.public_url 500 (codes "u:v"))
      (codes "parler://h2")
      700
    ≡ (hub_token library config.public_url == hub_token library (codes "parler://h2"))
      && leb 700 (500 + challenge_ttl_ms)
challenge_valid-issue_challenge_example =
    challenge_valid-issue_challenge library config.public_url (codes "parler://h2") (codes "u:v")
      500 700 no_colon (omega arith)

abbrev as_cat : Authed
as_cat = record { id = cat; name = codes "Cat"; role = none }

-- Cat, who is outside, asks for an invite to the room.
abbrev cats_invite : ClientFrame
cats_invite = ClientFrame.invite channel (some den) none none false

abbrev cats_conn : ConnState
cats_conn = record conn { authed = some as_cat; upload = none }

abbrev signups : List Post
signups =
    record { headers = λ n. none; peer = codes "10.0.0.1"; email = codes " A@b.io "; now = 5 }
    ∷ record { headers = λ n. none; peer = codes "10.0.0.1"; email = codes "a@b.io"; now = 6 }
    ∷ record { headers = λ n. none; peer = codes "10.0.0.2"; email = codes "a@@b.io"; now = 7 }
    ∷ []

signups_answered :
    (posts some true (λ ip. none) hub signups).0
    ≡ WaitlistReply.ok_listed ∷ WaitlistReply.ok_listed ∷ WaitlistReply.bad_request ∷ []
unfolding posts api_waitlist waitlist_rate_allows valid_email to_ascii_lowercase trim any ◌==◌
signups_answered = refl

hub_is_listable : AreListable hub.waitlist
unfolding AreListable AreDistinct
hub_is_listable = (tt, tt)

posts-AreListable_example :
    AreListable (posts some true (λ ip. none) hub signups).1.waitlist
    × ((posts some true (λ ip. none) hub signups).0
        ≡ (posts some true (λ ip. none) (waitlist_add (codes "a@b.io") 1 hub) signups).0)
posts-AreListable_example =
    posts-AreListable some true (λ ip. none) hub (waitlist_add (codes "a@b.io") 1 hub) signups
      hub_is_listable
