-- ===== src/Examples/Messages.antt =====
-- The log: reads, sends and their retries on the sample room.
use parler_protocol.Prelude.{
  ℕ, ◌*◌, ◌≤◌, Text, codes, ◌==◌, ◌≡◌, refl, true, false, none, some, List, [], ◌∷◌, arith, take,
  select, find, any, Outcome, ok,
}
use parler_protocol.Examples.{codec, sample_parts, den, bob, note, from_ann, hub}
use parler_protocol.Protocol.Tokens.{estimate_message_tokens}
use parler_protocol.Store.Tables.{Store, Error, null_eq}
use parler_protocol.Store.Messages.{
  AppendOutcome, StoredMessage, replays, insert_message, append_message, encode_mentions, read_all,
  to_stored, decode_mentions, get_cursor, newer, page_size, pull,
}
use parler_protocol.Store.Messages.Delivery.{IsLog, IsMember, pending, drain, drain_lem}
use parler_protocol.Store.Messages.Idempotence.{append_twice}
use parler_protocol.Store.Messages.Acknowledge.{pull_retry, get_cursor-le-pull}

hub-IsLog : IsLog hub
hub-IsLog = record {
  ordered = (omega arith, (omega arith, tt));
  below = (omega arith, (omega arith, tt));
  started = omega arith;
}

bob-IsMember : IsMember den bob hub
unfolding any ◌==◌
bob-IsMember = refl

abbrev read : ℕ → Text → StoredMessage
read seq id = record {
  seq = seq;
  id = id;
  room = den;
  from = from_ann;
  parts = sample_parts (codes "hi");
  mentions = none;
  reply_to = none;
  ts = 10 * seq;
}

abbrev pub both : List StoredMessage
both = read 1 note ∷ read 2 (codes "m2") ∷ []

pub bob-pending : read_all codec (pending den bob hub) ≡ ok both
unfolding read_all to_stored newer select get_cursor find ◌==◌ decode_mentions
bob-pending = refl

drain_lem_example : drain codec den bob (some 1) 2 hub ≡ ok (take (2 * page_size (some 1)) both)
drain_lem_example = drain_lem codec den bob (some 1) 2 hub both hub-IsLog bob-IsMember bob-pending

pull_retry_example :
    pull codec den bob none (some 1) (some 1) (pull codec den bob none (some 1) (some 1) hub).1
    ≡ pull codec den bob none (some 1) (some 1) hub
pull_retry_example = pull_retry codec den bob (some 1) 1 hub bob-IsMember

get_cursor-le-pull_example :
    get_cursor den bob hub ≤ get_cursor den bob (pull codec den bob none none none hub).1
get_cursor-le-pull_example = get_cursor-le-pull codec den bob none none none hub den bob

abbrev sent : Outcome Error AppendOutcome × Store
sent =
    append_message codec (codes "m3") den from_ann (sample_parts (codes "yo")) none none
      (some (codes "k")) 30 hub

abbrev sent_outcome : AppendOutcome
sent_outcome = record {
  id = codes "m3";
  seq = 3;
  tokens = estimate_message_tokens (sample_parts (codes "yo"));
  deduped = false;
}

sent_ok : sent ≡ (ok sent_outcome, sent.1)
unfolding append_message encode_mentions insert_message find replays null_eq ◌==◌ any
sent_ok = refl

append_twice_example :
    append_message codec
      (codes "m4")
      den
      from_ann
      (sample_parts (codes "yo"))
      none
      none
      (some (codes "k"))
      40
      sent.1
    ≡ (ok (record { id = codes "m3"; seq = 3; tokens = 0; deduped = true }), sent.1)
append_twice_example =
    append_twice codec (codes "m3") (codes "m4") den from_ann (sample_parts (codes "yo")) none none
      (codes "k") 30 40 hub sent.1 sent_outcome sent_ok
