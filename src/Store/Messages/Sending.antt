-- ===== src/Store/Messages/Sending.antt =====
-- Sends: what a new message adds to what members have pending.
use parler_protocol.Prelude.{
  ℕ, ◌<◌, Text, ◌==◌, ◌≡◌, sym, ap, ◌∙◌, subst, inl, inr, Bool, true, false, ◌&&◌, Bool-cases,
  Option, some, Option-cases, List, [], ◌∷◌, ◌++◌, append-nil, arith, ltb, if◌then◌else◌,
  select-append, select, find, any, Outcome, ok, cons_ok_inv,
}
use parler_protocol.Protocol.Parts.{Part, EndpointRef}
use parler_protocol.Store.Tables.{Store, Error, Codec, MessageRow}
use parler_protocol.Store.Messages.{
  AppendOutcome, StoredMessage, newer, get_cursor, read_all, to_stored, message_row,
  encode_mentions, decode_mentions, append_message, replays,
}
use parler_protocol.Store.Messages.Delivery.{pending}
use parler_protocol.Store.Messages.Idempotence.{
  insert_new, insert_replay, insert_clash, ok_pair, append_inv,
}

-- What the store relies on serde_json for, at one message: a column reads back as it was written.
pub record IsFaithful (c : Codec) (parts : List Part) (mentions : Option (List Text)) : Type 0 where
  pub parts_kept : (pj : Text) → c.encode parts ≡ some pj → c.decode pj ≡ some parts
  pub mentions_kept :
      (mj : Option Text) → encode_mentions c mentions ≡ ok mj → decode_mentions c mj ≡ ok mentions

-- The frame that the hub pushes for a message that it has just stored.
abbrev pub pushed :
    AppendOutcome
    → Text
    → EndpointRef
    → List Part
    → Option (List Text)
    → Option Text
    → ℕ
    → StoredMessage
pushed out room from parts mentions reply_to ts = record {
  seq = out.seq;
  id = out.id;
  room = room;
  from = from;
  parts = parts;
  mentions = mentions;
  reply_to = reply_to;
  ts = ts;
}

stored_row :
    (c : Codec) (id room : Text) (from : EndpointRef) (parts : List Part)
    (mentions : Option (List Text)) (pj : Text) (mj reply_to client_id : Option Text) (ts n : ℕ)
    → c.decode pj ≡ some parts
    → decode_mentions c mj ≡ ok mentions
    → to_stored c (record (message_row id room from parts pj mj reply_to client_id ts) { seq = n })
      ≡ ok (
          pushed
            (record { id = id; seq = n; tokens = 0; deduped = false })
            room
            from
            parts
            mentions
            reply_to
            ts)
unfolding to_stored
stored_row c id room from parts mentions pj mj reply_to client_id ts n e f = rw (e, f, to_stored)

newer-append :
    (r : Text) (cur : ℕ) (ms : List MessageRow) (row : MessageRow)
    → cur < row.seq
    → newer r cur (ms ++ row ∷ []) ≡ newer r cur ms ++ (if row.room == r then row ∷ [] else [])
unfolding newer select
newer-append r cur ms row h =
    ground (arith, select-append (λ m. (m.room == r) && ltb cur m.seq) ms (row ∷ []))

read_all-append :
    (c : Codec) (ms : List MessageRow) (row : MessageRow) (before : List StoredMessage)
    (x : StoredMessage)
    → read_all c ms ≡ ok before
    → to_stored c row ≡ ok x
    → read_all c (ms ++ row ∷ []) ≡ ok (before ++ x ∷ [])
unfolding read_all
read_all-append c [] row before x h e = ground (arith, h, e)
read_all-append c (m ∷ ms) row before x h e =
    let (y, ys, first, others, split) = cons_ok_inv (to_stored c m) (read_all c ms) before h in
    rw (split, first, read_all-append c ms row ys x others e)

read_last :
    (c : Codec) (b : Bool) (ms : List MessageRow) (row : MessageRow) (before : List StoredMessage)
    (x : StoredMessage)
    → read_all c ms ≡ ok before
    → to_stored c row ≡ ok x
    → read_all c (ms ++ (if b then row ∷ [] else [])) ≡ ok (before ++ (if b then x ∷ [] else []))
read_last c true ms row before x h e = read_all-append c ms row before x h e
read_last c false ms row before x h e = rw (append-nil, append-nil) h

-- With a codec that reads back what it writes for this message, a send that succeeds and was not a
-- duplicate adds one message to what a reader of its room has pending, the last one, equal to the
-- frame that is pushed live, and adds nothing for a reader of any other room. The reader is one
-- whose cursor is below the counter and whose pending rows decode.
pub append_delivers :
    (c : Codec) (id room : Text) (from : EndpointRef) (parts : List Part)
    (mentions : Option (List Text)) (reply_to client_id : Option Text) (ts : ℕ) (s t : Store)
    (out : AppendOutcome) (r a : Text) (before : List StoredMessage)
    → IsFaithful c parts mentions
    → append_message c id room from parts mentions reply_to client_id ts s ≡ (ok out, t)
    → out.deduped ≡ false
    → get_cursor r a s < s.next_seq
    → read_all c (pending r a s) ≡ ok before
    → read_all c (pending r a t)
      ≡ ok (
          before
          ++ (if room == r then pushed out room from parts mentions reply_to ts ∷ [] else []))
unfolding get_cursor
append_delivers c id room from parts mentions reply_to client_id ts s t out r a before faith h d cur
      b =
    let (pj, mj, e, f, inserted) =
      append_inv c id room from parts mentions reply_to client_id ts s t out h in
    let row = message_row id room from parts pj mj reply_to client_id ts in
    elim (Option-cases (find (replays row) s.messages)) [
      | inr (old, found) ↦
          let (o, u) = ok_pair _ _ _ _ (sym (insert_replay row old parts s found) ∙ inserted) in
          cc (ap (λ (x : AppendOutcome). x.deduped) o)
      | inl none_found ↦ elim (Bool-cases (any (λ (m : MessageRow). m.id == row.id) s.messages)) [
        | inl clash ↦ cc (
          insert_clash row parts s none_found clash,
          ap (λ (p : Outcome Error AppendOutcome × Store). p.0) inserted,
        )
        | inr fresh ↦
            let (o, u) =
              ok_pair _ _ _ _ (sym (insert_new row parts s none_found fresh) ∙ inserted) in
            let stored =
              stored_row c id room from parts mentions pj mj reply_to client_id ts s.next_seq
                (faith.parts_kept pj e) (faith.mentions_kept mj f) in
            subst
              (λ (x : Store).
                read_all c (pending r a x)
                ≡ ok (
                    before
                    ++ (if room == r
                        then pushed out room from parts mentions reply_to ts ∷ []
                        else [])))
              u
              (subst
                (λ (x : AppendOutcome).
                  read_all c (
                    newer r (get_cursor r a s) (s.messages ++ record row { seq = s.next_seq } ∷ []))
                  ≡ ok (
                      before
                      ++ (if room == r
                          then pushed x room from parts mentions reply_to ts ∷ []
                          else [])))
                o
                (rw
                  (newer-append r (get_cursor r a s) s.messages (record row { seq = s.next_seq })
                    cur)
                  (read_last c (room == r) _ _ before _ b stored)))
      ]
    ]
