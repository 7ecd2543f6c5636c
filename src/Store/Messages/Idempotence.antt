-- ===== src/Store/Messages/Idempotence.antt =====
-- append_message: a new send, and a retried one.
use parler_protocol.Prelude.{
  ℕ, ◌+◌, Text, ◌==◌, eq_refl, ◌≡◌, refl, sym, ap, ◌∙◌, subst, ◌≢◌, ◌⊎◌, inl, inr, Bool, true,
  false, Bool-cases, Option, none, some, Option-cases, List, [], ◌∷◌, ◌++◌, arith, find-append,
  any-find, find, any, Outcome, ok, err,
}
use parler_protocol.Protocol.Parts.{Part, EndpointRef, dispatches}
use parler_protocol.Store.Tables.{Store, Error, Codec, MessageRow, null_eq, constraint}
use parler_protocol.Store.Messages.{
  AppendOutcome, message_row, encode_mentions, append_message, insert_message, replays,
  index_dispatches,
}

-- A send that inserts: the row at the end of the log, under the next `seq`.
pub insert_new :
    (row : MessageRow) (parts : List Part) (s : Store)
    → find (replays row) s.messages ≡ none
    → any (λ m. m.id == row.id) s.messages ≡ false
    → insert_message row parts s ≡ (
      ok (record { id = row.id; seq = s.next_seq; tokens = row.tokens; deduped = false }),
      record s {
        messages = s.messages ++ record row { seq = s.next_seq } ∷ [];
        next_seq = s.next_seq + 1;
        service_dispatches =
            index_dispatches row.room row.id s.next_seq (dispatches parts) s.service_dispatches;
      },
    )
unfolding insert_message
insert_new row parts s e f = rw (e, f, insert_message)

pub insert_replay :
    (row old : MessageRow) (parts : List Part) (s : Store)
    → find (replays row) s.messages ≡ some old
    → insert_message row parts s
      ≡ (ok (record { id = old.id; seq = old.seq; tokens = 0; deduped = true }), s)
unfolding insert_message
insert_replay row old parts s e = rw (e, insert_message)

replays_self :
    (id room : Text) (from : EndpointRef) (parts : List Part) (pj : Text)
    (mj reply_to : Option Text) (k : Text) (ts n : ℕ)
    → let row = message_row id room from parts pj mj reply_to (some k) ts in
      replays row (record row { seq = n }) ≡ true
unfolding replays null_eq
replays_self id room from parts pj mj reply_to k ts n =
    ground (arith, eq_refl room, eq_refl from.id, eq_refl k)

pub insert_clash :
    (row : MessageRow) (parts : List Part) (s : Store)
    → find (replays row) s.messages ≡ none
    → any (λ m. m.id == row.id) s.messages ≡ true
    → (insert_message row parts s).0 ≡ err constraint
unfolding insert_message
insert_clash row parts s e f = rw (e, f, insert_message)

-- A replay of what an append has put last is found there.
find_last :
    (p : MessageRow → Bool) (ms : List MessageRow) (m : MessageRow)
    → find p ms ≡ none
    → p m ≡ true
    → find p (ms ++ m ∷ []) ≡ some m
unfolding find
find_last p ms m e h = ground (arith, find-append p ms (m ∷ []), any-find p ms)

pub ok_pair :
    (a b : AppendOutcome) (s t : Store)
    → ◌≡◌ {A = Outcome Error AppendOutcome × Store} (ok a, s) (ok b, t)
    → (a ≡ b) × (s ≡ t)
ok_pair a b s t h = (
  cc (ap (λ (p : Outcome Error AppendOutcome × Store). p.0) h),
  ap (λ (p : Outcome Error AppendOutcome × Store). p.1) h,
)

finish :
    (row old : MessageRow) (parts : List Part) (t : Store) (out : AppendOutcome)
    → find (replays row) t.messages ≡ some old
    → old.id ≡ out.id
    → old.seq ≡ out.seq
    → insert_message row parts t
      ≡ (ok (record { id = out.id; seq = out.seq; tokens = 0; deduped = true }), t)
finish row old parts t out e i q = rw (insert_replay row old parts t e, i, q)

-- The second insert under a key finds the first.
insert_twice :
    (id id' room : Text) (from : EndpointRef) (parts : List Part) (pj : Text)
    (mj reply_to : Option Text) (k : Text) (ts ts' : ℕ) (s t : Store) (out : AppendOutcome)
    → insert_message (message_row id room from parts pj mj reply_to (some k) ts) parts s
      ≡ (ok out, t)
    → insert_message (message_row id' room from parts pj mj reply_to (some k) ts') parts t
      ≡ (ok (record { id = out.id; seq = out.seq; tokens = 0; deduped = true }), t)
insert_twice id id' room from parts pj mj reply_to k ts ts' s t out h =
    let row = message_row id room from parts pj mj reply_to (some k) ts in
    let row' = message_row id' room from parts pj mj reply_to (some k) ts' in
    elim (Option-cases (find (replays row) s.messages)) [
      | inl e ↦ elim (Bool-cases (any (λ (m : MessageRow). m.id == row.id) s.messages)) [
        | inl clash ↦ cc (
          insert_clash row parts s e clash,
          ap (λ (p : Outcome Error AppendOutcome × Store). p.0) h,
        )
        | inr fresh ↦
            let (o, u) = ok_pair _ _ _ _ (sym (insert_new row parts s e fresh) ∙ h) in
            let new = record row { seq = s.next_seq } in
            let found =
              find_last (replays row') s.messages new (unfold replays in e) (
                unfold replays in replays_self id room from parts pj mj reply_to k ts s.next_seq) in
            finish row' new parts t out
              (subst (λ (x : Store). find (replays row') x.messages ≡ some new) u found)
              (ap (λ (a : AppendOutcome). a.id) o) (ap (λ (a : AppendOutcome). a.seq) o)
      ]
      | inr (old, e) ↦
          let (o, u) = ok_pair _ _ _ _ (sym (insert_replay row old parts s e) ∙ h) in
          finish row' old parts t out
            (subst (λ (x : Store). find (replays row') x.messages ≡ some old) u
              (unfold replays in e))
            (ap (λ (a : AppendOutcome). a.id) o) (ap (λ (a : AppendOutcome). a.seq) o)
    ]

module _ (c : Codec) (id room : Text) (from : EndpointRef) (parts : List Part)
    (mentions : Option (List Text)) (reply_to client_id : Option Text) (ts : ℕ) (s : Store) where
  pub append_eq :
      (pj : Text) (mj : Option Text)
      → c.encode parts ≡ some pj
      → encode_mentions c mentions ≡ ok mj
      → append_message c id room from parts mentions reply_to client_id ts s
        ≡ insert_message (message_row id room from parts pj mj reply_to client_id ts) parts s
  unfolding append_message
  append_eq pj mj e f = rw (e, f, append_message)

  append_refused :
      (c.encode parts ≡ none) ⊎ ((x : Error) × (encode_mentions c mentions ≡ err x))
      → (out : AppendOutcome)
      → (append_message c id room from parts mentions reply_to client_id ts s).0 ≢ ok out
  unfolding append_message
  append_refused h out = ground (arith, h)

  -- A send that returns went through the insert.
  pub append_inv :
      (t : Store) (out : AppendOutcome)
      → append_message c id room from parts mentions reply_to client_id ts s ≡ (ok out, t)
      → (pj : Text) × (mj : Option Text) × (c.encode parts ≡ some pj)
        × (encode_mentions c mentions ≡ ok mj)
        × (insert_message (message_row id room from parts pj mj reply_to client_id ts) parts s
            ≡ (ok out, t))
  append_inv t out h = go (c.encode parts) (encode_mentions c mentions) refl refl
    where
      sent : (append_message c id room from parts mentions reply_to client_id ts s).0 ≡ ok out
      sent = ap (λ (p : Outcome Error AppendOutcome × Store). p.0) h

      go :
          (pj : Option Text) (mj : Outcome Error (Option Text))
          → c.encode parts ≡ pj
          → encode_mentions c mentions ≡ mj
          → (pj : Text) × (mj : Option Text) × (c.encode parts ≡ some pj)
            × (encode_mentions c mentions ≡ ok mj)
            × (insert_message (message_row id room from parts pj mj reply_to client_id ts) parts s
                ≡ (ok out, t))
      go none mj e f = absurd (append_refused (inl e) out sent)
      go (some pj) (err x) e f = absurd (append_refused (inr (x, f)) out sent)
      go (some pj) (ok mj) e f = (pj, mj, e, f, sym (append_eq pj mj e f) ∙ h)

-- A send that succeeded and is repeated with the same content under its idempotency key, at any
-- later time and with any new id, returns the id and seq of the first attempt, marked as a
-- duplicate, and leaves the store as it was.
pub append_twice :
    (c : Codec) (id id' room : Text) (from : EndpointRef) (parts : List Part)
    (mentions : Option (List Text)) (reply_to : Option Text) (k : Text) (ts ts' : ℕ) (s t : Store)
    (out : AppendOutcome)
    → append_message c id room from parts mentions reply_to (some k) ts s ≡ (ok out, t)
    → append_message c id' room from parts mentions reply_to (some k) ts' t
      ≡ (ok (record { id = out.id; seq = out.seq; tokens = 0; deduped = true }), t)
append_twice c id id' room from parts mentions reply_to k ts ts' s t out h =
    let (pj, mj, e, f, inserted) =
      append_inv c id room from parts mentions reply_to (some k) ts s t out h in
    append_eq c id' room from parts mentions reply_to (some k) ts' t pj mj e f
    ∙ insert_twice id id' room from parts pj mj reply_to k ts ts' s t out inserted
