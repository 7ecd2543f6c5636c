-- ===== src/Store/Stats/Growth.antt =====
-- crates/parler-hub/src/store.rs, `append_message` and `room_stats`: what a message adds to the
-- counters.
use parler_protocol.Prelude.{
  ℕ, ◌+◌, Text, ◌==◌, ◌≡◌, refl, sym, ap, eq_iff, and_split, ◌&&◌, count, subst, ◌∙◌, Bool, true,
  false, Option, none, some, List, [], ◌∷◌, ◌++◌, arith, if◌then◌else◌, length, length-append,
  select, select-append, find, any, Bool-cases, Option-cases, inl, inr, Outcome, ok,
}
use parler_protocol.Protocol.Parts.{Part, EndpointRef}
use parler_protocol.Store.Tables.{Store, Error, Codec, MessageRow}
use parler_protocol.Store.Messages.{
  AppendOutcome, message_row, append_message, insert_message, replays,
}
use parler_protocol.Store.Messages.Idempotence.{
  insert_new, insert_replay, insert_clash, ok_pair, append_inv,
}
use parler_protocol.Store.Stats.{
  AgentStat, same_role, sum_tokens, counted, groups, placed, by_tokens, room_stats,
}

-- Whether a row of the breakdown, or of the log, is of an agent with that name and role.
abbrev pub is_of : Text → Option Text → AgentStat → Bool
is_of name role a = (a.name == name) && same_role a.role role

abbrev pub is_by : Text → Option Text → MessageRow → Bool
is_by name role m = (m.author_name == name) && same_role m.author_role role

-- What the breakdown shows under a name and a role.
abbrev pub shown : (AgentStat → ℕ) → Text → Option Text → List AgentStat → ℕ
shown f name role [] = 0
shown f name role (a ∷ rs) = (if is_of name role a then f a else 0) + shown f name role rs

same_role_sound : (a b : Option Text) → same_role a b ≡ true → a ≡ b
unfolding same_role
same_role_sound none none h = refl
same_role_sound none (some y) h = ground arith
same_role_sound (some x) none h = ground arith
same_role_sound (some x) (some y) h = ap some ((eq_iff x y).0 h)

-- The row that a message is counted in is of its author.
is_of-is_by :
    (name : Text) (role : Option Text) (m : MessageRow) (a : AgentStat)
    → (a.name == m.author_name) && same_role a.role m.author_role ≡ true
    → is_of name role a ≡ is_by name role m
is_of-is_by name role m a h =
    let (n, r) = and_split (a.name == m.author_name) (same_role a.role m.author_role) h in
    rw ((eq_iff a.name m.author_name).0 n, same_role_sound a.role m.author_role r) refl

module _ (name : Text) (role : Option Text) where
  shown-counted :
      (m : MessageRow) (rs : List AgentStat)
      → (shown (λ a. a.messages) name role (counted m rs)
          ≡ (if is_by name role m then 1 else 0) + shown (λ a. a.messages) name role rs)
        × (shown (λ a. a.tokens) name role (counted m rs)
            ≡ (if is_by name role m then m.tokens else 0) + shown (λ a. a.tokens) name role rs)
  unfolding counted
  shown-counted m [] = (refl, refl)
  shown-counted m (a ∷ rs) =
      elim (Bool-cases ((a.name == m.author_name) && same_role a.role m.author_role)) [
        | inl here ↦ let same = is_of-is_by name role m a here in rw (here) (ground (arith, same))
        | inr other ↦ let rest = shown-counted m rs in rw (other) (ground (arith, rest))
      ]

  shown-groups :
      (ms : List MessageRow)
      → (shown (λ a. a.messages) name role (groups ms) ≡ count (is_by name role) ms)
        × (shown (λ a. a.tokens) name role (groups ms) ≡ sum_tokens (select (is_by name role) ms))
  unfolding groups count sum_tokens select
  shown-groups [] = (refl, refl)
  shown-groups (m ∷ ms) = ground (arith, shown-counted m (groups ms), shown-groups ms)

  shown-placed :
      (f : AgentStat → ℕ) (a : AgentStat) (rs : List AgentStat)
      → shown f name role (placed a rs)
        ≡ (if is_of name role a then f a else 0) + shown f name role rs
  unfolding placed
  shown-placed f a [] = refl
  shown-placed f a (b ∷ bs) = ground (arith, shown-placed f a bs)

  shown-by_tokens :
      (f : AgentStat → ℕ) (rs : List AgentStat)
      → shown f name role (by_tokens rs) ≡ shown f name role rs
  unfolding by_tokens
  shown-by_tokens f [] = refl
  shown-by_tokens f (a ∷ rs) = ground (arith, shown-placed f a (by_tokens rs), shown-by_tokens f rs)

sum_tokens-append :
    (ms ns : List MessageRow) → sum_tokens (ms ++ ns) ≡ sum_tokens ms + sum_tokens ns
unfolding sum_tokens
sum_tokens-append [] ns = omega arith
sum_tokens-append (m ∷ ms) ns = ground (arith, sum_tokens-append ms ns)

select-select :
    (p q : MessageRow → Bool) (ms : List MessageRow)
    → select q (select p ms) ≡ select (λ m. p m && q m) ms
unfolding select
select-select p q [] = refl
select-select p q (m ∷ ms) = ground (arith, select-select p q ms)

count-length : (p : MessageRow → Bool) (ms : List MessageRow) → count p ms ≡ length (select p ms)
unfolding count select
count-length p [] = refl
count-length p (m ∷ ms) = ground (arith, count-length p ms)

-- What the rows that pass a test count and carry, with one row more.
counts-append :
    (p : MessageRow → Bool) (ms : List MessageRow) (row : MessageRow)
    → (length (select p (ms ++ row ∷ [])) ≡ length (select p ms) + (if p row then 1 else 0))
      × (sum_tokens (select p (ms ++ row ∷ []))
          ≡ sum_tokens (select p ms) + (if p row then row.tokens else 0))
unfolding sum_tokens select
counts-append p ms row =
    rw
      (
        select-append p ms (row ∷ []),
        length-append (select p ms) (select p (row ∷ [])),
        sum_tokens-append (select p ms) (select p (row ∷ [])),
      )
      (ground arith)

inserted_new :
    (row : MessageRow) (parts : List Part) (s t : Store) (out : AppendOutcome)
    → insert_message row parts s ≡ (ok out, t)
    → out.deduped ≡ false
    → (out.tokens ≡ row.tokens) × (t.messages ≡ s.messages ++ record row { seq = s.next_seq } ∷ [])
inserted_new row parts s t out h d = elim (Option-cases (find (replays row) s.messages)) [
  | inr (old, found) ↦
      let (o, u) = ok_pair _ _ _ _ (sym (insert_replay row old parts s found) ∙ h) in
      cc (ap (λ (x : AppendOutcome). x.deduped) o)
  | inl none_found ↦ elim (Bool-cases (any (λ (m : MessageRow). m.id == row.id) s.messages)) [
    | inl clash ↦ cc (
      insert_clash row parts s none_found clash,
      ap (λ (p : Outcome Error AppendOutcome × Store). p.0) h,
    )
    | inr fresh ↦
        let (o, u) = ok_pair _ _ _ _ (sym (insert_new row parts s none_found fresh) ∙ h) in
        (sym (ap (λ (x : AppendOutcome). x.tokens) o), sym (ap (λ (x : Store). x.messages) u))
  ]
]

-- The counters of a room, and what they show under a name and a role, with a message more of `tokens`
-- tokens, which counts where it is in the room and of that name and role.
abbrev pub Grows : Text → Text → Option Text → Store → Store → Text → EndpointRef → ℕ → Type 0
Grows r name role s t room from tokens =
    let old = room_stats r s in
    let new = room_stats r t in
    let here = room == r in
    let theirs = here && ((from.name == name) && same_role from.role role) in
    ((new.messages ≡ old.messages + (if here then 1 else 0))
      × (new.tokens ≡ old.tokens + (if here then tokens else 0)))
    × ((shown (λ a. a.messages) name role new.per_agent
          ≡ shown (λ a. a.messages) name role old.per_agent + (if theirs then 1 else 0))
        × (shown (λ a. a.tokens) name role new.per_agent
            ≡ shown (λ a. a.tokens) name role old.per_agent + (if theirs then tokens else 0)))

shown-room_stats :
    (r name : Text) (role : Option Text) (s : Store)
    → let theirs = select (λ m. (m.room == r) && is_by name role m) s.messages in
      (shown (λ a. a.messages) name role (room_stats r s).per_agent ≡ length theirs)
      × (shown (λ a. a.tokens) name role (room_stats r s).per_agent ≡ sum_tokens theirs)
unfolding room_stats
shown-room_stats r name role s =
    let ms = select (λ (m : MessageRow). m.room == r) s.messages in
    let both = select-select (λ (m : MessageRow). m.room == r) (is_by name role) s.messages in
    let (n, k) = shown-groups name role ms in
    (
      shown-by_tokens name role (λ a. a.messages) (groups ms)
          ∙ n
          ∙ count-length (is_by name role) ms
          ∙ ap length both,
      shown-by_tokens name role (λ a. a.tokens) (groups ms) ∙ k ∙ ap sum_tokens both,
    )

-- A row at the end of the log.
room_stats-row :
    (r name : Text) (role : Option Text) (s t : Store) (row : MessageRow) (from : EndpointRef)
    → row.author_name ≡ from.name
    → row.author_role ≡ from.role
    → t.messages ≡ s.messages ++ row ∷ []
    → Grows r name role s t row.room from row.tokens
unfolding room_stats
room_stats-row r name role s t row from n o e =
    let here = counts-append (λ m. m.room == r) s.messages row in
    let theirs = counts-append (λ m. (m.room == r) && is_by name role m) s.messages row in
    let before = shown-room_stats r name role s in
    let after = shown-room_stats r name role t in
    rw (before.0, before.1, after.0, after.1, e, sym n, sym o) (here, theirs)

-- A send that the store takes as new adds one message and its tokens, the number that it reports, to
-- the counters of its room and to what they show under its author's name and role, and nothing to
-- those of another room or under another name or role.
pub room_stats-append :
    (c : Codec) (id room : Text) (from : EndpointRef) (parts : List Part)
    (mentions : Option (List Text)) (reply_to client_id : Option Text) (ts : ℕ) (s t : Store)
    (out : AppendOutcome) (r name : Text) (role : Option Text)
    → append_message c id room from parts mentions reply_to client_id ts s ≡ (ok out, t)
    → out.deduped ≡ false
    → Grows r name role s t room from out.tokens
room_stats-append c id room from parts mentions reply_to client_id ts s t out r name role h d =
    let (pj, mj, e, f, inserted) =
      append_inv c id room from parts mentions reply_to client_id ts s t out h in
    let row = message_row id room from parts pj mj reply_to client_id ts in
    let (o, u) = inserted_new row parts s t out inserted d in
    subst (Grows r name role s t room from) (sym o)
      (room_stats-row r name role s t (record row { seq = s.next_seq }) from refl refl u)
