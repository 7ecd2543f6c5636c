-- ===== src/Store/Facts/Keyed.antt =====
-- remember: the facts under one key.
use parler_protocol.Prelude.{
  ℕ, ◌≤◌, Text, ◌==◌, eq_iff, ◌≡◌, refl, sym, subst, true, ◌&&◌, Bool-cases, Option-cases, inl, inr,
  Option, none, some, is_some_and, not, List, [], ◌∷◌, ◌++◌, arith, eqb, length, find, count,
  update, count-update, count_sub, count-none, count-append, choose,
}
use parler_protocol.Store.Tables.{Store, FactRow, null_eq}
use parler_protocol.Store.Facts.{
  Fact, room_text, is_keyed, insert_fact, write_fact, embed, vec_dimension, remember,
}

-- At most one fact under each author, room and key.
abbrev pub IsUnique : List FactRow → Type 0
IsUnique fs = (a : Text) (r : Option Text) (k : Text) → count (is_keyed a r k) fs ≤ 1

abbrev row_of : Text → Fact → ℕ → ℕ → Option Text → FactRow
row_of author fact id ts model = record {
  id = id;
  fkey = fact.key;
  room = fact.room;
  author = author;
  text = fact.text;
  ts = ts;
  embedding_model = model;
}

-- A row that none of the key is there for.
IsUnique-append :
    (row : FactRow) (fs : List FactRow)
    → ((a : Text) (r : Option Text) (k : Text)
        → is_keyed a r k row ≡ true
        → count (is_keyed a r k) fs ≡ 0)
    → IsUnique fs
    → IsUnique (fs ++ row ∷ [])
unfolding count
IsUnique-append row fs new u a r k = elim (Bool-cases (is_keyed a r k row)) [
  | inl h ↦ ground (arith, h, new a r k h, count-append (is_keyed a r k) fs (row ∷ []))
  | inr h ↦ ground (arith, h, u a r k, count-append (is_keyed a r k) fs (row ∷ []))
]

-- Two keys that one row is under are the same key.
same_key :
    (a author : Text) (r room : Option Text) (k k0 : Text) (x : FactRow)
    → (author == a) && ((room_text room == room_text r) && (k0 == k)) ≡ true
    → is_keyed a r k x ≡ true
    → is_keyed author room k0 x ≡ true
unfolding is_keyed
same_key a author r room k k0 x h hx =
    let ea : author ≡ a = (eq_iff author a).0 (ground (arith, h)) in
    let er : room_text room ≡ room_text r =
      (eq_iff (room_text room) (room_text r)).0 (ground (arith, h)) in
    let ek : k0 ≡ k = (eq_iff k0 k).0 (ground (arith, h)) in
    subst
      (λ b. (x.author == b) && ((room_text x.room == room_text room) && null_eq x.fkey k0) ≡ true)
      (sym ea)
      (subst (λ t. (x.author == a) && ((room_text x.room == t) && null_eq x.fkey k0) ≡ true)
        (sym er)
        (subst
          (λ q. (x.author == a) && ((room_text x.room == room_text r) && null_eq x.fkey q) ≡ true)
          (sym ek) hx))

fresh_key :
    (author : Text) (room : Option Text) (k0 : Text) (row : FactRow) (fs : List FactRow)
    → row.author ≡ author
    → row.room ≡ room
    → row.fkey ≡ some k0
    → find (is_keyed author room k0) fs ≡ none
    → (a : Text) (r : Option Text) (k : Text) → is_keyed a r k row ≡ true
    → count (is_keyed a r k) fs ≡ 0
unfolding is_keyed null_eq
fresh_key author room k0 row fs ea er ek none_found a r k h =
    let under : (author == a) && ((room_text room == room_text r) && (k0 == k)) ≡ true =
      subst (λ b. (b == a) && ((room_text room == room_text r) && (k0 == k)) ≡ true) ea
        (subst (λ t. (row.author == a) && ((room_text t == room_text r) && (k0 == k)) ≡ true) er
          (subst
            (λ o. (row.author == a) && ((room_text row.room == room_text r) && null_eq o k) ≡ true)
            ek h)) in
    omega (
      arith,
      count-none (is_keyed author room k0) fs none_found,
      count_sub (is_keyed author room k0) (is_keyed a r k)
          (λ x hx. same_key a author r room k k0 x under hx) fs,
    )

insert-IsUnique :
    (author : Text) (fact : Fact) (ts : ℕ) (model : Option Text) (s : Store)
    → ((a : Text) (r : Option Text) (k : Text)
        → is_keyed a r k (row_of author fact s.next_fact ts model) ≡ true
        → count (is_keyed a r k) s.facts ≡ 0)
    → IsUnique s.facts
    → IsUnique (insert_fact author fact ts model s).1.facts
unfolding insert_fact
insert-IsUnique author fact ts model s new u =
    IsUnique-append (row_of author fact s.next_fact ts model) s.facts new u

absurd_key :
    (a : Text) (r : Option Text) (k : Text) (row : FactRow) {n : ℕ}
    → row.fkey ≡ none
    → is_keyed a r k row ≡ true
    → n ≡ 0
unfolding is_keyed null_eq
absurd_key a r k row e h = ground (arith, e, h)

rewritten :
    (author : Text) (room : Option Text) (k0 text : Text) (ts : ℕ) (model : Option Text)
    (fs : List FactRow)
    → IsUnique fs
    → IsUnique (
        update
          (is_keyed author room k0)
          (λ g. record g { text = text; ts = ts; embedding_model = model })
          fs)
unfolding is_keyed
rewritten author room k0 text ts model fs u a r k = omega (
  arith,
  u a r k,
  count-update (is_keyed author room k0) (is_keyed a r k)
      (λ g. record g { text = text; ts = ts; embedding_model = model }) (λ x h. refl) fs,
)

write-IsUnique :
    (author : Text) (fact : Fact) (ts : ℕ) (model : Option Text) (s : Store)
    → IsUnique s.facts
    → IsUnique (write_fact author fact ts model s).1.facts
unfolding write_fact
write-IsUnique author fact ts model s u = elim (Option-cases fact.key) [
  | inl e ↦
      rw (e, write_fact)
        (insert-IsUnique author fact ts model s
          (λ a r k h. absurd_key a r k (row_of author fact s.next_fact ts model) e h) u)
  | inr (k0, e) ↦ elim (Option-cases (find (is_keyed author fact.room k0) s.facts)) [
    | inl missing ↦
        rw (e, write_fact, missing)
          (insert-IsUnique author fact ts model s
            (fresh_key author fact.room k0 (row_of author fact s.next_fact ts model) s.facts refl
              refl e missing)
            u)
    | inr (f, found) ↦
        rw (e, write_fact, found) (rewritten author fact.room k0 fact.text ts model s.facts u)
  ]
]

embed_facts : (e : Option (List ℕ)) (w : ℕ × Store) → (embed e w).facts ≡ w.1.facts
unfolding embed
embed_facts none (id, s) = refl
embed_facts (some e) (id, s) = refl

-- Every write, refused or not, keeps at most one fact under each author, room and key, where there
-- was at most one.
pub remember-IsUnique :
    (author : Text) (fact : Fact) (ts : ℕ) (embedding : Option (List ℕ)) (model : Option Text)
    (s : Store)
    → IsUnique s.facts
    → IsUnique (remember author fact ts embedding model s).1.facts
unfolding remember
remember-IsUnique author fact ts embedding model s u =
    choose (λ (t : Store). IsUnique t.facts)
      (is_some_and embedding (λ e. not (eqb (length e) vec_dimension))) _ _ (λ bad. u)
      λ good.
        subst IsUnique (sym (embed_facts embedding (write_fact author fact ts model s)))
          (write-IsUnique author fact ts model s u)
