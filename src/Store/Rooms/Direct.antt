-- ===== src/Store/Rooms/Direct.antt =====
-- find_dm_room: which rooms it may answer with.
use parler_protocol.Prelude.{
  ◌+◌, any-count, any-find, find_sound, ◌≤◌, Text, codes, ◌==◌, eq_iff, eq_refl, Text-cases, ◌≡◌,
  sym, subst, ◌≢◌, ◌⊎◌, inl, inr, Bool, true, false, ◌&&◌, ◌||◌, Bool-cases, some, Option-cases,
  is_some, List, [], ◌∷◌, arith, any-count, find_sound, any-find, find, any, count,
}
use parler_protocol.Store.Tables.{Store, MemberRow, RoomRow, room_agent}
use parler_protocol.Store.Rooms.{is_member, is_dm_row, find_dm_room}

-- Three tests of which no row passes two count at most the rows of a test they all imply.
count_three :
    {A : Type 0} (p q r all : A → Bool) (xs : List A)
    → ((x : A) → p x ≡ true → (all x ≡ true) × (q x ≡ false) × (r x ≡ false))
    → ((x : A) → q x ≡ true → (all x ≡ true) × (r x ≡ false))
    → ((x : A) → r x ≡ true → all x ≡ true)
    → count p xs + count q xs + count r xs ≤ count all xs
unfolding count
count_three p q r all [] hp hq hr = ground arith
count_three p q r all (x ∷ xs) hp hq hr =
    ground (arith, hp x, hq x, hr x, count_three p q r all xs hp hq hr)

-- Two agents of one room have different rows.
apart :
    (room a b : Text) (m : MemberRow)
    → a ≢ b
    → room_agent room a m ≡ true
    → (m.room == room ≡ true) × (room_agent room b m ≡ false)
apart room a b m d h = ground (arith, h, d, eq_iff m.agent a, eq_iff m.agent b, eq_iff a b)

in_room : (room a : Text) (m : MemberRow) → room_agent room a m ≡ true → m.room == room ≡ true
in_room room a m h = ground arith

differ : (a b : Text) → a == b ≡ false → a ≢ b
differ a b h e = ground (arith, h, (eq_iff a b).1 e)

is_member-any :
    (room a : Text) (s : Store)
    → any (room_agent room a) s.members ≡ true
    → is_member room a s ≡ true
unfolding is_member
is_member-any room a s h = ground (arith, h, any-count (room_agent room a) s.members)

any_of_find :
    {A : Type 0} (p q : A → Bool) (xs : List A) {x : A}
    → find p xs ≡ some x
    → q x ≡ true
    → any q xs ≡ true
unfolding find any
any_of_find p q [] e h = ground arith
any_of_find p q (y ∷ ys) {x} e h = ground (arith, any_of_find p q ys {x = x})

-- The row behind an answer.
found_row :
    (a b room : Text) (s : Store)
    → find_dm_room a b s ≡ some room
    → (m : MemberRow) × (find (is_dm_row a b s) s.members ≡ some m) × (m.room ≡ room)
unfolding find_dm_room
found_row a b room s found = elim (Option-cases (find (is_dm_row a b s) s.members)) [
  | inl missing ↦ ground arith
  | inr (m, e) ↦ (m, e, ground arith)
]

-- What the WHERE clause says of a row, and that the caller is a member there.
row_facts :
    (a b : Text) (m : MemberRow) (s : Store)
    → find (is_dm_row a b s) s.members ≡ some m
    → (any (room_agent m.room a) s.members ≡ true)
      × (any (room_agent m.room b) s.members ≡ true)
      × (any (λ (r : RoomRow). (r.name == m.room) && (r.kind == codes "dm")) s.rooms ≡ true)
      × (count (λ (x : MemberRow). x.room == m.room) s.members ≡ 2)
      × (m.agent == a ≡ true)
unfolding is_dm_row
row_facts a b m s e =
    let h : is_dm_row a b s m ≡ true = find_sound (is_dm_row a b s) s.members e in
    let mine : any (room_agent m.room a) s.members ≡ true =
      any_of_find (is_dm_row a b s) (room_agent m.room a) s.members e
        (ground (arith, h, eq_refl m.room)) in
    (mine, ground (arith, h), ground (arith, h), ground (arith, h), ground (arith, h))

is_member-any_iff :
    (room a : Text) (s : Store)
    → is_member room a s ≡ true
    → any (room_agent room a) s.members ≡ true
unfolding is_member
is_member-any_iff room a s h = ground (arith, h, any-count (room_agent room a) s.members)

third_count :
    (room a b c : Text) (s : Store)
    → a ≢ b
    → a ≢ c
    → b ≢ c
    → count (room_agent room a) s.members
        + count (room_agent room b) s.members
        + count (room_agent room c) s.members
      ≤ count (λ (x : MemberRow). x.room == room) s.members
third_count room a b c s ab ac bc =
    count_three (room_agent room a) (room_agent room b) (room_agent room c)
      (λ (x : MemberRow). x.room == room) s.members
      (λ x h. (in_room room a x h, (apart room a b x ab h).1, (apart room a c x ac h).1))
      (λ x h. (in_room room b x h, (apart room b c x bc h).1)) (λ x h. in_room room c x h)

-- A third member would make three rows.
no_third :
    (room a b c : Text) (s : Store)
    → a ≢ b
    → any (room_agent room a) s.members ≡ true
    → any (room_agent room b) s.members ≡ true
    → count (λ (x : MemberRow). x.room == room) s.members ≡ 2
    → any (room_agent room c) s.members ≡ true
    → (c ≡ a) ⊎ (c ≡ b)
no_third room a b c s d ha hb two hc = elim (Text-cases c a) [
  | inl same ↦ inl same
  | inr ca ↦ elim (Text-cases c b) [
    | inl same ↦ inr same
    | inr cb ↦ ground (
      arith,
      two,
      ha,
      hb,
      hc,
      any-count (room_agent room a) s.members,
      any-count (room_agent room b) s.members,
      any-count (room_agent room c) s.members,
      third_count room a b c s d (λ e. differ c a ca (sym e)) (λ e. differ c b cb (sym e)),
    )
  ]
]

exact_members :
    (room a b c : Text) (s : Store)
    → a ≢ b
    → any (room_agent room a) s.members ≡ true
    → any (room_agent room b) s.members ≡ true
    → count (λ (x : MemberRow). x.room == room) s.members ≡ 2
    → is_member room c s ≡ (c == a) || (c == b)
exact_members room a b c s d ha hb two = elim (Bool-cases (is_member room c s)) [
  | inl here ↦ elim (no_third room a b c s d ha hb two (is_member-any_iff room c s here)) [
    | inl e ↦ ground (arith, here, (eq_iff c a).1 e)
    | inr e ↦ ground (arith, here, (eq_iff c b).1 e)
  ]
  | inr away ↦ elim (Text-cases c a) [
    | inl e ↦ ground (
      arith,
      away,
      is_member-any room c s (subst (λ x. any (room_agent room x) s.members ≡ true) (sym e) ha),
    )
    | inr ca ↦ elim (Text-cases c b) [
      | inl e ↦ ground (
        arith,
        away,
        is_member-any room c s (subst (λ x. any (room_agent room x) s.members ≡ true) (sym e) hb),
      )
      | inr cb ↦ ground (arith, away, ca, cb)
    ]
  ]
]

-- A room answered for two different agents is a `dm` room whose members are those two and nobody else.
pub find_dm_room_sound :
    (a b c room : Text) (s : Store)
    → a ≢ b
    → find_dm_room a b s ≡ some room
    → (any (λ (r : RoomRow). (r.name == room) && (r.kind == codes "dm")) s.rooms ≡ true)
      × (is_member room c s ≡ (c == a) || (c == b))
find_dm_room_sound a b c room s d found =
    let (m, e, same) = found_row a b room s found in
    let (mine, theirs, kind, two, _) = row_facts a b m s e in
    subst
      (λ room.
        (any (λ (r : RoomRow). (r.name == room) && (r.kind == codes "dm")) s.rooms ≡ true)
        × (is_member room c s ≡ (c == a) || (c == b)))
      same (kind, exact_members m.room a b c s d mine theirs two)

-- Every direct room of an agent with another is also an answer for the agent with itself.
pub find_dm_room_self :
    (a b room : Text) (s : Store)
    → find_dm_room a b s ≡ some room
    → is_some (find_dm_room a a s) ≡ true
unfolding find_dm_room is_dm_row
find_dm_room_self a b room s found =
    let (m, e, same) = found_row a b room s found in
    let (mine, theirs, kind, two, me) = row_facts a b m s e in
    let self : is_dm_row a a s m ≡ true = ground (arith, mine, kind, two, me) in
    ground (
      arith,
      any_of_find (is_dm_row a b s) (is_dm_row a a s) s.members e self,
      any-find (is_dm_row a a s) s.members,
    )
