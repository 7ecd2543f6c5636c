-- ===== src/Store/Messages/Acknowledge.antt =====
-- pull with a deferred acknowledgement, and the cursors over all its modes.
use parler_protocol.Prelude.{
  ℕ, ◌≤◌, max, Text, ◌==◌, eq_iff, ◌≡◌, refl, sym, ap, ◌∙◌, ◌⊎◌, inl, inr, Bool, true, false, ◌&&◌,
  Bool-cases, and_split, Option, none, some, List, arith, ltb, if◌then◌else◌, any-find,
  find-update-none, any, Outcome,
}
use parler_protocol.Store.Tables.{Store, Error, Codec, room_agent}
use parler_protocol.Store.Messages.{
  StoredMessage, pull, get_cursor, set_cursor, read_floor, read_page,
}
use parler_protocol.Store.Messages.Delivery.{
  IsMember, get_cursor-set_cursor, get_cursor-set_cursor_other,
}

-- The floor that an acknowledgement sets.
abbrev acked : Text → Text → ℕ → Store → Store
acked room agent a s = if ltb (get_cursor room agent s) a then set_cursor room agent a s else s

pull-acked :
    (c : Codec) (room agent : Text) (limit : Option ℕ) (a : ℕ) (s : Store)
    → pull c room agent none limit (some a) s
      ≡ read_page c room agent limit false (max (get_cursor room agent s) a) (acked room agent a s)
unfolding pull read_floor
pull-acked c room agent limit a s = ground arith

acked-messages :
    (room agent : Text) (a : ℕ) (s : Store) → (acked room agent a s).messages ≡ s.messages
unfolding set_cursor
acked-messages room agent a s = ground arith

get_cursor-acked :
    (room agent : Text) (a : ℕ) (s : Store)
    → IsMember room agent s
    → get_cursor room agent (acked room agent a s) ≡ max (get_cursor room agent s) a
get_cursor-acked room agent a s h = ground (arith, get_cursor-set_cursor room agent a s h)

acked_again :
    (room agent : Text) (a : ℕ) (s : Store)
    → IsMember room agent s
    → acked room agent a (acked room agent a s) ≡ acked room agent a s
acked_again room agent a s h = ground (arith, get_cursor-acked room agent a s h)

read_page_state :
    (c : Codec) (room agent : Text) (limit : Option ℕ) (cur : ℕ) (s : Store)
    → (read_page c room agent limit false cur s).1 ≡ s
unfolding read_page
read_page_state c room agent limit cur s = refl

-- For a member, a read repeated with the same acknowledgement returns the same batch and cursor
-- and leaves the same store.
pub pull_retry :
    (c : Codec) (room agent : Text) (limit : Option ℕ) (a : ℕ) (s : Store)
    → IsMember room agent s
    → pull c room agent none limit (some a) (pull c room agent none limit (some a) s).1
      ≡ pull c room agent none limit (some a) s
pull_retry c room agent limit a s h =
    let p = pull-acked c room agent limit a in
    let t = acked room agent a s in
    let top : max (get_cursor room agent t) a ≡ max (get_cursor room agent s) a =
      omega (arith, get_cursor-acked room agent a s h) in
    let left : (pull c room agent none limit (some a) s).1 ≡ t =
      ap (λ (x : Outcome Error (List StoredMessage × ℕ) × Store). x.1) (p s)
      ∙ read_page_state c room agent limit (max (get_cursor room agent s) a) t in
    ap (λ (x : Store). pull c room agent none limit (some a) x) left
    ∙ p t
    ∙ ap (λ (k : ℕ). read_page c room agent limit false k (acked room agent a t)) top
    ∙ ap (λ (u : Store). read_page c room agent limit false (max (get_cursor room agent s) a) u)
        (acked_again room agent a s h)
    ∙ sym (p s)

get_cursor_absent :
    (room agent : Text) (v : ℕ) (s : Store)
    → any (room_agent room agent) s.members ≡ false
    → get_cursor room agent (set_cursor room agent v s) ≡ get_cursor room agent s
unfolding get_cursor set_cursor
get_cursor_absent room agent v s absent = ground (
  arith,
  any-find (room_agent room agent) s.members,
  find-update-none (room_agent room agent) (λ m. record m { cursor = v }) s.members,
)

-- The two things that a cursor update can do to a cursor.
get_cursor_cases :
    (room agent r b : Text) (v : ℕ) (s : Store)
    → (get_cursor r b (set_cursor room agent v s) ≡ get_cursor r b s)
      ⊎ ((r ≡ room) × (b ≡ agent) × (get_cursor r b (set_cursor room agent v s) ≡ v))
get_cursor_cases room agent r b v s = elim (Bool-cases ((r == room) && (b == agent))) [
  | inr apart ↦ inl (get_cursor-set_cursor_other room agent r b v s apart)
  | inl same ↦
      let (x, y) = and_split (r == room) (b == agent) same in
      let p = (eq_iff r room).0 x in
      let q = (eq_iff b agent).0 y in
      elim (Bool-cases (any (room_agent room agent) s.members)) [
        | inl member ↦ inr (p, q, rw (p, q) (get_cursor-set_cursor room agent v s member))
        | inr absent ↦ inl (rw (p, q) (get_cursor_absent room agent v s absent))
      ]
]

cursor_rises :
    (room agent r b : Text) (v : ℕ) (s : Store)
    → get_cursor room agent s ≤ v
    → get_cursor r b s ≤ get_cursor r b (set_cursor room agent v s)
cursor_rises room agent r b v s h = elim (get_cursor_cases room agent r b v s) [
  | inl e ↦ omega (arith, e)
  | inr (p, q, e) ↦
      let own : get_cursor r b s ≡ get_cursor room agent s = rw (p, q) refl in omega (arith, e, own)
]

if_rises :
    (test : Bool) (room agent r b : Text) (v : ℕ) (s : Store)
    → (test ≡ true → get_cursor room agent s ≤ v)
    → get_cursor r b s ≤ get_cursor r b (if test then set_cursor room agent v s else s)
if_rises true room agent r b v s h = cursor_rises room agent r b v s (h refl)
if_rises false room agent r b v s h = omega arith

ack_rises :
    (c : Codec) (room agent : Text) (limit : Option ℕ) (a : ℕ) (s : Store) (r b : Text)
    → get_cursor r b s ≤ get_cursor r b (pull c room agent none limit (some a) s).1
ack_rises c room agent limit a s r b =
    rw
      (
        pull-acked c room agent limit a s,
        read_page_state c room agent limit (max (get_cursor room agent s) a) (acked room agent a s),
      )
      (if_rises _ room agent r b a s (λ t. ground arith))

-- No read, in any of its three modes, moves any cursor of any member backwards.
pub get_cursor-le-pull :
    (c : Codec) (room agent : Text) (since limit ack : Option ℕ) (s : Store) (r b : Text)
    → get_cursor r b s ≤ get_cursor r b (pull c room agent since limit ack s).1
unfolding pull read_floor read_page
get_cursor-le-pull c room agent (some x) limit ack s r b = omega arith
get_cursor-le-pull c room agent none limit none s r b =
    if_rises _ room agent r b _ s (λ t. ground arith)
get_cursor-le-pull c room agent none limit (some a) s r b = ack_rises c room agent limit a s r b
