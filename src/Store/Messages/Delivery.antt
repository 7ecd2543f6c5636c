-- ===== src/Store/Messages/Delivery.antt =====
-- pull without an acknowledgement: what successive cursor reads return.
use parler_protocol.Prelude.{
  ℕ, zero, suc, ◌+◌, ◌*◌, ◌<◌, Text, ◌==◌, ◌≡◌, refl, ap, ◌∙◌, inl, inr, Bool, true, false, ◌&&◌,
  Bool-cases, Option, none, Option-cases, List, [], ◌∷◌, ◌++◌, arith, ltb, if◌then◌else◌, take,
  drop, take_add, keys_apart, any-find, any-update, find-update_self, find-update_other, find, any,
  All, Outcome, ok, err, cons_ok_inv,
}
use parler_protocol.Store.Tables.{Store, Error, Codec, MessageRow, MemberRow, room_agent}
use parler_protocol.Store.Messages.{
  StoredMessage, newer, last_seq, pull, get_cursor, set_cursor, read_all, to_stored, page_size,
  read_floor, read_page,
}
use parler_protocol.Store.Messages.Order.{Ascends, Ascends-newer, newer-last_seq-newer, le-last_seq}

-- The log is in the order of `seq`, below the counter.
pub record IsLog (s : Store) : Type 0 where
  pub ordered : Ascends 0 s.messages
  pub below : All (λ m. m.seq < s.next_seq) s.messages
  pub started : 0 < s.next_seq

-- What a member has not been given yet.
abbrev pub pending : Text → Text → Store → List MessageRow
pending room agent s = newer room (get_cursor room agent s) s.messages

abbrev pub IsMember : Text → Text → Store → Type 0
IsMember room agent s = any (room_agent room agent) s.members ≡ true

room_agent-cursor :
    (room agent : Text) (v : ℕ) (m : MemberRow)
    → room_agent room agent (record m { cursor = v }) ≡ room_agent room agent m
room_agent-cursor room agent v m = refl

pub get_cursor-set_cursor :
    (room agent : Text) (v : ℕ) (s : Store)
    → IsMember room agent s
    → get_cursor room agent (set_cursor room agent v s) ≡ v
unfolding get_cursor set_cursor
get_cursor-set_cursor room agent v s h =
    elim (Option-cases (find (room_agent room agent) s.members)) [
      | inl e ↦ ground (arith, any-find (room_agent room agent) s.members)
      | inr (m, e) ↦ rw (
        find-update_self (room_agent room agent) (λ m. record m { cursor = v })
            (room_agent-cursor room agent v) s.members m e,
        get_cursor,
      )
    ]

-- Another cursor stays.
pub get_cursor-set_cursor_other :
    (room agent r a : Text) (v : ℕ) (s : Store)
    → ((r == room) && (a == agent)) ≡ false
    → get_cursor r a (set_cursor room agent v s) ≡ get_cursor r a s
unfolding get_cursor set_cursor
get_cursor-set_cursor_other room agent r a v s h = rw (
  find-update_other (room_agent room agent) (room_agent r a) (λ m. record m { cursor = v })
      (λ m e. let apart = keys_apart r a room agent m.room m.agent h e in (apart, apart)) s.members,
  get_cursor,
)

-- The state that a plain cursor read leaves: the cursor on the last row of the page.
pull_state :
    (c : Codec) (room agent : Text) (limit : Option ℕ) (s : Store) (cur next : ℕ)
    → get_cursor room agent s ≡ cur
    → last_seq cur (take (page_size limit) (newer room cur s.messages)) ≡ next
    → (pull c room agent none limit none s).1
      ≡ (if ltb cur next then set_cursor room agent next s else s)
unfolding pull read_page read_floor
pull_state c room agent limit s cur next e n = rw (e, n)

pub pending-pull :
    (c : Codec) (room agent : Text) (limit : Option ℕ) (s : Store)
    → IsLog s
    → IsMember room agent s
    → pending room agent (pull c room agent none limit none s).1
      ≡ drop (page_size limit) (pending room agent s)
pending-pull c room agent limit s g h =
    let cur = get_cursor room agent s in
    let n = page_size limit in
    let next = last_seq cur (take n (newer room cur s.messages)) in
    let rest = newer-last_seq-newer room cur n 0 s.messages g.ordered in
    let up =
      le-last_seq n cur (newer room cur s.messages)
        (Ascends-newer room cur 0 s.messages g.ordered) in
    elim (Bool-cases (ltb cur next)) [
      | inl moved ↦
          rw
            (
              pull_state c room agent limit s cur next refl refl,
              moved,
              get_cursor-set_cursor room agent next s h,
            )
            (unfold set_cursor in rest)
      | inr stays ↦
          let same : cur ≡ next = ground (arith, up, stays) in
          rw (pull_state c room agent limit s cur next refl refl, stays)
            (ap (λ k. newer room k s.messages) same ∙ rest)
    ]

if_state : (P : Store → Type 0) (b : Bool) (s t : Store) → P s → P t → P (if b then s else t)
if_state P true s t h k = h
if_state P false s t h k = k

-- A read moves a cursor and nothing else.
pub pull-IsLog :
    (c : Codec) (room agent : Text) (limit : Option ℕ) (s : Store)
    → IsLog s
    → IsLog (pull c room agent none limit none s).1
unfolding set_cursor
pull-IsLog c room agent limit s g = rw (pull_state c room agent limit s _ _ refl refl) (
    if_state IsLog _ (set_cursor room agent _ s) s
      (record { ordered = g.ordered; below = g.below; started = g.started }) g)

pub pull-IsMember :
    (c : Codec) (room agent : Text) (limit : Option ℕ) (r a : Text) (s : Store)
    → IsMember r a s
    → IsMember r a (pull c room agent none limit none s).1
unfolding set_cursor
pull-IsMember c room agent limit r a s h = rw (pull_state c room agent limit s _ _ refl refl) (
    if_state (IsMember r a) _ (set_cursor room agent _ s) s
      (rw
        (any-update (room_agent room agent) (room_agent r a)
          (λ m. record m {
            cursor =
                last_seq (get_cursor room agent s) (take (page_size limit) (pending room agent s));
          })
          (λ m. refl) s.members)
        h)
      h)

-- Reading rows one after another.
read_all-take :
    (c : Codec) (n : ℕ) (ms : List MessageRow) (all : List StoredMessage)
    → read_all c ms ≡ ok all
    → read_all c (take n ms) ≡ ok (take n all)
unfolding read_all
read_all-take c zero ms all h = refl
read_all-take c (suc n) [] all h = ground arith
read_all-take c (suc n) (m ∷ ms) all h =
    let (x, xs, first, others, split) = cons_ok_inv (to_stored c m) (read_all c ms) all h in
    rw (split, first, read_all-take c n ms xs others)

read_all-drop :
    (c : Codec) (n : ℕ) (ms : List MessageRow) (all : List StoredMessage)
    → read_all c ms ≡ ok all
    → read_all c (drop n ms) ≡ ok (drop n all)
unfolding read_all
read_all-drop c zero ms all h = h
read_all-drop c (suc n) [] all h = ground arith
read_all-drop c (suc n) (m ∷ ms) all h =
    let (x, xs, first, others, split) = cons_ok_inv (to_stored c m) (read_all c ms) all h in
    rw split (read_all-drop c n ms xs others)

-- What `n` successive plain reads return, joined.
pub drain : Codec → Text → Text → Option ℕ → ℕ → Store → Outcome Error (List StoredMessage)
drain c room agent limit zero s = ok []
drain c room agent limit (suc n) s =
    let rest = drain c room agent limit n (pull c room agent none limit none s).1 in
    elim (pull c room agent none limit none s).0 [
      | err e ↦ err e
      | ok page ↦ elim rest [ err e ↦ err e | ok more ↦ ok (page.0 ++ more) ]
    ]

pull_page :
    (c : Codec) (room agent : Text) (limit : Option ℕ) (s : Store) (all : List StoredMessage)
    → read_all c (pending room agent s) ≡ ok all
    → (pull c room agent none limit none s).0
      ≡ ok (
        take (page_size limit) all,
        last_seq (get_cursor room agent s) (take (page_size limit) (pending room agent s)),
      )
unfolding pull read_page read_floor
pull_page c room agent limit s all h =
    rw (read_all-take c (page_size limit) (pending room agent s) all h, pull, read_page)

-- For a member, over a log in order whose pending rows decode, `n` successive cursor reads return
-- the first `n` pages of the messages pending at the start, each once and in the order of the log,
-- whatever the page size.
pub drain_lem :
    (c : Codec) (room agent : Text) (limit : Option ℕ) (n : ℕ) (s : Store)
    (all : List StoredMessage)
    → IsLog s
    → IsMember room agent s
    → read_all c (pending room agent s) ≡ ok all
    → drain c room agent limit n s ≡ ok (take (n * page_size limit) all)
unfolding drain
drain_lem c room agent limit zero s all g h r = ground arith
drain_lem c room agent limit (suc n) s all g h r =
    let t = (pull c room agent none limit none s).1 in
    let ih =
      drain_lem c room agent limit n t (drop (page_size limit) all)
        (pull-IsLog c room agent limit s g) (pull-IsMember c room agent limit room agent s h)
        (rw (pending-pull c room agent limit s g h) (read_all-drop c (page_size limit) _ all r)) in
    let pages : page_size limit + n * page_size limit ≡ suc n * page_size limit = omega arith in
    rw (pull_page c room agent limit s all r, ih, drain, take_add (page_size limit) _ all, pages)
