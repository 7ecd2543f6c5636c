-- ===== src/Store/Messages/Order.antt =====
-- The order of the log by `seq`.
use parler_protocol.Prelude.{
  ℕ, zero, suc, ◌≤◌, ◌<◌, Text, ◌==◌, ◌≡◌, refl, ◌∙◌, Bool, ◌&&◌, List, [], ◌∷◌, arith, ltb, take,
  drop, select, delete, All, ◌++◌,
}
use parler_protocol.Store.Tables.{MessageRow}
use parler_protocol.Store.Messages.{newer, last_seq}

-- Strictly rising from above `b`.
abbrev pub Ascends : ℕ → List MessageRow → Type 0
Ascends b [] = Unit {0}
Ascends b (m ∷ ms) = (b < m.seq) × Ascends m.seq ms

Ascends-mono : (b c : ℕ) (ms : List MessageRow) → c ≤ b → Ascends b ms → Ascends c ms
Ascends-mono b c [] h a = tt
Ascends-mono b c (m ∷ ms) h a = (omega arith, a.1)

pub Ascends-select :
    (p : MessageRow → Bool) (b : ℕ) (ms : List MessageRow) → Ascends b ms → Ascends b (select p ms)
unfolding select
Ascends-select p b [] a = tt
Ascends-select p b (m ∷ ms) a =
    ground (arith, Ascends-select p m.seq ms a.1, Ascends-mono m.seq b (select p ms))

pub Ascends-delete :
    (p : MessageRow → Bool) (b : ℕ) (ms : List MessageRow) → Ascends b ms → Ascends b (delete p ms)
unfolding delete
Ascends-delete p b [] a = tt
Ascends-delete p b (m ∷ ms) a =
    ground (arith, Ascends-delete p m.seq ms a.1, Ascends-mono m.seq b (delete p ms))

-- The rows of a room past a cursor rise from it.
pub Ascends-newer :
    (room : Text) (cur b : ℕ) (ms : List MessageRow)
    → Ascends b ms
    → Ascends cur (newer room cur ms)
unfolding newer select
Ascends-newer room cur b [] a = tt
Ascends-newer room cur b (m ∷ ms) a = ground (
  arith,
  Ascends-newer room cur m.seq ms a.1,
  Ascends-select (λ m. (m.room == room) && ltb cur m.seq) m.seq ms a.1,
)

select_above :
    (c b : ℕ) (ms : List MessageRow) → c ≤ b → Ascends b ms → select (λ m. ltb c m.seq) ms ≡ ms
unfolding select
select_above c b [] h a = refl
select_above c b (m ∷ ms) h a = ground (arith, select_above c m.seq ms)

pub le-last_seq : (n b : ℕ) (ms : List MessageRow) → Ascends b ms → b ≤ last_seq b (take n ms)
unfolding last_seq
le-last_seq zero b ms a = omega arith
le-last_seq (suc n) b [] a = omega arith
le-last_seq (suc n) b (m ∷ ms) a = omega (arith, le-last_seq n m.seq ms a.1)

-- Past the last row of a page stands exactly what the page left out.
pub newer_last-seq :
    (n b : ℕ) (ms : List MessageRow)
    → Ascends b ms
    → select (λ m. ltb (last_seq b (take n ms)) m.seq) ms ≡ drop n ms
unfolding last_seq select
newer_last-seq zero b ms a = select_above b b ms (omega arith) a
newer_last-seq (suc n) b [] a = refl
newer_last-seq (suc n) b (m ∷ ms) a =
    ground (arith, newer_last-seq n m.seq ms a.1, le-last_seq n m.seq ms a.1)

pub newer_again :
    (room : Text) (cur next : ℕ) (ms : List MessageRow)
    → cur ≤ next
    → newer room next ms ≡ select (λ m. ltb next m.seq) (newer room cur ms)
unfolding newer select
newer_again room cur next [] h = refl
newer_again room cur next (m ∷ ms) h = ground (arith, newer_again room cur next ms)

-- A page read from a cursor, and what the next cursor leaves.
pub newer-last_seq-newer :
    (room : Text) (cur n b : ℕ) (ms : List MessageRow)
    → Ascends b ms
    → newer room (last_seq cur (take n (newer room cur ms))) ms ≡ drop n (newer room cur ms)
newer-last_seq-newer room cur n b ms a =
    let up = Ascends-newer room cur b ms a in
    newer_again room cur _ ms (le-last_seq n cur (newer room cur ms) up)
    ∙ newer_last-seq n cur (newer room cur ms) up

-- A row with the next `seq` keeps the order.
pub Ascends-append :
    (b k : ℕ) (ms : List MessageRow) (row : MessageRow)
    → Ascends b ms
    → All (λ m. m.seq < k) ms
    → b < k
    → row.seq ≡ k
    → Ascends b (ms ++ row ∷ [])
Ascends-append b k [] row a h lt e = (omega arith, tt)
Ascends-append b k (m ∷ ms) row a h lt e = (a.0, Ascends-append m.seq k ms row a.1 h.1 h.0 e)
