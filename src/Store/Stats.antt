-- ===== src/Store/Stats.antt =====
-- crates/parler-hub/src/store.rs, `room_stats`: the counters of a room. Each of its two queries selects
-- the rows of the room.
pub mod Growth
use parler_protocol.Prelude.{
  ℕ, ◌+◌, min, max, Text, ◌==◌, ◌≡◌, refl, Bool, true, false, ◌&&◌, ◌||◌, Option, none, some, List,
  [], ◌∷◌, arith, ltb, eqb, if◌then◌else◌, length, select, text_leb,
}
use parler_protocol.Store.Tables.{Store, MessageRow}

pub record AgentStat : Type 0 where
  pub name : Text
  pub role : Option Text
  pub messages : ℕ
  pub tokens : ℕ

pub record RoomStats : Type 0 where
  pub messages : ℕ
  pub tokens : ℕ
  pub first_ts : Option ℕ
  pub last_ts : Option ℕ
  pub per_agent : List AgentStat

-- `COALESCE(SUM(tokens), 0)`.
unfoldable pub sum_tokens : List MessageRow → ℕ
sum_tokens [] = 0
sum_tokens (m ∷ ms) = m.tokens + sum_tokens ms

-- MIN(ts) and MAX(ts): NULL over no rows.
unfoldable pub extreme_ts : (ℕ → ℕ → ℕ) → List MessageRow → Option ℕ
extreme_ts pick [] = none
extreme_ts pick (m ∷ ms) = elim (extreme_ts pick ms) [
  | none ↦ some m.ts
  | some t ↦ some (pick m.ts t)
]

-- GROUP BY takes NULL for equal to NULL.
unfoldable pub same_role : Option Text → Option Text → Bool
same_role none none = true
same_role none (some b) = false
same_role (some a) none = false
same_role (some a) (some b) = a == b

unfoldable pub counted : MessageRow → List AgentStat → List AgentStat
unfolding same_role
counted m [] =
    record { name = m.author_name; role = m.author_role; messages = 1; tokens = m.tokens } ∷ []
counted m (a ∷ rs) =
    let rest = counted m rs in
    if (a.name == m.author_name) && same_role a.role m.author_role
    then record a { messages = a.messages + 1; tokens = a.tokens + m.tokens } ∷ rs
    else a ∷ rest

unfoldable pub groups : List MessageRow → List AgentStat
unfolding counted
groups [] = []
groups (m ∷ ms) = counted m (groups ms)

-- `ORDER BY toks DESC, n DESC, author_name ASC`.
unfoldable pub not_after : AgentStat → AgentStat → Bool
not_after a b =
    ltb b.tokens a.tokens
    || (eqb a.tokens b.tokens
        && (ltb b.messages a.messages || (eqb a.messages b.messages && text_leb a.name b.name)))

unfoldable pub placed : AgentStat → List AgentStat → List AgentStat
unfolding not_after
placed a [] = a ∷ []
placed a (b ∷ bs) = let rest = placed a bs in if not_after a b then a ∷ (b ∷ bs) else b ∷ rest

unfoldable pub by_tokens : List AgentStat → List AgentStat
unfolding placed
by_tokens [] = []
by_tokens (a ∷ rs) = placed a (by_tokens rs)

unfoldable pub room_stats : Text → Store → RoomStats
unfolding sum_tokens extreme_ts groups by_tokens
room_stats room s =
    let all = select (λ (m : MessageRow). m.room == room) s.messages in
    let grouped = select (λ (m : MessageRow). m.room == room) s.messages in
    record {
      messages = length all;
      tokens = sum_tokens all;
      first_ts = extreme_ts min all;
      last_ts = extreme_ts max all;
      per_agent = by_tokens (groups grouped);
    }
