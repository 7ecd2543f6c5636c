-- ===== src/Server/Windows/Pruning.antt =====
-- crates/parler-hub/src/server.rs, `prune_rate_windows`: counters dropped between charges.
use parler_protocol.Prelude.{ℕ, ◌-◌, ◌≤◌, Text, ◌≡◌, subst, subst, Bool, List, [], ◌∷◌, ◌⊎◌}
use parler_protocol.Server.Windows.{
  RateLimits, RateKind, Window, RateWindows, Table, window_ms, rate_allows, Rates,
  prune_rate_windows,
}
use parler_protocol.Server.Windows.Bounds.{Charge, window_at}

-- What happens to the table: a charge, or a pass of the janitor.
pub data Event : Type 0 where
  charged : Charge → Event
  pruned : ℕ → Event

abbrev pub time : Event → ℕ
time (charged c) = c.now
time (pruned n) = n

-- The clock does not go back.
abbrev pub InOrder : ℕ → List Event → Type 0
InOrder t [] = Unit
InOrder t (e ∷ es) = (t ≤ time e) × InOrder (time e) es

-- The hub's answers to the charges.
abbrev pub answers : RateLimits → List Event → Rates → List Bool
answers l [] s = []
answers l (charged c ∷ es) s =
    let (allowed, m) = rate_allows l c.agent c.kind c.now s.rate in
    allowed ∷ answers l es (record s { rate = m })
answers l (pruned n ∷ es) s = answers l es (prune_rate_windows n s)

abbrev pub without_prunes : List Event → List Event
without_prunes [] = []
without_prunes (charged c ∷ es) = charged c ∷ without_prunes es
without_prunes (pruned n ∷ es) = without_prunes es

-- Two windows that answer alike from `t` on: they are equal, or both are over.
Alike : ℕ → ℕ → Window → Window → Type 0
Alike span t v w = (v ≡ w) ⊎ ((span ≤ t - v.start) × (span ≤ t - w.start))

-- Every window of two tables.
AlikeAt : ℕ → Table RateWindows → Table RateWindows → Type 0
AlikeAt t m n =
    (kind : RateKind) (agent : Text)
    → Alike (window_ms kind) t (window_at kind agent m) (window_at kind agent n)
