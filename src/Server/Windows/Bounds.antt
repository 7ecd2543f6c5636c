-- ===== src/Server/Windows/Bounds.antt =====
-- crates/parler-hub/src/server.rs, "rate limits": how much a fixed window lets through.
use parler_protocol.Prelude.{
  ℕ, suc, ◌+◌, ◌-◌, ◌*◌, ◌≤◌, ◌<◌, Text, ◌==◌, eq_iff, eq_refl, ◌≡◌, refl, sym, ap, ◌≢◌, Bool, true,
  false, ◌&&◌, unwrap_or, List, [], ◌∷◌, eqb, if◌then◌else◌, arith, All, Bool-cases, and_split, ◌⊎◌,
  inl, inr,
}
use parler_protocol.Server.Windows.{
  RateLimits, RateKind, operation, send, blob, Window, charge_window, RateWindows, fresh_windows,
  Table, agent_limit, window_of, set_window, window_ms, rate_allows,
}

-- One charged event: who, for what and when.
pub record Charge : Type 0 where
  pub agent : Text
  pub kind : RateKind
  pub now : ℕ

abbrev pub same_kind : RateKind → RateKind → Bool
same_kind operation operation = true
same_kind send send = true
same_kind blob blob = true
same_kind _ _ = false

-- How many of the events at these times one window lets through.
abbrev pub window_total : ℕ → ℕ → List ℕ → Window → ℕ
window_total limit span [] w = 0
window_total limit span (now ∷ times) w =
    let (allowed, w2) = charge_window limit span now w in
    let rest = window_total limit span times w2 in if allowed then suc rest else rest

-- What is asked of every time in a span of one window.
abbrev pub Within : ℕ → ℕ → List ℕ → Type 0
Within t span = All (λ (n : ℕ). (t ≤ n) × (n < t + span))

-- What a limited window does with an event: it starts again, counts it, or refuses it.
pub charge_window-cases :
    (limit span now : ℕ) (w : Window)
    → limit ≢ 0
    → ((span ≤ now - w.start)
        × (charge_window limit span now w ≡ (true, record { start = now; count = 1 })))
      ⊎ (((now - w.start < span)
            × (w.count < limit)
            × (charge_window limit span now w ≡ (true, record w { count = w.count + 1 })))
          ⊎ ((now - w.start < span)
              × (limit ≤ w.count)
              × (charge_window limit span now w ≡ (false, w))))
unfolding charge_window
charge_window-cases limit span now w nz = ground arith

-- After a roll in the span there is no other.
total_from :
    (limit span t : ℕ) (times : List ℕ) (w : Window)
    → limit ≢ 0
    → Within t span times
    → t ≤ w.start
    → w.count ≤ limit
    → window_total limit span times w + w.count ≤ limit
total_from limit span t [] w nz inside late low = omega arith
total_from limit span t (n ∷ times) w nz inside late low =
    elim (charge_window-cases limit span n w nz) [
      | inl h ↦ omega (arith, h.0, inside.0.0, inside.0.1)
      | inr (inl h) ↦ rw (h.2) (
          let again =
            total_from limit span t times (record w { count = w.count + 1 }) nz inside.1 late
              (omega (arith, h.1)) in
          omega (arith, again))
      | inr (inr h) ↦ rw (h.2) (total_from limit span t times w nz inside.1 late low)
    ]

-- Before it, the count that is left is the limit.
pub window_total_le :
    (limit span t : ℕ) (times : List ℕ) (w : Window)
    → limit ≢ 0
    → Within t span times
    → window_total limit span times w ≤ (limit - w.count) + limit
window_total_le limit span t [] w nz inside = omega arith
window_total_le limit span t (n ∷ times) w nz inside =
    elim (charge_window-cases limit span n w nz) [
      | inl h ↦ rw (h.1) (
          let after =
            total_from limit span t times (record { start = n; count = 1 }) nz inside.1 inside.0.0
              (omega arith) in
          omega (arith, after))
      | inr (inl h) ↦ rw (h.2) (
          let again =
            window_total_le limit span t times (record w { count = w.count + 1 }) nz inside.1 in
          omega (arith, again, h.1))
      | inr (inr h) ↦ rw (h.2) (window_total_le limit span t times w nz inside.1)
    ]

abbrev pub is_charge_of : Text → RateKind → Charge → Bool
is_charge_of agent kind c = (agent == c.agent) && same_kind kind c.kind

abbrev pub times_of : Text → RateKind → List Charge → List ℕ
times_of agent kind [] = []
times_of agent kind (c ∷ cs) =
    let rest = times_of agent kind cs in if is_charge_of agent kind c then c.now ∷ rest else rest

-- How many of an agent's events of a kind the hub lets through among everyone's.
abbrev pub allowed_total : RateLimits → Text → RateKind → List Charge → Table RateWindows → ℕ
allowed_total l agent kind [] m = 0
allowed_total l agent kind (c ∷ cs) m =
    let (allowed, m2) = rate_allows l c.agent c.kind c.now m in
    let rest = allowed_total l agent kind cs m2 in
    if is_charge_of agent kind c && allowed then suc rest else rest

abbrev pub window_at : RateKind → Text → Table RateWindows → Window
window_at kind agent m = window_of kind (unwrap_or (m agent) fresh_windows)

pub window_of-set_window :
    (k : RateKind) (w : Window) (r : RateWindows) → window_of k (set_window k w r) ≡ w
window_of-set_window operation w r = refl
window_of-set_window send w r = refl
window_of-set_window blob w r = refl

pub window_of-set_window_other :
    (j k : RateKind) (w : Window) (r : RateWindows)
    → same_kind j k ≡ false
    → window_of j (set_window k w r) ≡ window_of j r
window_of-set_window_other operation operation w r e = ground arith
window_of-set_window_other operation send w r e = refl
window_of-set_window_other operation blob w r e = refl
window_of-set_window_other send operation w r e = refl
window_of-set_window_other send send w r e = ground arith
window_of-set_window_other send blob w r e = refl
window_of-set_window_other blob operation w r e = refl
window_of-set_window_other blob send w r e = refl
window_of-set_window_other blob blob w r e = ground arith

pub same_kind_sound : (k j : RateKind) → same_kind k j ≡ true → k ≡ j
same_kind_sound operation operation e = refl
same_kind_sound operation send e = ground arith
same_kind_sound operation blob e = ground arith
same_kind_sound send operation e = ground arith
same_kind_sound send send e = refl
same_kind_sound send blob e = ground arith
same_kind_sound blob operation e = ground arith
same_kind_sound blob send e = ground arith
same_kind_sound blob blob e = refl

-- A charge of another agent or kind leaves the window.
pub window_at-rate_allows_other :
    (l : RateLimits) (agent : Text) (kind : RateKind) (c : Charge) (m : Table RateWindows)
    → is_charge_of agent kind c ≡ false
    → window_at kind agent (rate_allows l c.agent c.kind c.now m).1 ≡ window_at kind agent m
unfolding rate_allows
window_at-rate_allows_other l agent kind c m other =
    elim (Bool-cases (eqb (agent_limit l c.kind) 0)) [
      | inl z ↦ rw (z) refl
      | inr z ↦ rw (z) (elim (Bool-cases (agent == c.agent)) [
        | inr a ↦ rw (a) refl
        | inl a ↦
            rw
              (
                a,
                window_of-set_window_other kind c.kind
                    (charge_window (agent_limit l c.kind) (window_ms c.kind) c.now
                      (window_at c.kind c.agent m)).1
                    (unwrap_or (m c.agent) fresh_windows) (ground arith),
              )
              (ap (λ (x : Text). window_at kind x m) (sym ((eq_iff agent c.agent).0 a)))
      ])
    ]

pub window_at-rate_allows_same :
    (l : RateLimits) (agent : Text) (kind : RateKind) (now : ℕ) (m : Table RateWindows)
    → agent_limit l kind ≢ 0
    → ((rate_allows l agent kind now m).0
        ≡ (charge_window (agent_limit l kind) (window_ms kind) now (window_at kind agent m)).0)
      × (window_at kind agent (rate_allows l agent kind now m).1
          ≡ (charge_window (agent_limit l kind) (window_ms kind) now (window_at kind agent m)).1)
unfolding rate_allows
window_at-rate_allows_same l agent kind now m nz =
    let z : eqb (agent_limit l kind) 0 ≡ false = ground arith in
    rw (z)
      (rw (eq_refl agent) (refl, window_of-set_window kind _ (unwrap_or (m agent) fresh_windows)))

-- The hub's answers to one agent are those of one window, whoever else is charged between.
allowed_total-window_total :
    (l : RateLimits) (agent : Text) (kind : RateKind) (cs : List Charge) (m : Table RateWindows)
    → agent_limit l kind ≢ 0
    → allowed_total l agent kind cs m
      ≡ window_total
          (agent_limit l kind)
          (window_ms kind)
          (times_of agent kind cs)
          (window_at kind agent m)
allowed_total-window_total l agent kind [] m nz = refl
allowed_total-window_total l agent kind (c ∷ cs) m nz =
    elim (Bool-cases (is_charge_of agent kind c)) [
      | inr other ↦
          let again =
            allowed_total-window_total l agent kind cs (rate_allows l c.agent c.kind c.now m).1
              nz in
          let keep = window_at-rate_allows_other l agent kind c m other in
          rw (other, sym keep) again
      | inl same ↦
          let again =
            allowed_total-window_total l agent kind cs (rate_allows l c.agent c.kind c.now m).1
              nz in
          let e = and_split (agent == c.agent) (same_kind kind c.kind) same in
          let step = window_at-rate_allows_same l agent kind c.now m nz in
          let a : agent ≡ c.agent = (eq_iff agent c.agent).0 e.0 in
          let k : kind ≡ c.kind = same_kind_sound kind c.kind e.1 in
          rw (same, again, sym a, sym k, step.0, step.1) refl
    ]

-- Of one agent's events of a limited kind, those at times in a span of one window (a minute, or
-- an hour for blobs), whoever else is charged between them and whatever the table held before,
-- the hub allows at most twice the limit.
pub allowed_total_le :
    (l : RateLimits) (agent : Text) (kind : RateKind) (t : ℕ) (cs : List Charge)
    (m : Table RateWindows)
    → agent_limit l kind ≢ 0
    → Within t (window_ms kind) (times_of agent kind cs)
    → allowed_total l agent kind cs m ≤ 2 * agent_limit l kind
allowed_total_le l agent kind t cs m nz inside =
    let same = allowed_total-window_total l agent kind cs m nz in
    let most =
      window_total_le (agent_limit l kind) (window_ms kind) t (times_of agent kind cs)
        (window_at kind agent m) nz inside in
    omega (arith, same, most)
