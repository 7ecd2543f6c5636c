-- ===== src/Server/Windows.antt =====
-- crates/parler-hub/src/server.rs, "rate limits": fixed windows per agent, room and address.
-- The clock is in milliseconds after 1970, a natural number: where it went back, the signed
-- difference of the source is negative and that of ℕ is 0, and both are below every window.
pub mod Bounds
pub mod Pruning
use parler_protocol.Prelude.{
  ℕ, ◌+◌, ◌-◌, Text, ◌==◌, Bool, true, false, ◌||◌, Option, none, some, unwrap_or, List, [], ◌∷◌,
  leb, ltb, eqb, if◌then◌else◌,
}

pub record RateLimits : Type 0 where
  pub max_ops_per_min : ℕ
  pub max_sends_per_min : ℕ
  pub max_blobs_per_hour : ℕ
  pub max_room_sends_per_min : ℕ
  pub max_room_blobs_per_hour : ℕ

abbrev pub default_limits : RateLimits
default_limits = record {
  max_ops_per_min = 600;
  max_sends_per_min = 240;
  max_blobs_per_hour = 120;
  max_room_sends_per_min = 1200;
  max_room_blobs_per_hour = 600;
}

pub data RateKind : Type 0 where
  operation : RateKind
  send : RateKind
  blob : RateKind

pub record Window : Type 0 where
  pub start : ℕ
  pub count : ℕ

abbrev pub fresh : Window
fresh = record { start = 0; count = 0 }

-- The window that an event at `now` is counted in.
abbrev pub roll : ℕ → ℕ → Window → Window
roll window_ms now w =
    if leb window_ms (now - w.start) then record { start = now; count = 0 } else w

abbrev pub take_one : ℕ → Window → Bool × Window
take_one limit w =
    if leb limit w.count then (false, w) else (true, record w { count = w.count + 1 })

unfoldable pub charge_window : ℕ → ℕ → ℕ → Window → Bool × Window
charge_window limit window_ms now w =
    if eqb limit 0 then (true, w) else take_one limit (roll window_ms now w)

pub record RateWindows : Type 0 where
  pub operations : Window
  pub sends : Window
  pub blobs : Window

abbrev pub fresh_windows : RateWindows
fresh_windows = record { operations = fresh; sends = fresh; blobs = fresh }

-- A `HashMap` by what it holds under a key.
abbrev pub Table : Type 0 → Type 0
Table A = Text → Option A

abbrev pub put : {A : Type 0} → Text → A → Table A → Table A
put k a m x = if x == k then some a else m x

-- `retain`.
abbrev pub retained : {A : Type 0} → (A → Bool) → Option A → Option A
retained p none = none
retained p (some a) = if p a then some a else none

abbrev pub minute : ℕ
minute = 60000

abbrev pub hour : ℕ
hour = 3600000

abbrev pub window_ms : RateKind → ℕ
window_ms operation = minute
window_ms send = minute
window_ms blob = hour

abbrev pub agent_limit : RateLimits → RateKind → ℕ
agent_limit l operation = l.max_ops_per_min
agent_limit l send = l.max_sends_per_min
agent_limit l blob = l.max_blobs_per_hour

-- An operation has no limit per room.
abbrev pub room_limit : RateLimits → RateKind → ℕ
room_limit l operation = 0
room_limit l send = l.max_room_sends_per_min
room_limit l blob = l.max_room_blobs_per_hour

abbrev pub window_of : RateKind → RateWindows → Window
window_of operation r = r.operations
window_of send r = r.sends
window_of blob r = r.blobs

abbrev pub set_window : RateKind → Window → RateWindows → RateWindows
set_window operation w r = record r { operations = w }
set_window send w r = record r { sends = w }
set_window blob w r = record r { blobs = w }

-- One charge under a key, with the limit that `kind` has there.
abbrev pub charge_key : ℕ → RateKind → Text → ℕ → Table RateWindows → Bool × Table RateWindows
charge_key limit kind key now m =
    if eqb limit 0
    then (true, m)
    else (let r = unwrap_or (m key) fresh_windows in
        let (allowed, w) = charge_window limit (window_ms kind) now (window_of kind r) in
        (allowed, put key (set_window kind w r) m))

unfoldable pub rate_allows :
    RateLimits → Text → RateKind → ℕ → Table RateWindows → Bool × Table RateWindows
rate_allows l agent kind now = charge_key (agent_limit l kind) kind agent now

unfoldable pub room_rate_allows :
    RateLimits → Text → RateKind → ℕ → Table RateWindows → Bool × Table RateWindows
room_rate_allows l room kind now = charge_key (room_limit l kind) kind room now

unfoldable pub http_rate_allows : ℕ → Text → ℕ → Table Window → Bool × Table Window
http_rate_allows limit ip now m =
    if eqb limit 0
    then (true, m)
    else (let (allowed, w) = take_one limit (roll minute now (unwrap_or (m ip) fresh)) in
        (allowed, put ip w m))

abbrev pub waitlist_max_per_min : ℕ
waitlist_max_per_min = 10

unfoldable pub waitlist_rate_allows : Text → ℕ → Table Window → Bool × Table Window
waitlist_rate_allows ip now m =
    let (allowed, w) = take_one waitlist_max_per_min (roll minute now (unwrap_or (m ip) fresh)) in
    (allowed, put ip w m)

-- The hub's four tables.
pub record Rates : Type 0 where
  pub rate : Table RateWindows
  pub room_rate : Table RateWindows
  pub http_rate : Table Window
  pub waitlist_rate : Table Window

abbrev pub is_recent : ℕ → ℕ → Window → Bool
is_recent span now w = ltb (now - w.start) span

abbrev pub keeps_agent : ℕ → RateWindows → Bool
keeps_agent now r =
    is_recent hour now r.operations || (is_recent hour now r.sends || is_recent hour now r.blobs)

abbrev pub keeps_room : ℕ → RateWindows → Bool
keeps_room now r = is_recent hour now r.sends || is_recent hour now r.blobs

unfoldable pub prune_rate_windows : ℕ → Rates → Rates
prune_rate_windows now s = record {
  rate = λ k. retained (keeps_agent now) (s.rate k);
  room_rate = λ k. retained (keeps_room now) (s.room_rate k);
  http_rate = λ k. retained (is_recent minute now) (s.http_rate k);
  waitlist_rate = λ k. retained (is_recent minute now) (s.waitlist_rate k);
}
