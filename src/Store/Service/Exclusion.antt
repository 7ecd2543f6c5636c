-- ===== src/Store/Service/Exclusion.antt =====
-- The lease as a lock, and completion as the end: every interleaving of calls.
use parler_protocol.Prelude.{
  ℕ, ◌≤◌, ◌<◌, Text, ◌==◌, eq_iff, Text-cases, ◌≡◌, refl, sym, ap, ◌∙◌, subst, ◌≢◌, inl, inr, true,
  false, ◌&&◌, Bool-cases, and_split, Option, none, some, List, [], ◌∷◌, arith, find_sound, All, ok,
}
use parler_protocol.Protocol.TaskStatus.{TaskStatus, is_terminal}
use parler_protocol.Store.Tables.{Store, Codec, ClaimRow, claim_key}
use parler_protocol.Store.Service.{
  serve_role, active, lease_end, may_take, take_claim, claim_service_message, claimed, holds,
  complete_service_message,
}
use parler_protocol.Store.Service.Calls.{
  Call, claims, completes, serves, step, run, claim_cases, claim_then-IsKeyed, run-IsKeyed,
}
use parler_protocol.Store.Service.Leases.{
  claim_of, IsKeyed, take_refused, claim_of-take_other, claim_of-take_won, claim_of_complete,
  complete_refused, complete_reports,
}

-- The worker holds a live claim on the message, until at least `until`.
pub record IsHeld (room message worker : Text) (until : ℕ) (s : Store) : Type 0 where
  pub row : ClaimRow
  pub found : claim_of room message s ≡ some row
  pub by_worker : row.worker ≡ worker
  pub is_active : row.state ≡ active
  pub lasts : until ≤ row.lease_until

-- A call that cannot take the claim from `w` before `until`: a claim or completion by someone else,
-- the claim made in time.
abbrev pub IsRival : Text → ℕ → ℕ × Call → Type 0
IsRival w until (t, claims room message x secs) = (t < until) × (x ≢ w)
IsRival w until (t, completes room message x status) = x ≢ w
IsRival w until (t, serves room x role) = Unit {0}

cannot_take :
    (r m w x : Text) (until t : ℕ) (s : Store)
    → (h : IsHeld r m w until s) → t < until
    → x ≢ w
    → may_take x t h.row ≡ false
unfolding may_take
cannot_take r m w x until t s h early other =
    let not_own : (h.row.worker == x) ≡ false = elim (Text-cases h.row.worker x) [
      | inl e ↦ absurd (other (sym e ∙ h.by_worker))
      | inr e ↦ e
    ] in
    ground (arith, not_own, h.lasts)

keep-IsHeld :
    (r m w : Text) (until : ℕ) (s t : Store)
    → claim_of r m t ≡ claim_of r m s
    → IsHeld r m w until s
    → IsHeld r m w until t
keep-IsHeld r m w until s t e h = record {
  row = h.row;
  found = e ∙ h.found;
  by_worker = h.by_worker;
  is_active = h.is_active;
  lasts = h.lasts;
}

IsHeld-take :
    (r m w room message x : Text) (until t end : ℕ) (s : Store)
    → IsHeld r m w until s
    → t < until
    → x ≢ w
    → IsHeld r m w until (take_claim room message x t end s).1
IsHeld-take r m w room message x until t end s h early other =
    elim (Bool-cases ((r == room) && (m == message))) [
      | inr apart ↦
          keep-IsHeld r m w until s _ (claim_of-take_other room message x t end s r m apart) h
      | inl same ↦
          let (a, b) = and_split (r == room) (m == message) same in
          let p = (eq_iff r room).0 a in
          let q = (eq_iff m message).0 b in
          rw
            (
              ← p,
              ← q,
              take_refused r m x t end s h.row h.found
                  (cannot_take r m w x until t s h early other),
            )
            h
    ]

not_mine :
    (w room message x : Text) (t : ℕ) (c : ClaimRow)
    → c.worker ≡ w
    → x ≢ w
    → holds room message x t c ≡ false
unfolding holds
not_mine w room message x t c e other = elim (Text-cases c.worker x) [
  | inl own ↦ absurd (other (sym own ∙ e))
  | inr no_own ↦ ground (arith, no_own)
]

IsHeld-complete :
    (r m w room message x : Text) (until t : ℕ) (status : TaskStatus) (s : Store)
    → IsHeld r m w until s
    → x ≢ w
    → IsHeld r m w until (complete_service_message room message x status t s).1
IsHeld-complete r m w room message x until t status s h other =
    elim (Bool-cases (is_terminal status)) [
      | inr n ↦ rw (complete_refused room message x status t s n) h
      | inl y ↦
          keep-IsHeld r m w until s _
            (claim_of_complete room message x status t s r m h.row y h.found
              ∙ rw (not_mine w room message x t h.row h.by_worker other) (sym h.found))
            h
    ]

IsHeld-step :
    (codec : Codec) (r m w : Text) (until : ℕ) (s : Store) (c : ℕ × Call)
    → IsRival w until c
    → IsHeld r m w until s
    → IsHeld r m w until (step codec c s)
unfolding step
IsHeld-step codec r m w until s (t, claims room message x secs) (early, other) h =
    elim (claim_cases codec room message x secs t s) [
      | inl e ↦ rw (e, step) h
      | inr e ↦
          rw (e, step) (IsHeld-take r m w room message x until t (lease_end secs t) s h early other)
    ]
IsHeld-step codec r m w until s (t, completes room message x status) other h =
    IsHeld-complete r m w room message x until t status s h other
IsHeld-step codec r m w until s (t, serves room x role) _ h =
    keep-IsHeld r m w until s _ (unfold serve_role in refl) h

IsHeld-run :
    (codec : Codec) (r m w : Text) (until : ℕ) (cs : List (ℕ × Call)) (s : Store)
    → All (IsRival w until) cs
    → IsHeld r m w until s
    → IsHeld r m w until (run codec cs s)
unfolding run
IsHeld-run codec r m w until [] s a h = h
IsHeld-run codec r m w until (c ∷ cs) s a h =
    IsHeld-run codec r m w until cs (step codec c s) a.1 (IsHeld-step codec r m w until s c a.0 h)

-- A claim that succeeds is held under the lease that it returns.
pub claim-IsHeld :
    (codec : Codec) (room message worker : Text) (secs now until : ℕ) (s t : Store)
    → claim_service_message codec room message worker secs now s ≡ (some until, t)
    → IsHeld room message worker until t
claim-IsHeld codec room message worker secs now until s t h =
    elim (claim_cases codec room message worker secs now s) [
      | inl e ↦ cc (ap (λ (p : Option ℕ × Store). p.0) (sym e ∙ h))
      | inr e ↦
          let both : claimed (lease_end secs now)
                (take_claim room message worker now (lease_end secs now) s)
              ≡ (some until, t) =
            sym e ∙ h in
          let won : (take_claim room message worker now (lease_end secs now) s).0 ≡ true =
            ground (arith, ap (λ (p : Option ℕ × Store). p.0) both) in
          let ends : lease_end secs now ≡ until =
            ground (arith, ap (λ (p : Option ℕ × Store). p.0) both, won) in
          let after : (take_claim room message worker now (lease_end secs now) s).1 ≡ t =
            ap (λ (p : Option ℕ × Store). p.1) both in
          let (c, found, w, a, l) =
            claim_of-take_won room message worker now (lease_end secs now) s won in
          record {
            row = c;
            found = subst (λ (x : Store). claim_of room message x ≡ some c) after found;
            by_worker = w;
            is_active = a;
            lasts = omega (arith, l, ends);
          }
    ]

-- Mutual exclusion. Once a claim has succeeded, no claim of another worker at a time before the
-- returned lease end succeeds, whatever claims before that end, completions and registrations the
-- other workers have made in between.
pub claim_exclusive :
    (codec : Codec) (room message w x : Text) (secs secs' now now' until : ℕ) (s t : Store)
    (cs : List (ℕ × Call))
    → claim_service_message codec room message w secs now s ≡ (some until, t)
    → All (IsRival w until) cs
    → x ≢ w
    → now' < until
    → claim_service_message codec room message x secs' now' (run codec cs t)
      ≡ (none, run codec cs t)
claim_exclusive codec room message w x secs secs' now now' until s t cs h a other early =
    let u = run codec cs t in
    let held =
      IsHeld-run codec room message w until cs t a
        (claim-IsHeld codec room message w secs now until s t h) in
    elim (claim_cases codec room message x secs' now' u) [
      | inl e ↦ e
      | inr e ↦ rw (
        e,
        take_refused room message x now' (lease_end secs' now') u held.row held.found
            (cannot_take room message w x until now' u held early other),
      )
    ]

mine :
    (room message w : Text) (until now' : ℕ) (c : ClaimRow)
    → claim_key room message c ≡ true
    → c.worker ≡ w
    → c.state ≡ active
    → until ≤ c.lease_until
    → now' ≤ until
    → holds room message w now' c ≡ true
unfolding holds
mine room message w until now' c k e f l intime =
    ground (arith, k, (eq_iff c.worker w).1 e, (eq_iff c.state active).1 f, l)

-- From a store with at most one claim per message: after a claim has succeeded, and after such
-- calls of the other workers, a completion by its holder with a terminal status, not later than
-- the lease end, reports success.
pub complete_succeeds :
    (codec : Codec) (room message w : Text) (secs now now' until : ℕ) (status : TaskStatus)
    (s t : Store) (cs : List (ℕ × Call))
    → IsKeyed s
    → claim_service_message codec room message w secs now s ≡ (some until, t)
    → All (IsRival w until) cs
    → is_terminal status ≡ true
    → now' ≤ until
    → (complete_service_message room message w status now' (run codec cs t)).0 ≡ ok true
complete_succeeds codec room message w secs now now' until status s t cs u h a terminal intime =
    let held =
      IsHeld-run codec room message w until cs t a
        (claim-IsHeld codec room message w secs now until s t h) in
    let keyed =
      run-IsKeyed codec cs t
        (claim_then-IsKeyed codec room message w secs now s t (some until) u h) in
    complete_reports room message w status now' (run codec cs t) held.row keyed terminal held.found
    ∙ ap ok (
        mine room message w until now' held.row (find_sound (claim_key room message) _ held.found)
          held.by_worker held.is_active held.lasts intime)
