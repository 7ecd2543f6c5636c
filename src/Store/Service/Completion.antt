-- ===== src/Store/Service/Completion.antt =====
-- complete_service_message: claims and completions that follow a completion.
use parler_protocol.Prelude.{
  ℕ, Text, ◌==◌, eq_iff, ◌≡◌, refl, sym, ap, ◌∙◌, inl, inr, Bool, true, false, ◌&&◌, Bool-cases,
  and_split, none, some, Option-cases, List, [], ◌∷◌, arith, Outcome, ok,
}
use parler_protocol.Protocol.TaskStatus.{TaskStatus, is_terminal, label, accepted}
use parler_protocol.Store.Tables.{Store, Error, Codec, ClaimRow}
use parler_protocol.Store.Service.{
  serve_role, active, lease_end, may_take, take_claim, claim_service_message, holds,
  complete_service_message,
}
use parler_protocol.Store.Service.Leases.{
  claim_of, IsKeyed, take_refused, claim_of-take_other, claim_of_complete, complete_refused,
  complete-IsKeyed, complete_reports, complete_unclaimed,
}
use parler_protocol.Store.Service.Calls.{
  Call, claims, completes, serves, step, run, claim_cases, run-IsKeyed,
}

-- The claim on the message has ended.
pub record IsDone (room message : Text) (s : Store) : Type 0 where
  pub row : ClaimRow
  pub found : claim_of room message s ≡ some row
  pub ended : (row.state == active) ≡ false

keep-IsDone :
    (r m : Text) (s t : Store) → claim_of r m t ≡ claim_of r m s → IsDone r m s → IsDone r m t
keep-IsDone r m s t e h = record { row = h.row; found = e ∙ h.found; ended = h.ended }

label-ne-active : (status : TaskStatus) → (label status == active) ≡ false
unfolding label ◌==◌
label-ne-active accepted = refl
label-ne-active _ = refl

no_take : (x : Text) (t : ℕ) (c : ClaimRow) → (c.state == active) ≡ false → may_take x t c ≡ false
unfolding may_take
no_take x t c e = ground (arith, e)

no_holds :
    (room message x : Text) (t : ℕ) (c : ClaimRow)
    → (c.state == active) ≡ false
    → holds room message x t c ≡ false
unfolding holds
no_holds room message x t c e = ground (arith, e)

IsDone-take :
    (r m room message x : Text) (t end : ℕ) (s : Store)
    → IsDone r m s
    → IsDone r m (take_claim room message x t end s).1
IsDone-take r m room message x t end s h = elim (Bool-cases ((r == room) && (m == message))) [
  | inr apart ↦ keep-IsDone r m s _ (claim_of-take_other room message x t end s r m apart) h
  | inl same ↦
      let (a, b) = and_split (r == room) (m == message) same in
      let p = (eq_iff r room).0 a in
      let q = (eq_iff m message).0 b in
      rw (← p, ← q, take_refused r m x t end s h.row h.found (no_take x t h.row h.ended)) h
]

IsDone-complete :
    (r m room message x : Text) (status : TaskStatus) (t : ℕ) (s : Store)
    → IsDone r m s
    → IsDone r m (complete_service_message room message x status t s).1
IsDone-complete r m room message x status t s h = elim (Bool-cases (is_terminal status)) [
  | inr n ↦ rw (complete_refused room message x status t s n) h
  | inl y ↦
      keep-IsDone r m s _
        (claim_of_complete room message x status t s r m h.row y h.found
          ∙ rw (no_holds room message x t h.row h.ended) (sym h.found))
        h
]

IsDone-step :
    (codec : Codec) (r m : Text) (c : ℕ × Call) (s : Store)
    → IsDone r m s
    → IsDone r m (step codec c s)
unfolding step
IsDone-step codec r m (t, claims room message x secs) s h =
    elim (claim_cases codec room message x secs t s) [
      | inl e ↦ rw (e, step) h
      | inr e ↦ rw (e, step) (IsDone-take r m room message x t (lease_end secs t) s h)
    ]
IsDone-step codec r m (t, completes room message x status) s h =
    IsDone-complete r m room message x status t s h
IsDone-step codec r m (t, serves room x role) s h =
    keep-IsDone r m s _ (unfold serve_role in refl) h

IsDone-run :
    (codec : Codec) (r m : Text) (cs : List (ℕ × Call)) (s : Store)
    → IsDone r m s
    → IsDone r m (run codec cs s)
unfolding run
IsDone-run codec r m [] s h = h
IsDone-run codec r m (c ∷ cs) s h =
    IsDone-run codec r m cs (step codec c s) (IsDone-step codec r m c s h)

-- A completion that reports success ends the claim.
complete-IsDone :
    (room message worker : Text) (status : TaskStatus) (now : ℕ) (s : Store)
    → IsKeyed s
    → (complete_service_message room message worker status now s).0 ≡ ok true
    → IsDone room message (complete_service_message room message worker status now s).1
complete-IsDone room message worker status now s u h = elim (Bool-cases (is_terminal status)) [
  | inr n ↦ cc (
    ap (λ (r : Outcome Error Bool × Store). r.0)
        (complete_refused room message worker status now s n),
    h,
  )
  | inl y ↦ elim (Option-cases (claim_of room message s)) [
    | inl e ↦ cc (complete_unclaimed room message worker status now s y e, h)
    | inr (c, e) ↦
        let held : holds room message worker now c ≡ true =
          ground (arith, complete_reports room message worker status now s c u y e, h) in
        record {
          row = record c { state = label status; lease_until = now };
          found = claim_of_complete room message worker status now s room message c y e ∙ rw held;
          ended = label-ne-active status;
        }
  ]
]

refused :
    (codec : Codec) (room message x : Text) (secs now : ℕ) (s : Store)
    → IsDone room message s
    → claim_service_message codec room message x secs now s ≡ (none, s)
refused codec room message x secs now s h = elim (claim_cases codec room message x secs now s) [
  | inl e ↦ e
  | inr e ↦ rw (
    e,
    take_refused room message x now (lease_end secs now) s h.row h.found
        (no_take x now h.row h.ended),
  )
]

not_again :
    (room message x : Text) (status : TaskStatus) (now : ℕ) (s : Store)
    → IsKeyed s
    → is_terminal status ≡ true
    → IsDone room message s
    → (complete_service_message room message x status now s).0 ≡ ok false
not_again room message x status now s u y h =
    complete_reports room message x status now s h.row u y h.found
    ∙ ap ok (no_holds room message x now h.row h.ended)

-- From a store with at most one claim per message: after a completion that reports success, and
-- any calls by anyone at any times, every further claim of the message is refused and changes
-- nothing, and every further completion with a terminal status reports failure.
pub complete_final :
    (codec : Codec) (room message worker x : Text) (status status' : TaskStatus) (now now' secs : ℕ)
    (s : Store) (cs : List (ℕ × Call))
    → IsKeyed s
    → (complete_service_message room message worker status now s).0 ≡ ok true
    → is_terminal status' ≡ true
    → let t = run codec cs (complete_service_message room message worker status now s).1 in
      (claim_service_message codec room message x secs now' t ≡ (none, t))
      × ((complete_service_message room message x status' now' t).0 ≡ ok false)
complete_final codec room message worker x status status' now now' secs s cs u h terminal =
    let t = (complete_service_message room message worker status now s).1 in
    let over =
      IsDone-run codec room message cs t (complete-IsDone room message worker status now s u h) in
    let keyed = run-IsKeyed codec cs t (complete-IsKeyed room message worker status now s u) in
    (
      refused codec room message x secs now' (run codec cs t) over,
      not_again room message x status' now' (run codec cs t) keyed terminal over,
    )
