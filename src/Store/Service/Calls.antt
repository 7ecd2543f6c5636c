-- ===== src/Store/Service/Calls.antt =====
-- The calls of the workers of a hub in any interleaving, and the key of service_claims.
use parler_protocol.Prelude.{
  ℕ, Text, ◌≡◌, ap, subst, ◌⊎◌, inl, inr, Option, none, List, [], ◌∷◌, arith,
}
use parler_protocol.Protocol.TaskStatus.{TaskStatus}
use parler_protocol.Store.Tables.{Store, Codec}
use parler_protocol.Store.Service.{
  serve_role, lease_end, take_claim, claim_service_message, claimed, complete_service_message,
}
use parler_protocol.Store.Service.Leases.{IsKeyed, take-IsKeyed, complete-IsKeyed}

-- The calls of the workers of a hub, each at its time.
pub data Call : Type 0 where
  claims : Text → Text → Text → ℕ → Call
  completes : Text → Text → Text → TaskStatus → Call
  serves : Text → Text → Text → Call

unfoldable pub step : Codec → ℕ × Call → Store → Store
step codec (now, claims room message worker secs) s =
    (claim_service_message codec room message worker secs now s).1
step codec (now, completes room message worker status) s =
    (complete_service_message room message worker status now s).1
step codec (now, serves room agent role) s = serve_role room agent role now s

unfoldable pub run : Codec → List (ℕ × Call) → Store → Store
unfolding step
run codec [] s = s
run codec (c ∷ cs) s = run codec cs (step codec c s)

-- Either nothing changed, or the claim was taken.
pub claim_cases :
    (codec : Codec) (room message worker : Text) (secs now : ℕ) (s : Store)
    → (claim_service_message codec room message worker secs now s ≡ (none, s))
      ⊎ (claim_service_message codec room message worker secs now s
          ≡ claimed
              (lease_end secs now)
              (take_claim room message worker now (lease_end secs now) s))
unfolding claim_service_message
claim_cases codec room message worker secs now s = ground arith

pub claim-IsKeyed :
    (codec : Codec) (room message worker : Text) (secs now : ℕ) (s : Store)
    → IsKeyed s
    → IsKeyed (claim_service_message codec room message worker secs now s).1
claim-IsKeyed codec room message worker secs now s u =
    elim (claim_cases codec room message worker secs now s) [
      | inl e ↦ rw e u
      | inr e ↦ rw e (take-IsKeyed room message worker now (lease_end secs now) s u)
    ]

pub claim_then-IsKeyed :
    (codec : Codec) (room message worker : Text) (secs now : ℕ) (s t : Store) (o : Option ℕ)
    → IsKeyed s
    → claim_service_message codec room message worker secs now s ≡ (o, t)
    → IsKeyed t
claim_then-IsKeyed codec room message worker secs now s t o u h =
    subst IsKeyed (ap (λ (p : Option ℕ × Store). p.1) h)
      (claim-IsKeyed codec room message worker secs now s u)

-- No call of a worker puts two claims on one message.
pub step-IsKeyed : (codec : Codec) (c : ℕ × Call) (s : Store) → IsKeyed s → IsKeyed (step codec c s)
unfolding step
step-IsKeyed codec (t, claims room message x secs) s u =
    claim-IsKeyed codec room message x secs t s u
step-IsKeyed codec (t, completes room message x status) s u =
    complete-IsKeyed room message x status t s u
step-IsKeyed codec (t, serves room x role) s u = unfold serve_role in u

-- From a store with at most one claim per message, every sequence of claims, completions and
-- registrations, by anyone at any times, leads to such a store.
pub run-IsKeyed :
    (codec : Codec) (cs : List (ℕ × Call)) (s : Store) → IsKeyed s → IsKeyed (run codec cs s)
unfolding run
run-IsKeyed codec [] s u = u
run-IsKeyed codec (c ∷ cs) s u = run-IsKeyed codec cs (step codec c s) (step-IsKeyed codec c s u)
