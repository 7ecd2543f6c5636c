-- ===== src/Examples/Service.antt =====
-- The work queue: claims and completions on the sample room.
use parler_protocol.Prelude.{
  ℕ, ◌==◌, eq_iff, to_ascii_lowercase, eq_ignore_ascii_case, ◌≡◌, refl, ◌≢◌, true, false, none,
  some, List, [], ◌∷◌, arith, find, any, count, All, ok,
}
use parler_protocol.Examples.{codec, den, bob, cat, note, hub}
use parler_protocol.Protocol.Parts.{dispatches, dispatch_of_part, dispatch_to_part, get}
use parler_protocol.Protocol.TaskStatus.{done, failed, is_terminal}
use parler_protocol.Store.Tables.{is_fresh}
use parler_protocol.Protocol.TaskStatus.{is_terminal, done, failed}
use parler_protocol.Protocol.Parts.{dispatches}
use parler_protocol.Store.Tables.{Store, is_fresh}
use parler_protocol.Store.Service.{
  is_available, owns_live_claim, addresses, is_dispatched, lease_end, take_claim,
  claim_service_message, complete_service_message,
}
use parler_protocol.Store.Service.Leases.{IsKeyed}
use parler_protocol.Store.Service.Calls.{Call, claim_then-IsKeyed, claims, completes, run}
use parler_protocol.Store.Service.Exclusion.{IsRival, claim_exclusive, complete_succeeds}
use parler_protocol.Store.Service.Completion.{complete_final}

hub-IsKeyed : IsKeyed hub
unfolding count
hub-IsKeyed room message = omega arith

-- Bob claims the first message at 10 for a minute; Cat tries at 20 and at 30.
abbrev after_claim : Store
after_claim = (claim_service_message codec den note bob 60 10 hub).1

abbrev cats_calls : List (ℕ × Call)
cats_calls = (20, claims den note cat 60) ∷ (25, completes den note cat done) ∷ []

claimed_ok : claim_service_message codec den note bob 60 10 hub ≡ (some 60010, after_claim)
unfolding claim_service_message find ◌==◌ owns_live_claim is_available is_dispatched any take_claim
    lease_end is_fresh addresses dispatches dispatch_of_part dispatch_to_part get
    eq_ignore_ascii_case to_ascii_lowercase
claimed_ok = refl

cat_is_not_bob : cat ≢ bob
unfolding ◌==◌
cat_is_not_bob e = ground (arith, (eq_iff cat bob).1 e)

rivals : All (IsRival bob 60010) cats_calls
rivals = ((omega arith, cat_is_not_bob), (cat_is_not_bob, tt))

claim_exclusive_example :
    claim_service_message codec den note cat 60 30 (run codec cats_calls after_claim)
    ≡ (none, run codec cats_calls after_claim)
claim_exclusive_example =
    claim_exclusive codec den note bob cat 60 60 10 30 60010 hub after_claim cats_calls claimed_ok
      rivals cat_is_not_bob (omega arith)

complete_succeeds_example :
    (complete_service_message den note bob done 50 (run codec cats_calls after_claim)).0 ≡ ok true
complete_succeeds_example =
    complete_succeeds codec den note bob 60 10 50 60010 done hub after_claim cats_calls hub-IsKeyed
      claimed_ok rivals (unfold is_terminal in refl) (omega arith)

after_claim-IsKeyed : IsKeyed after_claim
after_claim-IsKeyed =
    claim_then-IsKeyed codec den note bob 60 10 hub after_claim (some 60010) hub-IsKeyed claimed_ok

completed_ok : (complete_service_message den note bob done 50 after_claim).0 ≡ ok true
unfolding run
completed_ok =
    complete_succeeds codec den note bob 60 10 50 60010 done hub after_claim [] hub-IsKeyed
      claimed_ok tt (unfold is_terminal in refl) (omega arith)

complete_final_example :
    (claim_service_message codec den note cat 60 70000
        (run codec cats_calls (complete_service_message den note bob done 50 after_claim).1)
      ≡ (none, run codec cats_calls (complete_service_message den note bob done 50 after_claim).1))
    × ((complete_service_message den note cat failed 70000
          (run codec cats_calls (complete_service_message den note bob done 50 after_claim).1)).0
        ≡ ok false)
complete_final_example =
    complete_final codec den note bob cat done failed 50 70000 60 after_claim cats_calls
      after_claim-IsKeyed completed_ok (unfold is_terminal in refl)
