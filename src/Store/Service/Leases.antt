-- ===== src/Store/Service/Leases.antt =====
-- The claim of one message, and what each operation does to it.
use parler_protocol.Prelude.{
  ℕ, ◌≤◌, Text, ◌==◌, eq_iff, eq_refl, ◌≡◌, refl, ap, ◌⊎◌, inl, inr, Bool, true, false, ◌&&◌,
  Bool-cases, and_split, Option, none, some, Option-cases, keys_apart, Text-eq_symm, [], ◌∷◌, ◌++◌,
  arith, if◌then◌else◌, find-update_key, find-update_key_none, count-update, count-append,
  count-none, count_sub, count_unique, find-append, find_new, any-find, find-update_self,
  find-update_other, update, find, count, ok, err,
}
use parler_protocol.Protocol.TaskStatus.{TaskStatus, is_terminal, label}
use parler_protocol.Store.Tables.{Store, not_terminal, ClaimRow, claim_key}
use parler_protocol.Store.Service.{active, may_take, take_claim, holds, complete_service_message}

-- The claim on a message, if there is one.
abbrev pub claim_of : Text → Text → Store → Option ClaimRow
claim_of room message s = find (claim_key room message) s.service_claims

-- (room, message) is the primary key of `service_claims`.
abbrev pub IsKeyed : Store → Type 0
IsKeyed s = (room message : Text) → count (claim_key room message) s.service_claims ≤ 1

-- What a new claim writes.
abbrev pub taken : Text → Text → Text → ℕ → ℕ → ClaimRow
taken room message worker now until = record {
  room = room;
  message = message;
  worker = worker;
  state = active;
  claimed = now;
  lease_until = until;
}

abbrev pub retaken : Text → ℕ → ℕ → ClaimRow → ClaimRow
retaken worker now until d = record d {
  worker = worker;
  state = active;
  claimed = now;
  lease_until = until;
}

module _ (room message worker : Text) (now until : ℕ) (s : Store) where
  pub take_new :
      claim_of room message s ≡ none
      → take_claim room message worker now until s ≡ (
        true,
        record s { service_claims = s.service_claims ++ taken room message worker now until ∷ [] },
      )
  unfolding take_claim
  take_new e = rw (e, take_claim)

  pub take_over :
      (c : ClaimRow)
      → claim_of room message s ≡ some c
      → may_take worker now c ≡ true
      → take_claim room message worker now until s ≡ (
        true,
        record s {
          service_claims =
              update (claim_key room message) (retaken worker now until) s.service_claims;
        },
      )
  unfolding take_claim
  take_over c e f = rw (e, f, take_claim)

  pub take_refused :
      (c : ClaimRow)
      → claim_of room message s ≡ some c
      → may_take worker now c ≡ false
      → take_claim room message worker now until s ≡ (false, s)
  unfolding take_claim
  take_refused c e f = rw (e, f, take_claim)

  key_self : claim_key room message (taken room message worker now until) ≡ true
  key_self = ground (arith, eq_refl room, eq_refl message)

  -- The three ways that a claim goes.
  pub take_cases :
      (claim_of room message s ≡ none)
      ⊎ ((c : ClaimRow) × (claim_of room message s ≡ some c) × (may_take worker now c ≡ true))
      ⊎ ((c : ClaimRow) × (claim_of room message s ≡ some c) × (may_take worker now c ≡ false))
  take_cases = elim (Option-cases (claim_of room message s)) [
    | inl e ↦ inl e
    | inr (c, e) ↦ elim (Bool-cases (may_take worker now c)) [
      | inl y ↦ inr (inl (c, e, y))
      | inr n ↦ inr (inr (c, e, n))
    ]
  ]

  -- A claim on one message leaves the claims on the others.
  pub claim_of-take_other :
      (r m : Text)
      → ((r == room) && (m == message)) ≡ false
      → claim_of r m (take_claim room message worker now until s).1 ≡ claim_of r m s
  claim_of-take_other r m apart = elim take_cases [
    | inl e ↦ rw (take_new e) (
        unfold find in
        ground (
          arith,
          find-append (claim_key r m) s.service_claims (taken room message worker now until ∷ []),
          any-find (claim_key r m) s.service_claims,
          Text-eq_symm r room,
          Text-eq_symm m message,
        ))
    | inr (inl (c, e, y)) ↦ rw (take_over c e y) (
        find-update_other (claim_key room message) (claim_key r m) _
          (λ x k.
            let other = keys_apart r m room message x.room x.message apart k in (other, other))
          s.service_claims)
    | inr (inr (c, e, n)) ↦ rw (take_refused c e n)
  ]

  -- A claim that succeeds leaves the row of the worker, under the new lease.
  pub claim_of-take_won :
      (take_claim room message worker now until s).0 ≡ true
      → (c : ClaimRow) × (claim_of room message (take_claim room message worker now until s).1
          ≡ some c)
        × (c.worker ≡ worker)
        × (c.state ≡ active)
        × (c.lease_until ≡ until)
  claim_of-take_won won = elim take_cases [
    | inl e ↦ (
      taken room message worker now until,
      rw (take_new e) (find_new (claim_key room message) s.service_claims _ e key_self),
      refl,
      refl,
      refl,
    )
    | inr (inl (c, e, y)) ↦ (
      record c { worker = worker; state = active; claimed = now; lease_until = until },
      rw (take_over c e y)
          (find-update_self (claim_key room message) _ (λ x. refl) s.service_claims c e),
      refl,
      refl,
      refl,
    )
    | inr (inr (c, e, n)) ↦ cc (ap (λ (r : Bool × Store). r.0) (take_refused c e n), won)
  ]

  -- The primary key stays unique.
  one_more :
      (r m : Text)
      → IsKeyed s
      → claim_of room message s ≡ none
      → count (claim_key r m) (s.service_claims ++ taken room message worker now until ∷ []) ≤ 1
  unfolding count
  one_more r m u e =
      let total =
        count-append (claim_key r m) s.service_claims (taken room message worker now until ∷ []) in
      elim (Bool-cases ((room == r) && (message == m))) [
        | inr apart ↦ ground (arith, total, u r m)
        | inl same ↦
            let (x, y) = and_split (room == r) (message == m) same in
            let p = (eq_iff room r).0 x in
            let q = (eq_iff message m).0 y in
            let zero_rows : count (claim_key r m) s.service_claims ≡ 0 =
              rw (← p, ← q) (count-none (claim_key room message) s.service_claims e) in
            ground (arith, total, zero_rows)
      ]

  pub take-IsKeyed : IsKeyed s → IsKeyed (take_claim room message worker now until s).1
  take-IsKeyed u r m = elim take_cases [
    | inl e ↦ rw (take_new e) (one_more r m u e)
    | inr (inl (c, e, y)) ↦ rw (take_over c e y) (
        rw
          (count-update (claim_key room message) (claim_key r m) (retaken worker now until)
            (λ x _. refl) s.service_claims)
          (u r m))
    | inr (inr (c, e, n)) ↦ rw (take_refused c e n) (u r m)
  ]

module _ (room message worker : Text) (status : TaskStatus) (now : ℕ) (s : Store) where
  abbrev pub finished : ClaimRow → ClaimRow
  finished c = record c { state = label status; lease_until = now }

  -- What a completion does to the claim on any message.
  pub claim_of_complete :
      (r m : Text) (c : ClaimRow)
      → is_terminal status ≡ true
      → claim_of r m s ≡ some c
      → claim_of r m (complete_service_message room message worker status now s).1
        ≡ some (if holds room message worker now c then finished c else c)
  unfolding complete_service_message
  claim_of_complete r m c t e =
      rw (t, complete_service_message)
        (find-update_key (holds room message worker now) (claim_key r m) finished (λ x _. refl)
          s.service_claims c e)

  pub claim_of-complete_none :
      (r m : Text)
      → claim_of r m s ≡ none
      → claim_of r m (complete_service_message room message worker status now s).1 ≡ none
  unfolding complete_service_message
  claim_of-complete_none r m e = elim (Bool-cases (is_terminal status)) [
    | inl t ↦
        rw (t, complete_service_message)
          (find-update_key_none (holds room message worker now) (claim_key r m) finished
            (λ x _. refl) s.service_claims e)
    | inr t ↦ rw (t, complete_service_message) e
  ]

  -- A status that is not terminal is refused.
  pub complete_refused :
      is_terminal status ≡ false
      → complete_service_message room message worker status now s ≡ (err not_terminal, s)
  unfolding complete_service_message
  complete_refused t = rw (t, complete_service_message)

  pub complete-IsKeyed :
      IsKeyed s → IsKeyed (complete_service_message room message worker status now s).1
  unfolding complete_service_message
  complete-IsKeyed u r m = elim (Bool-cases (is_terminal status)) [
    | inl t ↦
        rw
          (
            t,
            complete_service_message,
            count-update (holds room message worker now) (claim_key r m) finished (λ x _. refl)
                s.service_claims,
          )
          (u r m)
    | inr t ↦ rw (t, complete_service_message) (u r m)
  ]

  holds_key :
      (x : ClaimRow) → holds room message worker now x ≡ true → claim_key room message x ≡ true
  unfolding holds
  holds_key x h = (and_split (claim_key room message x) _ h).0

  -- A completion reports success exactly when it finds the worker's own live lease.
  pub complete_reports :
      (c : ClaimRow)
      → IsKeyed s
      → is_terminal status ≡ true
      → claim_of room message s ≡ some c
      → (complete_service_message room message worker status now s).0
        ≡ ok (holds room message worker now c)
  unfolding complete_service_message
  complete_reports c u t e =
      rw (t, complete_service_message)
        (ground (
          arith,
          count_unique (claim_key room message) (holds room message worker now) holds_key
              s.service_claims c (u room message) e,
        ))

  pub complete_unclaimed :
      is_terminal status ≡ true
      → claim_of room message s ≡ none
      → (complete_service_message room message worker status now s).0 ≡ ok false
  unfolding complete_service_message
  complete_unclaimed t e =
      rw (t, complete_service_message)
        (ground (
          arith,
          count-none (claim_key room message) s.service_claims e,
          count_sub (claim_key room message) (holds room message worker now) holds_key
              s.service_claims,
        ))
