-- ===== src/Store/Service.antt =====
-- crates/parler-hub/src/store.rs: the role queue of service rooms, with its leases.
pub mod Leases
pub mod Calls
pub mod Exclusion
pub mod Completion
use parler_protocol.Prelude.{
  ℕ, zero, suc, ◌+◌, ◌-◌, ◌*◌, ◌/◌, ◌%◌, ◌^◌, ◌≤◌, ◌<◌, min, max, Text, codes, ◌==◌, eq_iff,
  eq_refl, Text-cases, trim, to_ascii_lowercase, eq_ignore_ascii_case, ◌≡◌, refl, sym, ap, ◌∙◌,
  subst, ◌≢◌, ◌↔◌, ◌⊎◌, inl, inr, Bool, true, false, not, ◌&&◌, ◌||◌, Bool-cases, and_split, Option,
  none, some, Option-cases, unwrap_or, is_some, is_none, is_some_and, keys_apart, Text-eq_symm,
  List, [], ◌∷◌, ◌++◌, map, append_assoc, append-nil, arith, ltb, leb, eqb, if◌then◌else◌, length,
  take, drop, select-append, take_add, take_nil, length-append, find-append, any-append, any-find,
  find-update-none, any-update, find-update_self, find-update_other, All-append, All-delete,
  All_mono, select, delete, update, find, any, count, insert_or_ignore, upsert, All, Outcome, ok,
  err,
}
use parler_protocol.Protocol.TaskStatus.{TaskStatus, is_terminal, label}
use parler_protocol.Protocol.Parts.{Part, DispatchRef, dispatches}
use parler_protocol.Store.Tables.{
  Store, Error, not_terminal, Codec, WorkerRow, ClaimRow, DispatchRow, PresenceRow, MessageRow,
  worker_key, claim_key, is_fresh,
}
use parler_protocol.Store.Messages.{StoredMessage, read_all, to_stored}

abbrev pub i64_max : ℕ
i64_max = 2 ^ 63 - 1

unfoldable pub serve_role : Text → Text → Text → ℕ → Store → Store
serve_role room agent role now s = record s {
  service_workers =
      upsert (worker_key room agent)
        (record { room = room; agent = agent; role = role; registered = now })
        (λ w. record w { role = role; registered = now }) s.service_workers;
}

abbrev pub active : Text
active = codes "active"

-- Fresh presence that says `idle` or `waiting`.
unfoldable pub is_available : Text → ℕ → Store → Bool
unfolding is_fresh
is_available worker now s =
    is_some_and (find (λ (p : PresenceRow). p.agent == worker) s.presence)
      λ p. ((p.status == codes "idle") || (p.status == codes "waiting")) && is_fresh now p.ts

unfoldable pub owns_live_claim : Text → Text → Text → ℕ → Store → Bool
owns_live_claim room message worker now s =
    any
      (λ (c : ClaimRow).
        claim_key room message c
        && ((c.worker == worker) && ((c.state == active) && ltb now c.lease_until)))
      s.service_claims

-- Whether the stored parts hold a dispatch to the role.
unfoldable pub addresses : Text → List DispatchRef → Bool
addresses role = any (λ (d : DispatchRef). eq_ignore_ascii_case d.role role)

unfoldable pub is_dispatched : Codec → Text → Text → Text → Store → Bool
unfolding addresses
is_dispatched codec room message role s =
    elim (find (λ (m : MessageRow). (m.room == room) && (m.id == message)) s.messages) [
      | none ↦ false
      | some m ↦ is_some_and (codec.decode m.parts) (λ parts. addresses role (dispatches parts))
    ]

-- `lease_secs` stays below 2^63, so its cast to i64 keeps it.
unfoldable pub lease_end : ℕ → ℕ → ℕ
lease_end lease_secs now = min i64_max (now + min i64_max (lease_secs * 1000))

-- The WHERE of the upsert: the lease is the worker's own, or has run out.
unfoldable pub may_take : Text → ℕ → ClaimRow → Bool
may_take worker now c = (c.state == active) && ((c.worker == worker) || leb c.lease_until now)

-- The INSERT … ON CONFLICT … WHERE, and whether it changed a row.
unfoldable pub take_claim : Text → Text → Text → ℕ → ℕ → Store → Bool × Store
unfolding may_take
take_claim room message worker now until s = elim (find (claim_key room message) s.service_claims) [
  | none ↦ (
    true,
    record s {
      service_claims =
          s.service_claims
          ++ record {
            room = room;
            message = message;
            worker = worker;
            state = active;
            claimed = now;
            lease_until = until;
          }
            ∷ [];
    },
  )
  | some c ↦
      if may_take worker now c
      then (
        true,
        record s {
          service_claims =
              update (claim_key room message)
                (λ d. record d {
                  worker = worker;
                  state = active;
                  claimed = now;
                  lease_until = until;
                })
                s.service_claims;
        },
      )
      else (false, s)
]

-- `(changed == 1).then_some(lease_until)`.
abbrev pub claimed : ℕ → Bool × Store → Option ℕ × Store
claimed until r = (if r.0 then some until else none, r.1)

unfoldable pub claim_service_message : Codec → Text → Text → Text → ℕ → ℕ → Store → Option ℕ × Store
claim_service_message codec room message worker lease_secs now s =
    elim (find (worker_key room worker) s.service_workers) [
      | none ↦ (none, s)
      | some w ↦
          if (owns_live_claim room message worker now s || is_available worker now s)
            && is_dispatched codec room message w.role s
          then claimed (lease_end lease_secs now)
              (take_claim room message worker now (lease_end lease_secs now) s)
          else (none, s)
    ]

-- Never claimed, or claimed under a lease that has run out: `c` is the LEFT JOIN.
unfoldable pub is_open : ℕ → Option ClaimRow → Bool
is_open now none = true
is_open now (some c) = (c.state == active) && leb c.lease_until now

-- The joined rows, in the order of `d.seq`, which is that of the table.
unfoldable pub queue_rows : Text → Text → ℕ → Store → List DispatchRow → List MessageRow
unfolding is_open
queue_rows room role now s [] = []
queue_rows room role now s (d ∷ ds) =
    let rest = queue_rows room role now s ds in
    elim (find (λ (m : MessageRow). (m.id == d.message) && (m.room == d.room)) s.messages) [
      | none ↦ rest
      | some m ↦
          if (d.room == room)
            && (eq_ignore_ascii_case d.role role
                && is_open now (find (claim_key d.room d.message) s.service_claims))
          then m ∷ rest
          else rest
    ]

unfoldable pub queued_service_messages :
    Codec → Text → Text → Text → Option ℕ → ℕ → Store → Outcome Error (List StoredMessage)
unfolding queue_rows
queued_service_messages codec room worker role limit now s =
    if is_some_and (find (worker_key room worker) s.service_workers)
        (λ w. eq_ignore_ascii_case w.role role)
      && is_available worker now s
    then read_all codec
        (take (min (unwrap_or limit 50) 200) (queue_rows room role now s s.service_dispatches))
    else ok []

-- The WHERE of the completion: the worker's own live lease.
unfoldable pub holds : Text → Text → Text → ℕ → ClaimRow → Bool
holds room message worker now c =
    claim_key room message c
    && ((c.worker == worker) && ((c.state == active) && leb now c.lease_until))

unfoldable pub complete_service_message :
    Text → Text → Text → TaskStatus → ℕ → Store → Outcome Error Bool × Store
unfolding holds
complete_service_message room message worker status now s =
    if is_terminal status
    then (
      ok (eqb (count (holds room message worker now) s.service_claims) 1),
      record s {
        service_claims =
            update (holds room message worker now)
              (λ c. record c { state = label status; lease_until = now }) s.service_claims;
      },
    )
    else (err not_terminal, s)
