-- ===== src/Server/Sending/Pushing.antt =====
-- crates/parler-hub/src/server.rs, `fanout`: which connections a message is handed to.
use parler_protocol.Prelude.{
  ℕ, Text, ◌==◌, eq_iff, eq_refl, ◌≡◌, refl, sym, ◌∙◌, not, List, [], ◌∷◌, ◌++◌, map, select,
  append_assoc, append-nil, if◌then◌else◌, arith, Bool-cases, Option-cases, inl, inr, unwrap_or,
}
use parler_protocol.Store.Messages.{StoredMessage}
use parler_protocol.Store.Rooms.{room_member_ids}
use parler_protocol.Server.Windows.{Table}
use parler_protocol.Server.State.{Push, Draw, Hub}
use parler_protocol.Server.Sending.{is_sent, is_closed, push_member, push_members, fanout}

-- The connections, with the message, that one member is reached at.
abbrev pub reached : Draw → Text → StoredMessage → Table (List ℕ) → Text → List (ℕ × StoredMessage)
reached d author msg subs member =
    if member == author
    then []
    else map (λ c. (c, msg)) (select (λ c. is_sent (d.channel c)) (unwrap_or (subs member) []))

-- Those of the members in turn.
abbrev pub deliveries :
    Draw → Text → StoredMessage → Table (List ℕ) → List Text → List (ℕ × StoredMessage)
deliveries d author msg subs [] = []
deliveries d author msg subs (m ∷ ms) =
    reached d author msg subs m ++ deliveries d author msg subs ms

-- A connection that was closed is not one that is sent to.
select-open :
    (channel : ℕ → Push) (conns : List ℕ)
    → select (λ c. is_sent (channel c)) (select (λ c. not (is_closed (channel c))) conns)
      ≡ select (λ c. is_sent (channel c)) conns
unfolding select
select-open channel [] = refl
select-open channel (c ∷ cs) = by (channel c) refl (select-open channel cs)
  where
    by :
        (p : Push)
        → channel c ≡ p
        → select (λ x. is_sent (channel x)) (select (λ x. not (is_closed (channel x))) cs)
          ≡ select (λ x. is_sent (channel x)) cs
        → select (λ x. is_sent (channel x)) (select (λ x. not (is_closed (channel x))) (c ∷ cs))
          ≡ select (λ x. is_sent (channel x)) (c ∷ cs)
    by Push.sent e again = ground (arith, e, again)
    by Push.full e again = ground (arith, e, again)
    by Push.closed e again = ground (arith, e, again)

module _ (d : Draw) (author : Text) (msg : StoredMessage) where
  reached-push_member :
      (member other : Text) (h : Hub)
      → reached d author msg (push_member d author msg member h).subscribers other
        ≡ reached d author msg h.subscribers other
  unfolding push_member select
  reached-push_member member other h = elim (Bool-cases (member == author)) [
    | inl own ↦ rw (own) refl
    | inr stranger ↦ elim (Option-cases (h.subscribers member)) [
      | inl quiet ↦ rw (stranger, quiet) refl
      | inr (conns, has) ↦ elim (Bool-cases (other == member)) [
        | inr apart ↦ rw (stranger, has, apart) refl
        | inl same ↦
            rw
              (
                (eq_iff other member).0 same,
                stranger,
                has,
                eq_refl member,
                select-open d.channel conns,
              )
              refl
      ]
    ]
  ]

  pushed-push_member :
      (member : Text) (h : Hub)
      → (push_member d author msg member h).pushed
        ≡ h.pushed ++ reached d author msg h.subscribers member
  unfolding push_member select
  pushed-push_member member h = elim (Bool-cases (member == author)) [
    | inl own ↦ rw (own) (sym (append-nil h.pushed))
    | inr other ↦ elim (Option-cases (h.subscribers member)) [
      | inl quiet ↦ rw (other, quiet) (sym (append-nil h.pushed))
      | inr (conns, has) ↦ rw (other, has) refl
    ]
  ]

  deliveries-push_member :
      (member : Text) (members : List Text) (h : Hub)
      → deliveries d author msg (push_member d author msg member h).subscribers members
        ≡ deliveries d author msg h.subscribers members
  deliveries-push_member member [] h = refl
  deliveries-push_member member (m ∷ ms) h =
      rw (reached-push_member member m h, deliveries-push_member member ms h) refl

  pushed-push_members :
      (members : List Text) (h : Hub)
      → (push_members d author msg members h).pushed
        ≡ h.pushed ++ deliveries d author msg h.subscribers members
  unfolding push_members
  pushed-push_members [] h = sym (append-nil h.pushed)
  pushed-push_members (m ∷ ms) h =
      pushed-push_members ms (push_member d author msg m h)
      ∙ rw (pushed-push_member m h, deliveries-push_member m ms h)
          (append_assoc h.pushed (reached d author msg h.subscribers m)
            (deliveries d author msg h.subscribers ms))

-- A message goes to exactly the connections that the members of its room other than its author have
-- subscribed and whose channels take it, whatever other connections are closed on the way.
pub pushed-fanout :
    (d : Draw) (room author : Text) (msg : StoredMessage) (h : Hub)
    → (fanout d room author msg h).pushed
      ≡ h.pushed ++ deliveries d author msg h.subscribers (room_member_ids room h.store)
unfolding fanout
pushed-fanout d room author msg h =
    pushed-push_members d author msg (room_member_ids room h.store) h
