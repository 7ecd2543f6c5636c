-- ===== src/Server/Sending/Waiting.antt =====
-- crates/parler-hub/src/server.rs, `store_waited_pull`: a read that waits is a read.
use parler_protocol.Prelude.{
  ℕ, Text, ◌≡◌, refl, ap, ◌∙◌, Bool, true, false, Option, none, List, [], ◌∷◌, Bool-cases, inl, inr,
  Outcome, ok, err, ◌⊎◌,
}
use parler_protocol.Store.Tables.{Store, Error}
use parler_protocol.Store.Rooms.{is_member}
use parler_protocol.Store.Messages.{StoredMessage, pull}
use parler_protocol.Server.State.{Library, Authed}
use parler_protocol.Server.Sending.{
  has_none, await_messages, Page, or_again, settled, at_once, store_waited_pull,
}

-- A page without messages.
abbrev pub is_empty_page : Outcome Error (List StoredMessage × ℕ) → Bool
is_empty_page (err e) = false
is_empty_page (ok page) = has_none page.0

-- The stores that a reader looks at: this one, and, while it finds no message, the one that the
-- others have made of what its look left.
pub data Looks (l : Library) (room me : Text) (limit ack : Option ℕ)
    : List (Store → Store) → Store → Store → Type 0 where
  here : {rounds : List (Store → Store)} {s : Store} → Looks l room me limit ack rounds s s
  later :
      {round : Store → Store} {rounds : List (Store → Store)} {s t : Store}
      → is_empty_page (pull l.codec room me none limit ack s).0 ≡ true
      → Looks l room me limit ack rounds (round (pull l.codec room me none limit ack s).1) t
      → Looks l room me limit ack (round ∷ rounds) s t

or_again-cases :
    (r again : Page)
    → (or_again r again ≡ r) ⊎ ((is_empty_page r.0 ≡ true) × (or_again r again ≡ again))
or_again-cases (err e, s) again = inl refl
or_again-cases (ok page, s) again = elim (Bool-cases (has_none page.0)) [
  | inl none_there ↦ inr (none_there, rw (none_there) refl)
  | inr some_there ↦ inl (rw (some_there) refl)
]

await_messages-pull :
    (l : Library) (room me : Text) (limit ack : Option ℕ) (rounds : List (Store → Store))
    (s : Store)
    → (t : Store) × Looks l room me limit ack rounds s t
      × (await_messages l room me limit ack rounds s ≡ pull l.codec room me none limit ack t)
unfolding await_messages
await_messages-pull l room me limit ack [] s = (s, here, refl)
await_messages-pull l room me limit ack (round ∷ rounds) s =
    let r = pull l.codec room me none limit ack s in
    let again = await_messages-pull l room me limit ack rounds (round r.1) in
    elim (or_again-cases r (await_messages l room me limit ack rounds (round r.1))) [
      | inl done ↦ (s, here, done)
      | inr h ↦ (again.0, later h.0 again.1, h.1 ∙ again.2)
    ]

at_once-or_again : (r waited : Page) → at_once false r waited ≡ settled (or_again r waited)
at_once-or_again (err e, s) waited = refl
at_once-or_again (ok page, s) waited = elim (Bool-cases (has_none page.0)) [
  | inl none_there ↦ rw (none_there) refl
  | inr some_there ↦ rw (some_there) refl
]

-- A member's read that waits answers as an ordinary read does, on one of the stores that the reader
-- looks at, and leaves the store as that read does; every look before found no message.
pub store_waited_pull-pull :
    (l : Library) (me : Authed) (room : Text) (limit ack : Option ℕ) (rounds : List (Store → Store))
    (s : Store)
    → is_member room me.id s ≡ true
    → (t : Store) × Looks l room me.id limit ack ((λ x. x) ∷ rounds) s t
      × (store_waited_pull l me room none limit ack rounds s
          ≡ settled (pull l.codec room me.id none limit ack t))
unfolding store_waited_pull
store_waited_pull-pull l me room limit ack rounds s member =
    let read = await_messages-pull l room me.id limit ack ((λ x. x) ∷ rounds) s in
    (
      read.0,
      read.1,
      rw (member) (
          at_once-or_again (pull l.codec room me.id none limit ack s) _
          ∙ ap settled (awaits ∙ read.2)),
    )
  where
    awaits :
        or_again (pull l.codec room me.id none limit ack s) (
          await_messages l room me.id limit ack rounds (pull l.codec room me.id none limit ack s).1)
        ≡ await_messages l room me.id limit ack ((λ x. x) ∷ rounds) s
    awaits = unfold await_messages in refl
