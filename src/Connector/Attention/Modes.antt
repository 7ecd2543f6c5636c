-- ===== src/Connector/Attention/Modes.antt =====
-- What setting a room's mode does to the decisions about that room and about the others.
use parler_protocol.Prelude.{
  Text, ◌==◌, eq_iff, eq_refl, not, ◌||◌, ◌≡◌, refl, ◌∙◌, ◌≢◌, Bool, true, false, Option, List, [],
  ◌∷◌, ◌++◌, select, any, any-append, arith,
}
use parler_protocol.Protocol.RoomKind.{RoomKind, is_dm}
use parler_protocol.Store.Messages.{StoredMessage}
use parler_protocol.Connector.Attention.{
  AttentionPolicy, drop, RoomAttention, quiet, muted, inherit, place, sort, dedup_from, dedup,
  set_room, wake_if, is_handed, is_assigned, decide,
}

-- Sorting and removing doubles keep which rooms are listed.
any-place : (p : Text → Bool) (x : Text) (xs : List Text) → any p (place x xs) ≡ p x || any p xs
unfolding place any
any-place p x [] = ground arith
any-place p x (y ∷ ys) = ground (arith, any-place p x ys)

any-sort : (p : Text → Bool) (xs : List Text) → any p (sort xs) ≡ any p xs
unfolding sort any
any-sort p [] = refl
any-sort p (x ∷ xs) = ground (arith, any-place p x (sort xs), any-sort p xs)

any-dedup_from :
    (r x : Text) (xs : List Text)
    → any (λ y. y == r) (dedup_from x xs) ≡ (x == r) || any (λ y. y == r) xs
unfolding dedup_from any
any-dedup_from r x [] = ground arith
any-dedup_from r x (y ∷ ys) =
    ground (arith, any-dedup_from r x ys, any-dedup_from r y ys, eq_iff x y, eq_iff x r, eq_iff y r)

any-dedup : (r : Text) (xs : List Text) → any (λ y. y == r) (dedup xs) ≡ any (λ y. y == r) xs
unfolding dedup any
any-dedup r [] = refl
any-dedup r (x ∷ xs) = ground (arith, any-dedup_from r x xs)

listed : (r : Text) (xs : List Text) → any (λ y. y == r) (dedup (sort xs)) ≡ any (λ y. y == r) xs
listed r xs = any-dedup r (sort xs) ∙ any-sort (λ y. y == r) xs

any-retain_self :
    (r : Text) (xs : List Text) → any (λ y. y == r) (select (λ y. not (y == r)) xs) ≡ false
unfolding any select
any-retain_self r [] = refl
any-retain_self r (x ∷ xs) = ground (arith, any-retain_self r xs)

any-retain_other :
    (q r : Text) (xs : List Text)
    → q == r ≡ false
    → any (λ y. y == r) (select (λ y. not (y == q)) xs) ≡ any (λ y. y == r) xs
unfolding any select
any-retain_other q r [] h = refl
any-retain_other q r (x ∷ xs) h =
    ground (arith, h, eq_iff x q, eq_iff x r, eq_iff q r, any-retain_other q r xs h)

differs : (a b : Text) → a ≢ b → a == b ≡ false
differs a b h = ground (arith, h, eq_iff a b)

gone :
    (r : Text) (xs : List Text)
    → any (λ y. y == r) (dedup (sort (select (λ y. not (y == r)) xs))) ≡ false
gone r xs = listed r (select (λ y. not (y == r)) xs) ∙ any-retain_self r xs

put :
    (r : Text) (xs : List Text)
    → any (λ y. y == r) (dedup (sort (select (λ y. not (y == r)) xs ++ r ∷ []))) ≡ true
unfolding any
put r xs =
    listed r (select (λ y. not (y == r)) xs ++ r ∷ [])
    ∙ ground (arith, any-append (λ y. y == r) (select (λ y. not (y == r)) xs) (r ∷ []), eq_refl r)

kept :
    (q r : Text) (xs : List Text)
    → q == r ≡ false
    → any (λ y. y == r) (dedup (sort (select (λ y. not (y == q)) xs))) ≡ any (λ y. y == r) xs
kept q r xs h = listed r (select (λ y. not (y == q)) xs) ∙ any-retain_other q r xs h

put_other :
    (q r : Text) (xs : List Text)
    → q == r ≡ false
    → any (λ y. y == r) (dedup (sort (select (λ y. not (y == q)) xs ++ q ∷ [])))
      ≡ any (λ y. y == r) xs
unfolding any
put_other q r xs h =
    listed r (select (λ y. not (y == q)) xs ++ q ∷ [])
    ∙ ground (
      arith,
      any-append (λ y. y == r) (select (λ y. not (y == q)) xs) (q ∷ []),
      h,
      any-retain_other q r xs h,
    )

decide_same :
    (p : AttentionPolicy) (room : Text) (mode : RoomAttention) (kind : RoomKind)
    (message : StoredMessage) (name : Text) (role : Option Text)
    → decide (set_room room mode p) room kind message name role ≡ elim mode [
      | quiet ↦ wake_if (is_dm kind || (is_handed message name role || is_assigned message role))
      | muted ↦ drop
      | inherit ↦
          decide (record p { quiet_rooms = []; muted_rooms = [] }) room kind message name role
    ]
unfolding decide set_room any
decide_same p room quiet kind message name role =
    rw (gone room p.muted_rooms, put room p.quiet_rooms) refl
decide_same p room muted kind message name role = rw (put room p.muted_rooms) refl
decide_same p room inherit kind message name role =
    rw (gone room p.muted_rooms, gone room p.quiet_rooms) refl

decide_other :
    (p : AttentionPolicy) (room other : Text) (mode : RoomAttention) (kind : RoomKind)
    (message : StoredMessage) (name : Text) (role : Option Text)
    → room ≢ other
    → decide (set_room room mode p) other kind message name role
      ≡ decide p other kind message name role
unfolding decide set_room any
decide_other p room other quiet kind message name role apart =
    let h = differs room other apart in
    rw (kept room other p.muted_rooms h, put_other room other p.quiet_rooms h) refl
decide_other p room other muted kind message name role apart =
    let h = differs room other apart in
    rw (put_other room other p.muted_rooms h, kept room other p.quiet_rooms h) refl
decide_other p room other inherit kind message name role apart =
    let h = differs room other apart in
    rw (kept room other p.muted_rooms h, kept room other p.quiet_rooms h) refl

-- Setting a room's mode is what decides there from then on: a muted room drops everything, a quiet one
-- wakes for direct traffic alone, and one that inherits follows the global mode, whatever it was
-- before. It decides nothing about another room.
pub decide-set_room :
    (p : AttentionPolicy) (room other : Text) (mode : RoomAttention) (kind : RoomKind)
    (message : StoredMessage) (name : Text) (role : Option Text)
    → room ≢ other
    → (decide (set_room room mode p) room kind message name role ≡ elim mode [
      | quiet ↦ wake_if (is_dm kind || (is_handed message name role || is_assigned message role))
      | muted ↦ drop
      | inherit ↦
          decide (record p { quiet_rooms = []; muted_rooms = [] }) room kind message name role
    ])
      × (decide (set_room room mode p) other kind message name role
          ≡ decide p other kind message name role)
decide-set_room p room other mode kind message name role apart = (
  decide_same p room mode kind message name role,
  decide_other p room other mode kind message name role apart,
)
