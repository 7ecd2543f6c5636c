-- ===== src/Store/Retention/Pruning.antt =====
-- prune_messages: what a pass of the janitor over the log never removes.
use parler_protocol.Prelude.{
  ℕ, zero, suc, get_elem?, reverse, reverse-append, delete-append, select-delete, ◌-◌, ◌<◌, Text,
  ◌==◌, eq_iff, ◌≡◌, refl, sym, ap, ◌∙◌, inl, inr, Bool, true, false, ◌&&◌, Option, some,
  Option-cases, is_some_and, List, [], ◌∷◌, ◌++◌, append-nil, arith, ltb, leb, if◌then◌else◌, take,
  All-append, All_mono, select, delete, All,
}
use parler_protocol.Store.Tables.{Store, MessageRow}
use parler_protocol.Store.Messages.Order.{Ascends, Ascends-select}
use parler_protocol.Store.Messages.Delivery.{IsLog}
use parler_protocol.Store.Retention.{threshold, is_prunable, prune_messages}

module _ {A : Type 0} where
  reverse-cons : (x : A) (xs : List A) → reverse (x ∷ xs) ≡ reverse xs ++ x ∷ []
  reverse-cons x xs = reverse-append (x ∷ []) xs

  reverse_if :
      (b : Bool) (x : A) (ys : List A)
      → reverse ys ++ (if b then [] else x ∷ []) ≡ reverse (if b then ys else x ∷ ys)
  reverse_if true x ys = append-nil (reverse ys)
  reverse_if false x ys = sym (reverse-cons x ys)

  delete-reverse : (p : A → Bool) (xs : List A) → delete p (reverse xs) ≡ reverse (delete p xs)
  unfolding delete
  delete-reverse p [] = refl
  delete-reverse p (x ∷ xs) =
      ap (delete p) (reverse-cons x xs)
      ∙ delete-append p (reverse xs) (x ∷ [])
      ∙ ap (λ ys. ys ++ (if p x then [] else x ∷ [])) (delete-reverse p xs)
      ∙ reverse_if (p x) x (delete p xs)

  -- Rows in `q`, on which two tests agree.
  select-delete_ext :
      (q p r : A → Bool)
      → ((x : A) → q x ≡ true → p x ≡ r x)
      → (xs : List A) → select q (delete p xs) ≡ delete r (select q xs)
  unfolding select delete
  select-delete_ext q p r h [] = refl
  select-delete_ext q p r h (x ∷ xs) = ground (arith, h x, select-delete_ext q p r h xs)

  take-delete :
      (p : A → Bool) (k : ℕ) (xs : List A)
      → All (λ x. p x ≡ false) (take k xs)
      → take k (delete p xs) ≡ take k xs
  unfolding delete
  take-delete p zero xs h = refl
  take-delete p (suc k) [] h = refl
  take-delete p (suc k) (x ∷ xs) h = ground (arith, h.0, take-delete p k xs h.1)

  All-reverse : (P : A → Type 0) (xs : List A) → All P xs → All P (reverse xs)
  All-reverse P [] h = h
  All-reverse P (x ∷ xs) h =
      rw (reverse-cons x xs) (All-append P (reverse xs) (x ∷ []) (All-reverse P xs h.1) (h.0, tt))

  All-get_elem :
      (P : A → Type 0) (xs : List A) (k : ℕ) (x : A) → All P xs → get_elem? xs k ≡ some x → P x
  All-get_elem P [] k x h e = ground arith
  All-get_elem P (y ∷ ys) zero x h e = ground (arith, h.0)
  All-get_elem P (y ∷ ys) (suc k) x h e = All-get_elem P ys k x h.1 e

-- Strictly falling.
Descends : List MessageRow → Type 0
Descends [] = Unit {0}
Descends (m ∷ ms) = All (λ x. x.seq < m.seq) ms × Descends ms

Descends-append :
    (ms : List MessageRow) (m : MessageRow)
    → Descends ms
    → All (λ x. m.seq < x.seq) ms
    → Descends (ms ++ m ∷ [])
unfolding Descends
Descends-append [] m d a = (tt, tt)
Descends-append (x ∷ ms) m d a =
    (All-append (λ y. y.seq < x.seq) ms (m ∷ []) d.0 (a.0, tt), Descends-append ms m d.1 a.1)

Ascends-All : (b : ℕ) (ms : List MessageRow) → Ascends b ms → All (λ x. b < x.seq) ms
Ascends-All b [] a = tt
Ascends-All b (m ∷ ms) a = (
  a.0,
  All_mono (λ x. m.seq < x.seq) (λ x. b < x.seq) (λ x h. omega (arith, a.0)) ms
      (Ascends-All m.seq ms a.1),
)

Descends-reverse : (b : ℕ) (ms : List MessageRow) → Ascends b ms → Descends (reverse ms)
Descends-reverse b [] a = unfold Descends in tt
Descends-reverse b (m ∷ ms) a = rw (reverse-cons m ms) (
    Descends-append (reverse ms) m (Descends-reverse m.seq ms a.1)
      (All-reverse (λ x. m.seq < x.seq) ms (Ascends-All m.seq ms a.1)))

-- What comes before a row of a falling list is greater.
Descends-get_elem :
    (ms : List MessageRow) (k : ℕ) (x : MessageRow)
    → Descends ms
    → get_elem? ms k ≡ some x
    → All (λ m. x.seq < m.seq) (take k ms)
unfolding Descends
Descends-get_elem [] k x d e = ground (arith, e)
Descends-get_elem (m ∷ ms) zero x d e = tt
Descends-get_elem (m ∷ ms) (suc k) x d e =
    (All-get_elem (λ y. y.seq < m.seq) ms k x d.0 e, Descends-get_elem ms k x d.1 e)

everything : (cutoff : ℕ) (ms : List MessageRow) → All (λ m. ltb m.ts cutoff && false ≡ false) ms
everything cutoff [] = tt
everything cutoff (m ∷ ms) = (ground arith, everything cutoff ms)

-- The test of the statement, in one room.
below : ℕ → Option MessageRow → MessageRow → Bool
below cutoff bar m = ltb m.ts cutoff && is_some_and bar (λ x. leb m.seq x.seq)

safe :
    (cutoff k : ℕ) (ms : List MessageRow)
    → Descends ms
    → All (λ m. below cutoff (get_elem? ms k) m ≡ false) (take k ms)
unfolding below
safe cutoff k ms d = elim (Option-cases (get_elem? ms k)) [
  | inl short ↦ rw short (everything cutoff (take k ms))
  | inr (x, e) ↦ rw e (
      All_mono (λ m. x.seq < m.seq) (λ m. ltb m.ts cutoff && leb m.seq x.seq ≡ false)
        (λ m h. ground (arith, h)) (take k ms) (Descends-get_elem ms k x d e))
]

in_one_room :
    (cutoff keep : ℕ) (room : Text) (ms : List MessageRow) (m : MessageRow)
    → m.room == room ≡ true
    → is_prunable cutoff keep ms m
      ≡ below cutoff (get_elem? (reverse (select (λ x. x.room == room) ms)) keep) m
unfolding is_prunable threshold below
in_one_room cutoff keep room ms m here =
    ap
      (λ r.
        ltb m.ts cutoff
        && is_some_and (get_elem? (reverse (select (λ x. x.room == r) ms)) keep)
            (λ x. leb m.seq x.seq))
      ((eq_iff m.room room).0 here)

-- Over a log in order, a pass of the janitor keeps the newest `keep_per_room` messages of every
-- room, in order, and every message that is not older than the retention time.
pub prune_messages-keeps :
    (retain_ms keep_per_room now : ℕ) (room : Text) (s : Store)
    → IsLog s
    → (take keep_per_room (
          reverse (
            select (λ m. m.room == room) (prune_messages retain_ms keep_per_room now s).1.messages))
        ≡ take keep_per_room (reverse (select (λ m. m.room == room) s.messages)))
      × (select
            (λ m. leb (now - retain_ms) m.ts)
            (prune_messages retain_ms keep_per_room now s).1.messages
          ≡ select (λ m. leb (now - retain_ms) m.ts) s.messages)
unfolding prune_messages is_prunable
prune_messages-keeps retain_ms keep now room s g =
    let q : MessageRow → Bool = (λ m. m.room == room) in
    let old = is_prunable (now - retain_ms) keep s.messages in
    let zs = reverse (select q s.messages) in
    let bar = below (now - retain_ms) (get_elem? zs keep) in
    let same : select q (delete old s.messages) ≡ delete bar (select q s.messages) =
      select-delete_ext q old bar (in_one_room (now - retain_ms) keep room s.messages) s.messages in
    (
      ap (λ ms. take keep (reverse ms)) same
          ∙ ap (take keep) (sym (delete-reverse bar (select q s.messages)))
          ∙ take-delete bar keep zs (
              safe (now - retain_ms) keep zs (
                Descends-reverse 0 (select q s.messages)
                  (Ascends-select q 0 s.messages g.ordered))),
      select-delete old (λ m. leb (now - retain_ms) m.ts) (λ m h. ground (arith, h)) s.messages,
    )
