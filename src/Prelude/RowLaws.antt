-- ===== src/Prelude/RowLaws.antt =====
-- Laws of the table operations.
use Prim.Native.Nat.{ℕ, zero, suc, ◌+◌, ◌≤◌}
use mathlib.Core.Path.{◌≡◌, refl, ap}
use mathlib.Core.Bool.{Bool, true, false}
use mathlib.Core.Option.{none, some}
use mathlib.Core.List.{List, [], ◌∷◌, ◌++◌}
use native.Mathlib.Omega.{arith}
use parler_protocol.Prelude.Tests.{if◌then◌else◌, is_some, ltb}
use parler_protocol.Prelude.Rows.{
  length, take, drop, select, delete, update, find, any, count, insert_or_ignore, All,
}

module _ {ℓ} {A : Type ℓ} where
  pub length-append : (xs ys : List A) → length (xs ++ ys) ≡ length xs + length ys
  length-append [] ys = omega arith
  length-append (x ∷ xs) ys = omega (arith, length-append xs ys)

  pub select-append :
      (p : A → Bool) (xs ys : List A) → select p (xs ++ ys) ≡ select p xs ++ select p ys
  unfolding select
  select-append p [] ys = refl
  select-append p (x ∷ xs) ys = ground (arith, select-append p xs ys)

  pub delete-append :
      (p : A → Bool) (xs ys : List A) → delete p (xs ++ ys) ≡ delete p xs ++ delete p ys
  unfolding delete
  delete-append p [] ys = refl
  delete-append p (x ∷ xs) ys = ground (arith, delete-append p xs ys)

  pub any-append :
      (p : A → Bool) (xs ys : List A) → any p (xs ++ ys) ≡ (if any p xs then true else any p ys)
  unfolding any
  any-append p [] ys = refl
  any-append p (x ∷ xs) ys = ground (arith, any-append p xs ys)

  pub find-append :
      (p : A → Bool) (xs ys : List A)
      → find p (xs ++ ys) ≡ (if any p xs then find p xs else find p ys)
  unfolding find any
  find-append p [] ys = refl
  find-append p (x ∷ xs) ys = ground (arith, find-append p xs ys)

  pub any-find : (p : A → Bool) (xs : List A) → any p xs ≡ is_some (find p xs)
  unfolding find any
  any-find p [] = refl
  any-find p (x ∷ xs) = ground (arith, any-find p xs)

  pub find_sound : (p : A → Bool) (xs : List A) {x : A} → find p xs ≡ some x → p x ≡ true
  unfolding find
  find_sound p [] h = ground arith
  find_sound p (y ∷ xs) {x} h = ground (arith, find_sound p xs {x = x})

  pub any-delete_self : (p : A → Bool) (xs : List A) → any p (delete p xs) ≡ false
  unfolding any delete
  any-delete_self p [] = refl
  any-delete_self p (x ∷ xs) = ground (arith, any-delete_self p xs)

  pub select-delete_self : (p : A → Bool) (xs : List A) → select p (delete p xs) ≡ []
  unfolding select delete
  select-delete_self p [] = refl
  select-delete_self p (x ∷ xs) = ground (arith, select-delete_self p xs)

  pub select_none : (p : A → Bool) (xs : List A) → any p xs ≡ false → select p xs ≡ []
  unfolding select any
  select_none p [] h = refl
  select_none p (x ∷ xs) h = ground (arith, select_none p xs)

  -- A test that the deleted rows fail does not see the deletion.
  pub select-delete :
      (p q : A → Bool)
      → ((x : A) → p x ≡ true → q x ≡ false)
      → (xs : List A) → select q (delete p xs) ≡ select q xs
  unfolding select delete
  select-delete p q h [] = refl
  select-delete p q h (x ∷ xs) = ground (arith, h x, select-delete p q h xs)

  pub find-delete :
      (p q : A → Bool)
      → ((x : A) → p x ≡ true → q x ≡ false)
      → (xs : List A) → find q (delete p xs) ≡ find q xs
  unfolding find delete
  find-delete p q h [] = refl
  find-delete p q h (x ∷ xs) = ground (arith, h x, find-delete p q h xs)

  pub any-delete :
      (p q : A → Bool)
      → ((x : A) → p x ≡ true → q x ≡ false)
      → (xs : List A) → any q (delete p xs) ≡ any q xs
  unfolding any delete
  any-delete p q h [] = refl
  any-delete p q h (x ∷ xs) = ground (arith, h x, any-delete p q h xs)

  -- A test that the update does not change finds the same rows.
  pub any-update :
      (p q : A → Bool) (f : A → A)
      → ((x : A) → q (f x) ≡ q x)
      → (xs : List A) → any q (update p f xs) ≡ any q xs
  unfolding any update
  any-update p q f h [] = refl
  any-update p q f h (x ∷ xs) = ground (arith, h x, any-update p q f h xs)

  pub find-update_self :
      (p : A → Bool) (f : A → A)
      → ((x : A) → p (f x) ≡ p x)
      → (xs : List A) (x : A) → find p xs ≡ some x
      → find p (update p f xs) ≡ some (f x)
  unfolding find update
  find-update_self p f h [] x e = ground arith
  find-update_self p f h (y ∷ xs) x e = ground (arith, h y, find-update_self p f h xs x)

  pub find-update_other :
      (p q : A → Bool) (f : A → A)
      → ((x : A) → p x ≡ true → (q x ≡ false) × (q (f x) ≡ false))
      → (xs : List A) → find q (update p f xs) ≡ find q xs
  unfolding find update
  find-update_other p q f h [] = refl
  find-update_other p q f h (x ∷ xs) = ground (arith, h x, find-update_other p q f h xs)

  pub find-update-none :
      (p : A → Bool) (f : A → A) (xs : List A) → find p xs ≡ none → update p f xs ≡ xs
  unfolding find update
  find-update-none p f [] e = refl
  find-update-none p f (y ∷ xs) e = ground (arith, find-update-none p f xs)

  pub length-update : (p : A → Bool) (f : A → A) (xs : List A) → length (update p f xs) ≡ length xs
  unfolding update
  length-update p f [] = refl
  length-update p f (x ∷ xs) = ground (arith, length-update p f xs)

  pub any-insert :
      (p : A → Bool) (x : A) (xs : List A) → p x ≡ true → any p (insert_or_ignore p x xs) ≡ true
  unfolding insert_or_ignore
  any-insert p x xs h = ground (arith, any-append p xs (x ∷ []))

  pub find-insert_other :
      (p q : A → Bool) (x : A) (xs : List A)
      → q x ≡ false
      → find q (insert_or_ignore p x xs) ≡ find q xs
  unfolding insert_or_ignore find
  find-insert_other p q x xs h = ground (arith, find-append q xs (x ∷ []), any-find q xs)

  pub All-append {κ} : (P : A → Type κ) (xs ys : List A) → All P xs → All P ys → All P (xs ++ ys)
  All-append P [] ys h k = k
  All-append P (x ∷ xs) ys h k = (h.0, All-append P xs ys h.1 k)

  pub All-delete {κ} :
      (P : A → Type κ) (p : A → Bool) (xs : List A) → All P xs → All P (delete p xs)
  unfolding delete
  All-delete P p [] h = tt
  All-delete P p (x ∷ xs) h = ground (arith, All-delete P p xs h.1)

  pub All_mono {κ} :
      (P Q : A → Type κ) → ((x : A) → P x → Q x) → (xs : List A) → All P xs → All Q xs
  All_mono P Q f [] h = tt
  All_mono P Q f (x ∷ xs) h = (f x h.0, All_mono P Q f xs h.1)

  pub take-append-drop : (n : ℕ) (xs : List A) → take n xs ++ drop n xs ≡ xs
  take-append-drop zero xs = refl
  take-append-drop (suc n) [] = refl
  take-append-drop (suc n) (x ∷ xs) = ground (arith, take-append-drop n xs)

  pub take_nil : (n : ℕ) → take {A = A} n [] ≡ []
  take_nil zero = refl
  take_nil (suc n) = refl

  pub take_add : (n k : ℕ) (xs : List A) → take n xs ++ take k (drop n xs) ≡ take (n + k) xs
  take_add zero k xs = ground arith
  take_add (suc n) k [] = ground (arith, take_nil k, take_nil (suc n + k))
  take_add (suc n) k (x ∷ xs) =
      let e : suc n + k ≡ suc (n + k) = omega arith in rw e (ap (◌∷◌ x) (take_add n k xs))

module _ {ℓ} {A : Type ℓ} where
  -- What an update does to the row that a key finds, where it keeps the key.
  pub find-update_key :
      (p q : A → Bool) (f : A → A)
      → ((x : A) → p x ≡ true → q (f x) ≡ q x)
      → (xs : List A) (x : A) → find q xs ≡ some x
      → find q (update p f xs) ≡ some (if p x then f x else x)
  unfolding find update
  find-update_key p q f h [] x e = ground arith
  find-update_key p q f h (y ∷ xs) x e = ground (arith, h y, find-update_key p q f h xs x)

  pub find-update_key_none :
      (p q : A → Bool) (f : A → A)
      → ((x : A) → p x ≡ true → q (f x) ≡ q x)
      → (xs : List A) → find q xs ≡ none
      → find q (update p f xs) ≡ none
  unfolding find update
  find-update_key_none p q f h [] e = refl
  find-update_key_none p q f h (y ∷ xs) e = ground (arith, h y, find-update_key_none p q f h xs)

  pub count-update :
      (p q : A → Bool) (f : A → A)
      → ((x : A) → p x ≡ true → q (f x) ≡ q x)
      → (xs : List A) → count q (update p f xs) ≡ count q xs
  unfolding count update
  count-update p q f h [] = refl
  count-update p q f h (y ∷ xs) = ground (arith, h y, count-update p q f h xs)

  pub count-append : (p : A → Bool) (xs ys : List A) → count p (xs ++ ys) ≡ count p xs + count p ys
  unfolding count
  count-append p [] ys = omega arith
  count-append p (x ∷ xs) ys = ground (arith, count-append p xs ys)

  pub count-none : (p : A → Bool) (xs : List A) → find p xs ≡ none → count p xs ≡ 0
  unfolding count find
  count-none p [] e = refl
  count-none p (x ∷ xs) e = ground (arith, count-none p xs)

  pub count_sub :
      (p q : A → Bool)
      → ((x : A) → q x ≡ true → p x ≡ true)
      → (xs : List A) → count q xs ≤ count p xs
  unfolding count
  count_sub p q h [] = omega arith
  count_sub p q h (x ∷ xs) = ground (arith, h x, count_sub p q h xs)

  -- Under a unique key a narrower test counts the row of that key or nothing.
  pub count_unique :
      (p q : A → Bool)
      → ((x : A) → q x ≡ true → p x ≡ true)
      → (xs : List A) (x : A) → count p xs ≤ 1
      → find p xs ≡ some x
      → count q xs ≡ (if q x then 1 else 0)
  unfolding count find
  count_unique p q h [] x u e = ground arith
  count_unique p q h (y ∷ xs) x u e =
      ground (arith, h y, count_sub p q h xs, count_unique p q h xs x)

  pub any-count : (p : A → Bool) (xs : List A) → any p xs ≡ ltb 0 (count p xs)
  unfolding any count
  any-count p [] = refl
  any-count p (x ∷ xs) = ground (arith, any-count p xs)

  -- A row put last is found there, where none was found before.
  pub find_new :
      (p : A → Bool) (xs : List A) (x : A)
      → find p xs ≡ none
      → p x ≡ true
      → find p (xs ++ x ∷ []) ≡ some x
  unfolding find
  find_new p xs x e h = ground (arith, find-append p xs (x ∷ []), any-find p xs)

  pub count-insert_other :
      (p q : A → Bool) (x : A) (xs : List A)
      → q x ≡ false
      → count q (insert_or_ignore p x xs) ≡ count q xs
  unfolding insert_or_ignore count
  count-insert_other p q x xs h = ground (arith, count-append q xs (x ∷ []))

  -- What no row satisfies, the row that is found does not.
  pub find-any_none :
      (p q : A → Bool) (xs : List A) {x : A} → any q xs ≡ false → find p xs ≡ some x → q x ≡ false
  unfolding any find
  find-any_none p q [] h e = ground arith
  find-any_none p q (y ∷ ys) {x} h e = ground (arith, find-any_none p q ys {x = x})
