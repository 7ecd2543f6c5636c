-- ===== src/Prelude/Results.antt =====
-- Fallible calls: `anyhow::Result` with the refusals that the program tells apart.
use mathlib.Core.Path.{◌≡◌, refl}
use mathlib.Core.Bool.{Bool, true, false}
use mathlib.Core.List.{List, ◌∷◌}
use parler_protocol.Prelude.Tests.{if◌then◌else◌}

pub data Outcome {ℓ} (E : Type 0) (A : Type ℓ) : Type ℓ where
  ok : A → Outcome E A
  err : E → Outcome E A

module _ {ℓ} {E : Type 0} {A : Type ℓ} where
  -- One more result in front of those collected; the first error wins.
  abbrev pub cons_ok : Outcome E A → Outcome E (List A) → Outcome E (List A)
  cons_ok (err e) r = err e
  cons_ok (ok x) (err e) = err e
  cons_ok (ok x) (ok xs) = ok (x ∷ xs)

  pub cons_ok_inv :
      (o : Outcome E A) (r : Outcome E (List A)) (all : List A)
      → cons_ok o r ≡ ok all
      → (x : A) × (xs : List A) × (o ≡ ok x) × (r ≡ ok xs) × (all ≡ x ∷ xs)
  cons_ok_inv (err e) r all h = cc
  cons_ok_inv (ok x) (err e) all h = cc
  cons_ok_inv (ok x) (ok xs) all h = (x, xs, refl, refl, cc)

-- Through a test of the code: what holds of the state after either branch.
pub choose :
    {S A : Type 0} (P : S → Type 0) (b : Bool) (x y : A × S)
    → (b ≡ true → P x.1)
    → (b ≡ false → P y.1)
    → P (if b then x else y).1
choose P true x y f g = f refl
choose P false x y f g = g refl

-- And through a fallible call.
pub choose_outcome :
    {E R S A : Type 0} (P : S → Type 0) (o : Outcome E R) (f : R → A × S) (g : E → A × S)
    → ((r : R) → P (f r).1)
    → ((e : E) → P (g e).1)
    → P (elim o as (λ x. A × S) [ ok r ↦ f r | err e ↦ g e ]).1
choose_outcome P (ok r) f g good bad = good r
choose_outcome P (err e) f g good bad = bad e
