-- ===== src/Prelude/Sort.antt =====
-- `sorted(xs, key=...)`: a stable insertion sort, and the last element of the result.
use Prim.Native.Char.{code}
use Prim.Native.String.{String}
use mathlib.Core.Path.{◌≡◌, refl}
use mathlib.Core.Logic.{inl, inr}
use native.Mathlib.Omega.{arith}
use mathlib.Core.Bool.{Bool, true, false, ◌||◌, ◌&&◌}
use mathlib.Core.Option.{Option, some}
use mathlib.Core.List.{List, [], ◌∷◌, ◌++◌}
use ai_workflow_premortem_pu.Prelude.Tests.{if◌then◌else◌, ltb, ◌==◌, nat_eq, Bool-cases}
use ai_workflow_premortem_pu.Prelude.Lists.{last, All}

-- `a <= b` for texts: by code points.
unfoldable pub string_leb : String → String → Bool
string_leb String.[] t = true
string_leb (String.◌∷◌ c s) String.[] = false
string_leb (String.◌∷◌ c s) (String.◌∷◌ d t) =
    ltb (code c) (code d) || code c == code d && string_leb s t

module _ {A : Type 0} (le : A → A → Bool) where
  unfoldable pub insert_sorted : A → List A → List A
  insert_sorted x [] = x ∷ []
  insert_sorted x (y ∷ ys) =
      let rest = y ∷ insert_sorted x ys in if le x y then x ∷ y ∷ ys else rest

  unfoldable pub sorted : List A → List A
  unfolding insert_sorted
  sorted [] = []
  sorted (x ∷ xs) = insert_sorted x (sorted xs)

  -- `sorted(xs, key=...)[-1] if xs else None`
  unfoldable pub latest : List A → Option A
  unfolding sorted
  latest xs = last (sorted xs)

module _ {A : Type 0} (le : A → A → Bool) (a : A) where
  last-cons : (y : A) (ys : List A) → last ys ≡ some a → last (y ∷ ys) ≡ some a
  last-cons y [] e = absurd (ground arith)
  last-cons y (z ∷ zs) e = e

  last-insert_sorted :
      (x : A) (ys : List A)
      → le x a ≡ true
      → last ys ≡ some a
      → last (insert_sorted le x ys) ≡ some a
  unfolding insert_sorted
  last-insert_sorted x [] h e = absurd (ground arith)
  last-insert_sorted x (y ∷ []) h e = elim (Bool-cases (le x y)) [
    | inl t ↦ rw t e
    | inr f ↦ absurd cc
  ]
  last-insert_sorted x (y ∷ z ∷ zs) h e = elim (Bool-cases (le x y)) [
    | inl t ↦ rw t e
    | inr f ↦ rw f (last-cons y (insert_sorted le x (z ∷ zs)) (last-insert_sorted x (z ∷ zs) h e))
  ]

  -- An element appended last that no other one exceeds is the latest.
  pub latest-appended :
      (xs : List A) → All (λ (x : A). le x a ≡ true) xs → latest le (xs ++ a ∷ []) ≡ some a
  unfolding latest sorted insert_sorted
  latest-appended [] h = refl
  latest-appended (x ∷ xs) h =
      last-insert_sorted x (sorted le (xs ++ a ∷ [])) h.0 (latest-appended xs h.1)
