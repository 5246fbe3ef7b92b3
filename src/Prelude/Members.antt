-- ===== src/Prelude/Members.antt =====
-- Members of the lists that filters, maps and sorting give.
use mathlib.Core.Path.{◌≡◌, refl}
use mathlib.Core.Logic.{◌⊎◌, inl, inr, ◌↔◌}
use mathlib.Core.Bool.{Bool, true, false}
use mathlib.Core.List.{List, [], ◌∷◌, map}
use ai_workflow_premortem_pu.Prelude.Tests.{◌==◌, Eq, Bool-cases}
use ai_workflow_premortem_pu.Prelude.Lists.{keep_if, In, mem, is_empty}
use ai_workflow_premortem_pu.Prelude.Sort.{insert_sorted, sorted}

module _ {ℓ} {A : Type ℓ} where
  pub In-keep_if :
      (p : A → Bool) (xs : List A) (a : A) → In a (keep_if p xs) → In a xs × (p a ≡ true)
  In-keep_if p (x ∷ xs) a h = elim (Bool-cases (p x)) [
    | inl t ↦ elim (rw t at h) [
      | inl e ↦ (inl e, rw e t)
      | inr k ↦ (inr (In-keep_if p xs a k).0, (In-keep_if p xs a k).1)
    ]
    | inr f ↦ let k = In-keep_if p xs a (rw f at h) in (inr k.0, k.1)
  ]
  In-keep_if p [] a h = absurd (h tt)

  -- A filter that keeps nothing refuses every member.
  pub keep_if-empty :
      (p : A → Bool) (xs : List A) (a : A) → is_empty (keep_if p xs) ≡ true → In a xs → p a ≡ false
  keep_if-empty p (x ∷ xs) a h m = elim (Bool-cases (p x)) [
    | inl t ↦ absurd cc
    | inr f ↦ elim m [ inl e ↦ rw e f | inr k ↦ keep_if-empty p xs a (rw f at h) k ]
  ]
  keep_if-empty p [] a h m = absurd (m tt)

  pub In-map {κ} : {B : Type κ} (f : A → B) (xs : List A) (a : A) → In a xs → In (f a) (map f xs)
  In-map f (x ∷ xs) a (inl e) = inl cc
  In-map f (x ∷ xs) a (inr k) = inr (In-map f xs a k)
  In-map f [] a h = absurd (h tt)

module _ {ℓ} {A : Type ℓ} ⦃e : Eq A⦄ where
  pub mem-In : (a : A) (xs : List A) → mem a xs ≡ true → In a xs
  mem-In a [] h = absurd cc
  mem-In a (x ∷ xs) h = elim (Bool-cases (a == x)) [
    | inl t ↦ inl ((e.beq_iff a x).0 t)
    | inr f ↦ inr (mem-In a xs (rw f at h))
  ]

  -- A mapped value stems from a member.
  pub mem-map {κ} :
      {B : Type κ} (f : B → A) (a : A) (xs : List B)
      → mem a (map f xs) ≡ true
      → (b : B) × In b xs × (a ≡ f b)
  mem-map f a [] h = absurd cc
  mem-map f a (x ∷ xs) h = elim (Bool-cases (a == f x)) [
    | inl t ↦ (x, inl refl, (e.beq_iff a (f x)).0 t)
    | inr g ↦ let (b, k, q) = mem-map f a xs (rw g at h) in (b, inr k, q)
  ]

module _ {A : Type 0} (le : A → A → Bool) (a : A) where
  In-insert_sorted : (x : A) (xs : List A) → In a (insert_sorted le x xs) ↔ ((a ≡ x) ⊎ In a xs)
  unfolding insert_sorted
  In-insert_sorted x [] = (λ h. h, λ h. h)
  In-insert_sorted x (y ∷ ys) = elim (Bool-cases (le x y)) [
    | inl t ↦ rw t (λ h. h, λ h. h)
    | inr f ↦
        let k = In-insert_sorted x ys in
        rw f (
          λ h. elim h [
            | inl q ↦ inr (inl q)
            | inr m ↦ elim (k.0 m) [ inl q ↦ inl q | inr r ↦ inr (inr r) ]
          ],
          λ h. elim h [
            | inl q ↦ inr (k.1 (inl q))
            | inr m ↦ elim m [ inl q ↦ inl q | inr r ↦ inr (k.1 (inr r)) ]
          ],
        )
  ]

  -- Sorting keeps the members.
  pub In-sorted : (xs : List A) → In a (sorted le xs) ↔ In a xs
  unfolding sorted
  In-sorted [] = (λ h. h, λ h. h)
  In-sorted (x ∷ xs) =
      let k = In-insert_sorted x (sorted le xs) in
      let r = In-sorted xs in
      (
        λ h. elim (k.0 h) [ inl q ↦ inl q | inr m ↦ inr (r.0 m) ],
        λ h. k.1 (elim h [ inl q ↦ inl q | inr m ↦ inr (r.1 m) ]),
      )
