-- ===== src/Dict.antt =====
-- Python's `dict` in insertion order, as the session context uses it: `get`, item assignment (an
-- existing key keeps its place) and `pop(key, None)`.
use ai_workflow_premortem_pu.Prelude.{
  ◌≡◌, Option, none, some, List, [], ◌∷◌, arith, Eq, ◌==◌, if◌then◌else◌, beq_refl, beq-false, ◌≢◌,
}

abbrev pub Dict {ℓ} : Type ℓ → Type ℓ → Type ℓ
Dict K V = List (K × V)

module _ {ℓ} {K V : Type ℓ} ⦃e : Eq K⦄ where
  unfoldable pub get : K → Dict K V → Option V
  get k [] = none
  get k ((j, v) ∷ d) = if k == j then some v else get k d

  unfoldable pub put : K → V → Dict K V → Dict K V
  put k v [] = (k, v) ∷ []
  put k v ((j, w) ∷ d) = if k == j then (k, v) ∷ d else (j, w) ∷ put k v d

  unfoldable pub pop : K → Dict K V → Dict K V
  pop k [] = []
  pop k ((j, w) ∷ d) = let rest = pop k d in if k == j then rest else (j, w) ∷ rest

  pub get-put :
      (k j : K) (v : V) (d : Dict K V) → get j (put k v d) ≡ (if k == j then some v else get j d)
  unfolding get put
  get-put k j v [] = ground (arith, e.beq_iff k j, e.beq_iff j k)
  get-put k j v ((i, w) ∷ d) =
      ground (arith, e.beq_iff k j, e.beq_iff j k, e.beq_iff k i, e.beq_iff j i, get-put k j v d)

  pub get-pop : (k j : K) (d : Dict K V) → get j (pop k d) ≡ (if k == j then none else get j d)
  unfolding get pop
  get-pop k j [] = ground arith
  get-pop k j ((i, w) ∷ d) =
      ground (arith, e.beq_iff k j, e.beq_iff j k, e.beq_iff k i, e.beq_iff j i, get-pop k j d)

  pub get-put_same : (k : K) (v : V) (d : Dict K V) → get k (put k v d) ≡ some v
  get-put_same k v d = rw (get-put k k v d) (rw (beq_refl k))

  pub get-pop_same : (k : K) (d : Dict K V) → get k (pop k d) ≡ none
  get-pop_same k d = rw (get-pop k k d) (rw (beq_refl k))

  -- Another key keeps its value.
  pub get-put_other : (k j : K) (v : V) (d : Dict K V) → k ≢ j → get j (put k v d) ≡ get j d
  get-put_other k j v d h = rw (get-put k j v d) (rw (beq-false k j h))

  pub get-pop_other : (k j : K) (d : Dict K V) → k ≢ j → get j (pop k d) ≡ get j d
  get-pop_other k j d h = rw (get-pop k j d) (rw (beq-false k j h))

pub ruleset dict_laws = (get-put, get-pop)
