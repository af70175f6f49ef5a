-- ===== src/Client/Storage/Dicts.antt =====
-- Dicts whose keys are there once, and the sum of their weights, under `d[k] = v` and `d.pop(k)`.
use yanshi_shield.Base.{
  ℕ, ◌+◌, ◌≡◌, refl, subst, none, some, [], ◌∷◌, Eq, ◌==◌, beq-cases, All, arith, Bool-cases, inl,
  inr,
}
use yanshi_shield.Base.Dict.{Dict, lookup, insert, lookup-insert, pop}

module _ {ℓ κ} {K : Type κ} {V : Type ℓ} ⦃e : Eq K⦄ where
  -- Every key is there once.
  abbrev pub IsDict : Dict K V → Type ℓ
  IsDict [] = Unit
  IsDict ((k, _) ∷ d) = (lookup k d ≡ none) × IsDict d

  pub IsDict-insert : (k : K) (v : V) (d : Dict K V) → IsDict d → IsDict (insert k v d)
  unfolding lookup insert
  IsDict-insert k v [] h = (refl, tt)
  IsDict-insert k v ((j, w) ∷ d) h =
      grind (arith, beq-cases j k, lookup-insert j k v d, beq-cases k j, IsDict-insert k v d h.1)

  missing-pop : (j k : K) (d : Dict K V) → lookup j d ≡ none → lookup j (pop k d) ≡ none
  unfolding lookup
  missing-pop j k [] h = refl
  missing-pop j k ((i, w) ∷ d) h = ground (arith, beq-cases i j, beq-cases i k, missing-pop j k d)

  pub IsDict-pop : (k : K) (d : Dict K V) → IsDict d → IsDict (pop k d)
  IsDict-pop k [] h = tt
  IsDict-pop k ((j, w) ∷ d) h =
      ground (arith, beq-cases j k, missing-pop j k d h.0, IsDict-pop k d h.1)

  pub lookup-pop : (k : K) (d : Dict K V) → IsDict d → lookup k (pop k d) ≡ none
  unfolding lookup
  lookup-pop k [] h = refl
  lookup-pop k ((j, w) ∷ d) h = grind (arith, beq-cases j k, lookup-pop k d h.1)

-- The sum of a dict's weights
module _ {ℓ κ} {K : Type κ} {V : Type ℓ} (weight : V → ℕ) where
  abbrev pub sum_by : Dict K V → ℕ
  sum_by [] = 0
  sum_by ((_, v) ∷ d) = weight v + sum_by d

module _ {ℓ κ} {K : Type κ} {V : Type ℓ} ⦃e : Eq K⦄ (weight : V → ℕ) where
  abbrev pub weight_at : K → Dict K V → ℕ
  weight_at k d = elim (lookup k d) [ none ↦ 0 | some v ↦ weight v ]

  pub sum_by-insert :
      (k : K) (v : V) (d : Dict K V)
      → sum_by weight (insert k v d) + weight_at k d ≡ sum_by weight d + weight v
  unfolding lookup insert
  sum_by-insert k v [] = omega arith
  sum_by-insert k v ((j, w) ∷ d) = grind (arith, beq-cases j k, sum_by-insert k v d)

  pub sum_by-pop :
      (k : K) (d : Dict K V) → sum_by weight (pop k d) + weight_at k d ≡ sum_by weight d
  unfolding lookup
  sum_by-pop k [] = omega arith
  sum_by-pop k ((j, w) ∷ d) = grind (arith, beq-cases j k, sum_by-pop k d)

module _ {ℓ κ λ'} {K : Type κ} {V : Type ℓ} ⦃e : Eq K⦄ (P : V → Type λ') where
  abbrev pub Each : Dict K V → Type λ'
  Each d = All (λ p. P p.1) d

  pub Each-insert : (k : K) (v : V) (d : Dict K V) → Each d → P v → Each (insert k v d)
  unfolding insert
  Each-insert k v [] h p = (p, tt)
  Each-insert k v ((j, w) ∷ d) h p = ground (arith, beq-cases j k, Each-insert k v d h.1 p)

  pub Each-pop : (k : K) (d : Dict K V) → Each d → Each (pop k d)
  Each-pop k [] h = tt
  Each-pop k ((j, w) ∷ d) h = ground (arith, beq-cases j k, Each-pop k d h.1)

  pub Each-lookup : (k : K) (d : Dict K V) (v : V) → Each d → lookup k d ≡ some v → P v
  unfolding lookup
  Each-lookup k [] v h found = absurd cc
  Each-lookup k ((j, w) ∷ d) v h found = elim (Bool-cases (j == k)) [
    | inl here ↦ subst P (ground (arith, here, found)) h.0
    | inr other ↦ Each-lookup k d v h.1 (ground (arith, other, found))
  ]
