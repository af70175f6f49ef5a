-- ===== src/Base/Dict.antt =====
-- A Python dict in insertion order, over any type of keys with a test for equality.
use mathlib.Core.Path.{◌≡◌, refl}
use mathlib.Core.Bool.{Bool, true, false}
use mathlib.Core.Option.{Option, none, some}
use mathlib.Core.List.{List, [], ◌∷◌, map}
use native.Mathlib.Omega.{arith}
use yanshi_shield.Base.Tests.{if◌then◌else◌}
use yanshi_shield.Base.Keys.{Eq, ◌==◌, beq-cases}

abbrev pub Dict {ℓ κ} : Type κ → Type ℓ → Type (κ ⊔ ℓ)
Dict K V = List (K × V)

module _ {ℓ κ} {K : Type κ} {V : Type ℓ} ⦃e : Eq K⦄ where
  unfoldable pub lookup : K → Dict K V → Option V
  lookup k [] = none
  lookup k ((j, v) ∷ d) = if j == k then some v else lookup k d

  -- `k in d`
  unfoldable pub contains : K → Dict K V → Bool
  unfolding lookup
  contains k d = elim (lookup k d) [ none ↦ false | some _ ↦ true ]

  -- `d[k] = v`
  unfoldable pub insert : K → V → Dict K V → Dict K V
  insert k v [] = (k, v) ∷ []
  insert k v ((j, w) ∷ d) = if j == k then (j, v) ∷ d else (j, w) ∷ insert k v d

  -- `del d[k]`, for every entry with the key (a dict has one at most)
  unfoldable pub erase : K → Dict K V → Dict K V
  erase k [] = []
  erase k ((j, w) ∷ d) = if j == k then erase k d else (j, w) ∷ erase k d

abbrev pub keys {ℓ κ} : {K : Type κ} {V : Type ℓ} → Dict K V → List K
keys d = map (λ p. p.0) d

abbrev pub values {ℓ κ} : {K : Type κ} {V : Type ℓ} → Dict K V → List V
values d = map (λ p. p.1) d

module _ {ℓ κ} {K : Type κ} {V : Type ℓ} ⦃e : Eq K⦄ where
  pub lookup-insert :
      (j k : K) (v : V) (d : Dict K V)
      → lookup j (insert k v d) ≡ (if k == j then some v else lookup j d)
  unfolding lookup insert
  lookup-insert j k v [] = refl
  lookup-insert j k v ((i, w) ∷ d) =
      grind (arith, beq-cases k j, beq-cases i k, beq-cases i j, lookup-insert j k v d)

  pub lookup-erase :
      (j k : K) (d : Dict K V) → lookup j (erase k d) ≡ (if k == j then none else lookup j d)
  unfolding lookup erase
  lookup-erase j k [] = ground arith
  lookup-erase j k ((i, w) ∷ d) =
      grind (arith, beq-cases k j, beq-cases i k, beq-cases i j, lookup-erase j k d)

-- `d.pop(k)`: the entry with the key is taken out.
abbrev pub pop {ℓ κ} : {K : Type κ} {V : Type ℓ} ⦃e : Eq K⦄ → K → Dict K V → Dict K V
pop k [] = []
pop k ((j, w) ∷ d) = if j == k then d else (j, w) ∷ pop k d
