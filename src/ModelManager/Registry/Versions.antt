-- ===== src/ModelManager/Registry/Versions.antt =====
-- The versions that neursafe_fl/python/model_manager/manager.py makes up (`__gen_model_version`).
use yanshi_shield.Base.{
  ℕ, zero, suc, ◌≡◌, ◌≤◌, ◌<◌, refl, Bool, true, false, none, some, [], ◌∷◌, length, nat_eq,
  beq-cases, arith, Bool-cases, Option-cases, inl, inr,
}
use yanshi_shield.Base.Dict.{Dict, lookup, erase, contains, lookup-erase}
use yanshi_shield.ModelManager.Registry.{
  ModelManager, versions_of, find, is_model_exist, next_free, start_version, counting,
  gen_model_version,
}

module _ {ℓ} {V : Type ℓ} where
  length-erase-le : (k : ℕ) (d : Dict ℕ V) → length (erase k d) ≤ length d
  unfolding erase
  length-erase-le k [] = omega arith
  length-erase-le k ((j, v) ∷ d) = ground (arith, length-erase-le k d)

  -- What is found leaves one entry fewer when it is taken out.
  length-erase_found :
      (k : ℕ) (d : Dict ℕ V) (v : V) → lookup k d ≡ some v → length (erase k d) < length d
  unfolding erase lookup
  length-erase_found k [] v h = absurd cc
  length-erase_found k ((j, w) ∷ d) v h =
      ground (arith, h, length-erase-le k d, length-erase_found k d v)

module _ (version_name : ℕ → ℕ)
    (distinct : (i j : ℕ) → version_name i ≡ version_name j → i ≡ j) where
  -- Taking out one version leaves the others.
  still :
      {V : Type 0} (n j : ℕ) (d : Dict ℕ V)
      → (version_name n ≡ version_name j → ⊥)
      → contains (version_name j) d ≡ true
      → contains (version_name j) (erase (version_name n) d) ≡ true
  unfolding contains
  still n j d other there = elim (beq-cases (version_name n) (version_name j)) [
    | inl (_, same) ↦ absurd (other same)
    | inr (differ, _) ↦
        ground (arith, differ, there, lookup-erase (version_name j) (version_name n) d)
  ]

  -- With more turns than there are versions the loop ends at a version that is free.
  next_free_ends :
      {V : Type 0} (fuel : ℕ) (exists : ℕ → Bool) (n : ℕ) (d : Dict ℕ V)
      → ((j : ℕ) → n ≤ j → exists j ≡ true → contains (version_name j) d ≡ true)
      → length d < fuel
      → (j : ℕ) × (next_free fuel exists n ≡ some j) × (exists j ≡ false)
  unfolding next_free contains
  next_free_ends zero exists n d inside enough = absurd (omega (arith, enough))
  next_free_ends (suc fuel) exists n d inside enough = elim (Bool-cases (exists n)) [
    | inr free ↦ (n, rw free refl, free)
    | inl taken ↦ elim (Option-cases (lookup (version_name n) d)) [
      | inl missing ↦ absurd (ground (arith, inside n (omega arith) taken, missing))
      | inr (v, found) ↦
          let shorter = length-erase_found (version_name n) d v found in
          let (j, stops, free) =
            next_free_ends fuel exists (suc n) (erase (version_name n) d)
              (λ j above taken.
                still n j d (λ same. omega (arith, distinct n j same, above))
                  (inside j (omega (arith, above)) taken))
              (omega (arith, shorter, enough)) in
          (j, rw taken stops, free)
    ]
  ]

  -- A version that is made up is found after finitely many turns, and no model has it yet.
  pub gen_model_version_free :
      (model_key : ℕ → ℕ → ℕ) (namespace name : ℕ) (manager : ModelManager)
      → (version : ℕ) × (after : ModelManager) × (gen_model_version version_name model_key namespace
            name none manager
          ≡ some (version, after))
        × (is_model_exist namespace name (some version) manager.models ≡ false)
  unfolding gen_model_version is_model_exist find contains
  gen_model_version_free model_key namespace name manager =
      let there = versions_of namespace name manager.models in
      let first = start_version version_name model_key namespace name manager in
      let (j, stops, free) =
        next_free_ends (suc (length there))
          (λ n. is_model_exist namespace name (some (version_name n)) manager.models) first there
          (λ j _ h. h) (omega arith) in
      (
        version_name j,
        counting (model_key namespace name) (suc j) manager,
        rw (gen_model_version, stops) refl,
        free,
      )
