-- ===== src/ModelManager/Registry/Flat.antt =====
-- The nested dicts of neursafe_fl/python/model_manager/manager.py as one map from a namespace, a name and
-- a version to a model.
use yanshi_shield.Base.{
  ℕ, ◌≡◌, refl, ap, ap₂, sym, ◌∙◌, Bool, true, false, ◌&&◌, Option, none, some, List, [], ◌∷◌,
  if◌then◌else◌, nat_beq, nat_eq, beq-cases, arith, ok, Option-cases, inl, inr,
}
use yanshi_shield.Base.Dict.{Dict, lookup, insert, erase, contains, lookup-insert, lookup-erase}
use yanshi_shield.ModelManager.Registry.{
  ModelRef, Named, Models, ModelManager, list_at, versions_of, find, add_named, add_model,
  put_unless_empty, remove_named, remove_model,
}

-- Whether a model goes by these names
abbrev pub is_called :
    (namespace name version : ℕ) → (its_namespace its_name its_version : ℕ) → Bool
is_called namespace name version its_namespace its_name its_version =
    nat_beq its_namespace namespace && (nat_beq its_name name && nat_beq its_version version)

module _ {ℓ} {A : Type ℓ} where
  list_at-insert :
      (j k : ℕ) (l : List A) (d : Dict ℕ (List A))
      → list_at j (insert k l d) ≡ (if nat_beq k j then l else list_at j d)
  list_at-insert j k l d = ground (arith, lookup-insert j k l d)

  list_at-put_unless_empty :
      (j k : ℕ) (l : List A) (d : Dict ℕ (List A))
      → list_at j (put_unless_empty k l d) ≡ (if nat_beq k j then l else list_at j d)
  list_at-put_unless_empty j k [] d = ground (arith, lookup-erase j k d)
  list_at-put_unless_empty j k (a ∷ l) d = list_at-insert j k (a ∷ l) d

added :
    (model : ModelRef) (named : Named)
    → add_named model (some named)
      ≡ insert model.name (insert model.version model (list_at model.name named)) named
unfolding add_named insert
added model named = elim (Option-cases (lookup model.name named)) [
  | inl missing ↦ rw (add_named, list_at, missing) refl
  | inr (versions, found) ↦ rw (add_named, list_at, found) refl
]

-- `__add_model` writes one entry of one dict of versions, whether or not the dicts are there.
add_named-insert :
    (model : ModelRef) (namespace : ℕ) (models : Models)
    → add_named model (lookup namespace models)
      ≡ insert model.name
          (insert model.version model (versions_of namespace model.name models))
          (list_at namespace models)
unfolding add_named insert lookup
add_named-insert model namespace models = elim (Option-cases (lookup namespace models)) [
  | inl missing ↦ rw (list_at, missing) refl
  | inr (named, found) ↦
      ap (add_named model) found
      ∙ added model named
      ∙ ap (λ l. insert model.name (insert model.version model (list_at model.name l)) l)
          (sym (rw (list_at, found) refl))
]

module _ {ℓ} {A : Type ℓ} (x y : A) {b : Bool} where
  chosen : b ≡ true → (if b then x else y) ≡ x
  chosen h = rw h refl

  not_chosen : b ≡ false → (if b then x else y) ≡ y
  not_chosen h = rw h refl

-- An entry written at the third level, read at the third level
three_levels :
    (namespace name version its_namespace its_name its_version : ℕ) (models models' : Models)
    (named' : Named) (versions' : Dict ℕ ModelRef) (new : Option ModelRef)
    → list_at namespace models'
      ≡ (if nat_beq its_namespace namespace then named' else list_at namespace models)
    → list_at name named'
      ≡ (if nat_beq its_name name then versions' else list_at name (list_at its_namespace models))
    → lookup version versions' ≡ (
        if nat_beq its_version version
        then new
        else lookup version (versions_of its_namespace its_name models))
    → find namespace name version models' ≡ (
        if is_called namespace name version its_namespace its_name its_version
        then new
        else find namespace name version models)
unfolding find
three_levels namespace name version its_namespace its_name its_version models models' named'
      versions' new outer middle inner =
    elim (beq-cases its_namespace namespace) [
      | inr (other, _) ↦
          ap (λ named. lookup version (list_at name named))
            (outer ∙ not_chosen named' (list_at namespace models) other)
          ∙ rw other refl
      | inl (here, same) ↦
          let written =
            ap (λ named. lookup version (list_at name named))
              (outer ∙ chosen named' (list_at namespace models) here) in
          elim (beq-cases its_name name) [
            | inr (other, _) ↦
                let kept =
                  middle
                  ∙ not_chosen versions' (list_at name (list_at its_namespace models)) other
                  ∙ ap (λ n. list_at name (list_at n models)) same in
                written ∙ ap (lookup version) kept ∙ rw (here, other) refl
            | inl (there, same_name) ↦
                let old = ap₂ (λ n m. lookup version (versions_of n m models)) same same_name in
                written
                ∙ ap (lookup version)
                    (middle ∙ chosen versions' (list_at name (list_at its_namespace models)) there)
                ∙ inner
                ∙ ap (λ before. if nat_beq its_version version then new else before) old
                ∙ rw (here, there) refl
          ]
    ]

-- What `__add_model` does to the map: the model is found under its names, and all others are as before.
pub find-add_model :
    (namespace name version : ℕ) (model : ModelRef) (its_namespace : ℕ) (manager : ModelManager)
    → find namespace name version (add_model its_namespace model manager).models ≡ (
        if is_called namespace name version its_namespace model.name model.version
        then some model
        else find namespace name version manager.models)
unfolding add_model find
find-add_model namespace name version model its_namespace manager =
    let models = manager.models in
    let versions = insert model.version model (versions_of its_namespace model.name models) in
    let named = insert model.name versions (list_at its_namespace models) in
    rw (add_named-insert model its_namespace models) (
      three_levels namespace name version its_namespace model.name model.version models
        (insert its_namespace named models) named versions (some model)
        (list_at-insert namespace its_namespace named models)
        (list_at-insert name model.name versions (list_at its_namespace models))
        (lookup-insert version model.version model (versions_of its_namespace model.name models)))

-- A model that is found has its dicts.
pub remove_named-found :
    (namespace : ℕ) (model there : ModelRef) (models : Models)
    → find namespace model.name model.version models ≡ some there
    → remove_named namespace model models
      ≡ ok (
          put_unless_empty namespace
            (put_unless_empty model.name
              (erase model.version (versions_of namespace model.name models))
              (list_at namespace models))
            models)
unfolding remove_named find contains lookup
remove_named-found namespace model there models h = elim (Option-cases (lookup namespace models)) [
  | inl missing ↦ absurd (none_is_not_some (sym (rw (list_at, missing) refl) ∙ h))
  | inr (named, found) ↦ elim (Option-cases (lookup model.name named)) [
    | inl missing ↦ absurd (none_is_not_some (sym (rw (list_at, found, missing) refl) ∙ h))
    | inr (versions, at_name) ↦
        let at_version : lookup model.version versions ≡ some there =
          sym (rw (list_at, found, at_name) refl) ∙ h in
        rw (remove_named, list_at, contains, found, at_name, at_version) refl
  ]
]
  where
    none_is_not_some : ◌≡◌ {A = Option ModelRef} none (some there) → ⊥
    none_is_not_some h = cc

-- What `__remove_model` does to the map: a model that is found under its names is found no more, and all
-- others are as before.
pub find-remove_model :
    (namespace name version : ℕ) (model there : ModelRef) (its_namespace : ℕ)
    (manager : ModelManager)
    → find its_namespace model.name model.version manager.models ≡ some there
    → find namespace name version (remove_model its_namespace model manager).0.models ≡ (
        if is_called namespace name version its_namespace model.name model.version
        then none
        else find namespace name version manager.models)
unfolding remove_model
find-remove_model namespace name version model there its_namespace manager h =
    let models = manager.models in
    let versions = erase model.version (versions_of its_namespace model.name models) in
    let named = put_unless_empty model.name versions (list_at its_namespace models) in
    rw (remove_model, remove_named-found its_namespace model there models h)
      (three_levels namespace name version its_namespace model.name model.version models
        (put_unless_empty its_namespace named models) named versions none
        (list_at-put_unless_empty namespace its_namespace named models)
        (list_at-put_unless_empty name model.name versions (list_at its_namespace models))
        (lookup-erase version model.version (versions_of its_namespace model.name models)))
