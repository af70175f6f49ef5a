-- ===== src/ModelManager/Registry/Ids.antt =====
-- The index by id of neursafe_fl/python/model_manager/manager.py beside the models by name.
use yanshi_shield.Base.{
  ℕ, ◌≡◌, refl, sym, ◌∙◌, subst, true, false, Option, none, some, nat_eq, beq-cases, arith,
  if_holds, beq_refl, inl, inr,
}
use yanshi_shield.Base.Dict.{Dict, lookup, insert, erase, lookup-insert, lookup-erase}
use yanshi_shield.ModelManager.Registry.{ModelRef, ModelManager, find, add_model, remove_model}
use yanshi_shield.ModelManager.Registry.Flat.{
  is_called, find-add_model, find-remove_model, remove_named-found,
}

module _ (id_of : (namespace name version : ℕ) → ℕ) where
  -- A model that is found by its names has the id that they give, and is found by it.
  abbrev IsIndexedAt : Dict ℕ ModelRef → (namespace name version : ℕ) → Option ModelRef → Type 0
  IsIndexedAt index namespace name version none = Unit {0}
  IsIndexedAt index namespace name version (some model) =
      (model.id ≡ id_of namespace name version) × (lookup model.id index ≡ some model)

  abbrev IsIndexed : ModelManager → Type 0
  IsIndexed manager =
      (namespace name version : ℕ)
      → IsIndexedAt manager.id_index namespace name version
          (find namespace name version manager.models)

found_inserted :
    (model : ModelRef) (index : Dict ℕ ModelRef)
    → lookup model.id (insert model.id model index) ≡ some model
found_inserted model index =
    ground (arith, lookup-insert model.id model.id model index, beq_refl model.id)

remove_model_index :
    (namespace : ℕ) (model there : ModelRef) (manager : ModelManager)
    → find namespace model.name model.version manager.models ≡ some there
    → (remove_model namespace model manager).0.id_index ≡ erase model.id manager.id_index
unfolding remove_model
remove_model_index namespace model there manager known =
    rw (remove_model, remove_named-found namespace model there manager.models known) refl

module _ (id_of : (namespace name version : ℕ) → ℕ)
    (distinct : (n m v n' m' v' : ℕ)
      → id_of n m v ≡ id_of n' m' v'
      → is_called n' m' v' n m v ≡ true) where
  insert-IsIndexedAt :
      (namespace name version its_namespace : ℕ) (model : ModelRef) (index : Dict ℕ ModelRef)
      (found : Option ModelRef)
      → model.id ≡ id_of its_namespace model.name model.version
      → is_called namespace name version its_namespace model.name model.version ≡ false
      → IsIndexedAt id_of index namespace name version found
      → IsIndexedAt id_of (insert model.id model index) namespace name version found
  insert-IsIndexedAt namespace name version its_namespace model index none named other h = tt
  insert-IsIndexedAt namespace name version its_namespace model index (some m) named other h = (
    h.0,
    elim (beq-cases model.id m.id) [
      | inl (_, same) ↦ absurd (
          ground (
            arith,
            other,
            distinct its_namespace model.name model.version namespace name version
                (sym named ∙ same ∙ h.0),
          ))
      | inr (differ, _) ↦ ground (arith, differ, h.1, lookup-insert m.id model.id model index)
    ],
  )

  erase-IsIndexedAt :
      (namespace name version its_namespace : ℕ) (model : ModelRef) (index : Dict ℕ ModelRef)
      (found : Option ModelRef)
      → model.id ≡ id_of its_namespace model.name model.version
      → is_called namespace name version its_namespace model.name model.version ≡ false
      → IsIndexedAt id_of index namespace name version found
      → IsIndexedAt id_of (erase model.id index) namespace name version found
  erase-IsIndexedAt namespace name version its_namespace model index none named other h = tt
  erase-IsIndexedAt namespace name version its_namespace model index (some m) named other h = (
    h.0,
    elim (beq-cases model.id m.id) [
      | inl (_, same) ↦ absurd (
          ground (
            arith,
            other,
            distinct its_namespace model.name model.version namespace name version
                (sym named ∙ same ∙ h.0),
          ))
      | inr (differ, _) ↦ ground (arith, differ, h.1, lookup-erase m.id model.id index)
    ],
  )

  id_of_called :
      (namespace name version its_namespace its_name its_version : ℕ)
      → is_called namespace name version its_namespace its_name its_version ≡ true
      → id_of its_namespace its_name its_version ≡ id_of namespace name version
  id_of_called namespace name version its_namespace its_name its_version same =
      let first : its_namespace ≡ namespace = ground (arith, same) in
      let second : its_name ≡ name = ground (arith, same) in
      let third : its_version ≡ version = ground (arith, same) in rw (first, second, third) refl

  -- Where no two names and versions give one id, a model that is added with the id of its names leaves
  -- every model that is found by name found by its id.
  add_model-IsIndexed :
      (its_namespace : ℕ) (model : ModelRef) (manager : ModelManager)
      → model.id ≡ id_of its_namespace model.name model.version
      → IsIndexed id_of manager
      → IsIndexed id_of (add_model its_namespace model manager)
  unfolding add_model
  add_model-IsIndexed its_namespace model manager named h namespace name version =
      subst (IsIndexedAt id_of (insert model.id model manager.id_index) namespace name version)
        (sym (find-add_model namespace name version model its_namespace manager))
        (if_holds
          (IsIndexedAt id_of (insert model.id model manager.id_index) namespace name version)
          (is_called namespace name version its_namespace model.name model.version)
          (λ same. (
            named ∙ id_of_called namespace name version its_namespace model.name model.version same,
            found_inserted model manager.id_index,
          ))
          (λ other.
            insert-IsIndexedAt namespace name version its_namespace model manager.id_index
              (find namespace name version manager.models) named other (h namespace name version)))

  -- And so does a model that is removed.
  remove_model-IsIndexed :
      (its_namespace : ℕ) (model there : ModelRef) (manager : ModelManager)
      → model.id ≡ id_of its_namespace model.name model.version
      → find its_namespace model.name model.version manager.models ≡ some there
      → IsIndexed id_of manager
      → IsIndexed id_of (remove_model its_namespace model manager).0
  unfolding remove_model
  remove_model-IsIndexed its_namespace model there manager named known h namespace name version =
      subst
        (IsIndexedAt id_of (remove_model its_namespace model manager).0.id_index namespace name
          version)
        (sym (find-remove_model namespace name version model there its_namespace manager known))
        (if_holds
          (IsIndexedAt id_of (remove_model its_namespace model manager).0.id_index namespace name
            version)
          (is_called namespace name version its_namespace model.name model.version) (λ _. tt)
          (λ other.
            subst
              (λ (index : Dict ℕ ModelRef).
                IsIndexedAt id_of index namespace name version
                  (find namespace name version manager.models))
              (sym (remove_model_index its_namespace model there manager known))
              (erase-IsIndexedAt namespace name version its_namespace model manager.id_index
                (find namespace name version manager.models) named other
                (h namespace name version))))
