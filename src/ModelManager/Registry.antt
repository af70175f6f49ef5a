-- ===== src/ModelManager/Registry.antt =====
-- neursafe_fl/python/model_manager/manager.py: the models by namespace, name and version, the index by
-- id, and the versions that are made up. A model is a reference to its object with the fields that never
-- change. Strings are numbers; how a key, an id and a version are put together are arguments, and so is
-- what `validate_config` says.
pub mod Flat
pub mod Versions
pub mod Ids
use yanshi_shield.Base.{
  ℕ, zero, suc, ◌+◌, ◌≡◌, refl, Bool, true, false, not, ◌&&◌, Option, none, some, List, [], ◌∷◌,
  if◌then◌else◌, length, map, nat_eq, Result, ok, raise, ◌>>=◌, ◌>>◌, raise_if,
}
use yanshi_shield.Base.Dict.{Dict, lookup, insert, erase, contains, values}

pub record ModelRef : Type 0 where
  pub object : ℕ
  pub namespace : ℕ
  pub name : ℕ
  pub version : ℕ
  pub id : ℕ

abbrev pub Named : Type 0
Named = Dict ℕ (Dict ℕ ModelRef)

abbrev pub Models : Type 0
Models = Dict ℕ Named

pub record ModelManager : Type 0 where
  pub models : Models
  pub id_index : Dict ℕ ModelRef
  pub versions : Dict ℕ ℕ

pub data ManagerError : Type 0 where
  model_id_not_exist model_not_exist model_already_exist key_error config_error : ManagerError

-- The list under a key, empty where there is none
abbrev pub list_at {ℓ} : {A : Type ℓ} → ℕ → Dict ℕ (List A) → List A
list_at key d = elim (lookup key d) [ none ↦ [] | some l ↦ l ]

abbrev pub versions_of : (namespace name : ℕ) → Models → Dict ℕ ModelRef
versions_of namespace name models = list_at name (list_at namespace models)

-- The model under a namespace, a name and a version
unfoldable pub find : (namespace name version : ℕ) → Models → Option ModelRef
unfolding lookup
find namespace name version models = lookup version (versions_of namespace name models)

-- `__is_model_exist` without a version
unfoldable has_name : (namespace name : ℕ) → Models → Bool
unfolding contains lookup
has_name namespace name models = elim (lookup namespace models) [
  | none ↦ false
  | some named ↦ contains name named
]

-- `__is_model_exist`
unfoldable pub is_model_exist : (namespace name : ℕ) → (version : Option ℕ) → Models → Bool
unfolding has_name find
is_model_exist namespace name none models = has_name namespace name models
is_model_exist namespace name (some version) models = elim (find namespace name version models) [
  | none ↦ false
  | some _ ↦ true
]

-- `__add_model` to the models by name
unfoldable pub add_named : ModelRef → Option Named → Named
unfolding lookup insert
add_named model none = (model.name, (model.version, model) ∷ []) ∷ []
add_named model (some named) = elim (lookup model.name named) [
  | none ↦ insert model.name ((model.version, model) ∷ []) named
  | some versions ↦ insert model.name (insert model.version model versions) named
]

-- `__add_model`
unfoldable pub add_model : (namespace : ℕ) → ModelRef → ModelManager → ModelManager
unfolding add_named lookup insert
add_model namespace model manager = record {
  models = insert namespace (add_named model (lookup namespace manager.models)) manager.models;
  id_index = insert model.id model manager.id_index;
  versions = manager.versions;
}

-- `d[key] = value`, or `d.pop(key)` where the value is empty
abbrev pub put_unless_empty {ℓ} : {A : Type ℓ} → ℕ → List A → Dict ℕ (List A) → Dict ℕ (List A)
put_unless_empty key [] d = erase key d
put_unless_empty key (a ∷ value) d = insert key (a ∷ value) d

-- The first part of `__remove_model`
unfoldable pub remove_named : (namespace : ℕ) → ModelRef → Models → Result ManagerError Models
unfolding lookup insert erase contains
remove_named namespace model models = elim (lookup namespace models) [
  | none ↦ raise key_error
  | some named ↦ elim (lookup model.name named) [
    | none ↦ raise key_error
    | some versions ↦
        if contains model.version versions
        then ok (
            put_unless_empty namespace
              (put_unless_empty model.name (erase model.version versions) named) models)
        else raise key_error
  ]
]

-- `__remove_model`, where an exception leaves what was done before
unfoldable pub remove_model :
    (namespace : ℕ) → ModelRef → ModelManager → ModelManager × Result ManagerError (Unit {0})
unfolding remove_named contains erase
remove_model namespace model manager = elim (remove_named namespace model manager.models) [
  | raise failure ↦ (manager, raise failure)
  | ok models ↦ (
    record {
      models = models;
      id_index = erase model.id manager.id_index;
      versions = manager.versions;
    },
    raise_if (not (contains model.id manager.id_index)) key_error,
  )
]

-- `on_delete_finish`
abbrev on_delete_finish : ModelRef → ModelManager → ModelManager × Result ManagerError (Unit {0})
on_delete_finish model manager = remove_model model.namespace model manager

-- `while self.__is_model_exist(...)`: the first number from one on whose version is free
unfoldable pub next_free : (fuel : ℕ) → (exists : ℕ → Bool) → (version_id : ℕ) → Option ℕ
next_free zero exists version_id = none
next_free (suc fuel) exists version_id =
    let rest = next_free fuel exists (suc version_id) in
    if exists version_id then rest else some version_id

-- `self.__versions[model_key] = version_id`
unfoldable pub counting : (model_key version_id : ℕ) → ModelManager → ModelManager
unfolding insert
counting model_key version_id manager = record {
  models = manager.models;
  id_index = manager.id_index;
  versions = insert model_key version_id manager.versions;
}

module _ (version_name : ℕ → ℕ) (model_key : ℕ → ℕ → ℕ) where
  -- The number that `__gen_model_version` starts from
  abbrev pub start_version : (namespace name : ℕ) → ModelManager → ℕ
  start_version namespace name manager = elim (lookup (model_key namespace name) manager.versions) [
    | none ↦ 0
    | some n ↦ n
  ]

  -- `__gen_model_version`; the loop has a turn for every version there is, and one more.
  unfoldable pub gen_model_version :
      (namespace name : ℕ) → (version : Option ℕ) → ModelManager → Option (ℕ × ModelManager)
  unfolding next_free is_model_exist counting lookup
  gen_model_version namespace name (some version) manager = some (version, manager)
  gen_model_version namespace name none manager =
      elim (next_free (suc (length (versions_of namespace name manager.models)))
        (λ n. is_model_exist namespace name (some (version_name n)) manager.models)
        (start_version namespace name manager)) [
          | none ↦ none
          | some n ↦ some (version_name n, counting (model_key namespace name) (suc n) manager)
        ]

  -- `create_model` up to `model.create()`: the version of the model that is created
  unfoldable create_begin :
      (valid : ℕ → Bool)
      → (namespace name : ℕ) → (version : Option ℕ) → ModelManager
      → Option (ModelManager × Result ManagerError ℕ)
  unfolding gen_model_version is_model_exist
  create_begin valid namespace name version manager =
      let taken : Bool = elim version [
        | none ↦ false
        | some v ↦ is_model_exist namespace name (some v) manager.models
      ] in
      if taken
      then some (manager, raise model_already_exist)
      else (elim (gen_model_version namespace name version manager) [
        | none ↦ none
        | some (given, after) ↦ some (after, (if valid given then ok given else raise config_error))
      ])

-- `get_model_by_id`
unfoldable get_model_by_id : (model_id : ℕ) → ModelManager → Result ManagerError ModelRef
unfolding lookup
get_model_by_id model_id manager = elim (lookup model_id manager.id_index) [
  | none ↦ raise model_id_not_exist
  | some model ↦ ok model
]

-- `get_model`; the objects that `delete_model` deletes are those that it finds.
unfoldable get_model :
    (namespace name : ℕ) → (version : Option ℕ) → ModelManager → Result ManagerError (List ModelRef)
unfolding has_name find lookup
get_model namespace name version manager =
    raise_if (not (has_name namespace name manager.models)) model_not_exist >> (elim version [
      | none ↦ ok (values (versions_of namespace name manager.models))
      | some v ↦ elim (find namespace name v manager.models) [
        | none ↦ raise model_not_exist
        | some model ↦ ok (model ∷ [])
      ]
    ])

-- `get_models`
unfoldable get_models :
    (namespace : ℕ) → ModelManager → Result ManagerError (Dict ℕ (List ModelRef))
unfolding lookup
get_models namespace manager = elim (lookup namespace manager.models) [
  | none ↦ raise model_not_exist
  | some named ↦ ok (map (λ p. (p.0, values p.1)) named)
]

-- The model that `update_model` updates: by its id, where there is one, and else by its names
unfoldable model_to_update :
    (model_id : Option ℕ)
    → (namespace name version : ℕ) → ModelManager
    → Result ManagerError ModelRef
unfolding find lookup
model_to_update model_id namespace name version manager =
    let indexed : Option ModelRef = elim model_id [
      | none ↦ none
      | some id ↦ lookup id manager.id_index
    ] in
    elim indexed [
      | some model ↦ ok model
      | none ↦ elim (find namespace name version manager.models) [
        | none ↦ raise model_not_exist
        | some model ↦ ok model
      ]
    ]
