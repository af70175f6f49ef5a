-- ===== src/ModelManager/Tests.antt =====
-- Models that are added, copied and removed (neursafe_fl/python/model_manager).
use yanshi_shield.Base.{
  ℕ, ◌+◌, ◌≡◌, ◌≤◌, refl, true, false, none, some, List, [], ◌∷◌, nat_eq, arith,
}
use yanshi_shield.Base.Dict.{lookup}
use yanshi_shield.ModelManager.Registry.{
  ModelRef, ModelManager, find, add_model, remove_model, gen_model_version, is_model_exist,
}
use yanshi_shield.ModelManager.Registry.Flat.{find-add_model, find-remove_model}
use yanshi_shield.ModelManager.Registry.Versions.{gen_model_version_free}
use yanshi_shield.ModelManager.Model.{
  ready, Model, new_model, Response, Happening, creates, saves, copied, copies_again, deletes,
  removes, happen_all,
}
use yanshi_shield.ModelManager.Model.Copies.{happen_all_copies}
use yanshi_shield.ModelManager.Model.Waiting.{
  IsAwaited, IsSaved, happen_all-IsAwaited, success, copy_after_delete,
}

abbrev first : ModelRef
first = record { object = 1; namespace = 1; name = 5; version = 0; id = 50 }

abbrev second : ModelRef
second = record { object = 2; namespace = 1; name = 5; version = 1; id = 51 }

abbrev empty : ModelManager
empty = record { models = []; id_index = []; versions = [] }

abbrev manager : ModelManager
manager = record {
  models = (1, (5, (0, first) ∷ (1, second) ∷ []) ∷ []) ∷ [];
  id_index = (50, first) ∷ (51, second) ∷ [];
  versions = [];
}

find-add_model_example : find 1 5 1 (add_model 1 second empty).models ≡ some second
unfolding find lookup
find-add_model_example = find-add_model 1 5 1 second 1 empty

find-remove_model_example : find 1 5 1 (remove_model 1 first manager).0.models ≡ some second
unfolding find lookup
find-remove_model_example = find-remove_model 1 5 1 first first 1 manager refl

gen_model_version_free_example :
    (version : ℕ) × (after : ModelManager) × (gen_model_version
        (λ n. n)
        (λ a b. a + b)
        1
        5
        none
        manager
      ≡ some (version, after))
    × (is_model_exist 1 5 (some version) manager.models ≡ false)
gen_model_version_free_example =
    gen_model_version_free (λ n. n) (λ i j same. same) (λ a b. a + b) 1 5 manager

abbrev failing : Response
failing = record { success = false; message = 7; code = 500 }

-- Every copy fails.
abbrev failures : List Happening
failures =
    creates
    ∷ saves
    ∷ copied failing
    ∷ copies_again
    ∷ copied failing
    ∷ copies_again
    ∷ copied failing
    ∷ copies_again
    ∷ []

happen_all_copies_example : (happen_all 3 failures (new_model true)).copies ≤ 3
happen_all_copies_example = happen_all_copies 3 true failures (omega arith)

happen_all-IsAwaited_example :
    IsAwaited (happen_all 3 failures (new_model true))
    × IsSaved (happen_all 3 failures (new_model true))
happen_all-IsAwaited_example = happen_all-IsAwaited 3 failures true

abbrev failed_once : Model
failed_once = happen_all 3 (creates ∷ saves ∷ copied failing ∷ []) (new_model true)

copy_after_delete_example :
    (let after =
        happen_all 3 (deletes ∷ removes success ∷ copies_again ∷ copied success ∷ []) failed_once in
      (after.removed ≡ true) × (after.saved ≡ some (ready, some 7)))
unfolding happen_all
copy_after_delete_example = copy_after_delete 3 failed_once refl refl refl refl refl
