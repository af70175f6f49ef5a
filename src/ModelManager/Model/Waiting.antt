-- ===== src/ModelManager/Model/Waiting.antt =====
-- What a model waits for, and what its row in the database says (neursafe_fl/python/model_manager/model.py).
use yanshi_shield.Base.{ℕ, ◌≡◌, refl, Bool, true, false, some, List, [], ◌∷◌, arith, inl, ◌⊎◌}
use yanshi_shield.ModelManager.Model.{
  ModelState, unready, ready, error, deleting, Model, new_model, Response, Happening, creates,
  saves, copied, copies_again, updates, times_out, deletes, removes, removes_again, create,
  retry_copy, copy_callback, upload_heartbeat, update, delete, delete_callback, happen, happen_all,
}

abbrev is_unready : ModelState → Bool
is_unready unready = true
is_unready _ = false

abbrev is_deleting : ModelState → Bool
is_deleting deleting = true
is_deleting _ = false

-- A model that is not ready waits for a heartbeat, with a timer that ends the wait, or for a copy.
abbrev pub IsAwaited : Model → Type 0
IsAwaited model =
    (model.created ≡ false)
    ⊎ (is_unready model.state ≡ false)
    ⊎ (model.heartbeat_timer ≡ true)
    ⊎ (model.copying ≡ true)

-- The row of the database is there from the first save on until the model is removed, and it has the
-- state and the message of the model.
abbrev pub IsSaved : Model → Type 0
IsSaved model =
    (model.created ≡ false)
    ⊎ (model.saving ≡ true)
    ⊎ (model.removed ≡ true)
    ⊎ (model.saved ≡ some (model.state, model.error_msg))

happen-IsAwaited :
    (retry_times : ℕ) (happening : Happening) (model : Model)
    → IsAwaited model × IsSaved model
    → IsAwaited (happen retry_times happening model) × IsSaved (happen retry_times happening model)
unfolding happen create copy_callback retry_copy update upload_heartbeat delete delete_callback
happen-IsAwaited retry_times creates model h = ground (arith, h)
happen-IsAwaited retry_times saves model h = ground (arith, h)
happen-IsAwaited retry_times (copied response) model h = ground (arith, h)
happen-IsAwaited retry_times copies_again model h = ground (arith, h)
happen-IsAwaited retry_times (updates info) model h = ground (arith, h)
happen-IsAwaited retry_times times_out model h = ground (arith, h)
happen-IsAwaited retry_times deletes model h = ground (arith, h)
happen-IsAwaited retry_times (removes response) model h = ground (arith, h)
happen-IsAwaited retry_times removes_again model h = ground (arith, h)

happen_all-IsSaved :
    (retry_times : ℕ) (happenings : List Happening) (model : Model)
    → IsAwaited model × IsSaved model
    → IsAwaited (happen_all retry_times happenings model)
      × IsSaved (happen_all retry_times happenings model)
unfolding happen_all
happen_all-IsSaved retry_times [] model h = h
happen_all-IsSaved retry_times (happening ∷ later) model h =
    happen_all-IsSaved retry_times later (happen retry_times happening model)
      (happen-IsAwaited retry_times happening model h)

-- Whatever happens to a new model: from its creation on, while its state is UNREADY, a heartbeat
-- timer runs or a copy is under way, and from its first save until it is removed the database has
-- its state and its message.
pub happen_all-IsAwaited :
    (retry_times : ℕ) (happenings : List Happening) (has_path : Bool)
    → IsAwaited (happen_all retry_times happenings (new_model has_path))
      × IsSaved (happen_all retry_times happenings (new_model has_path))
happen_all-IsAwaited retry_times happenings has_path =
    happen_all-IsSaved retry_times happenings (new_model has_path) (inl refl, inl refl)

abbrev pub success : Response
success = record { success = true; message = 0; code = 200 }

-- A model with an error that is to be copied again may be deleted. The copy is made nevertheless, and then
-- the model that was removed is in the database again, as one that is ready.
pub copy_after_delete :
    (retry_times : ℕ) (model : Model)
    → model.created ≡ true
    → model.saving ≡ false
    → model.removed ≡ false
    → model.state ≡ error
    → model.copy_again ≡ true
    → (let after =
          happen_all retry_times
            (deletes ∷ removes success ∷ copies_again ∷ copied success ∷ [])
            model in
        (after.removed ≡ true) × (after.saved ≡ some (ready, model.error_msg)))
unfolding happen_all happen copy_callback delete delete_callback
copy_after_delete retry_times model created saving removed state again =
    ground (arith, created, saving, removed, state, again)
