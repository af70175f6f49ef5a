-- ===== src/ModelManager/Model/Copies.antt =====
-- How often a model is copied (neursafe_fl/python/model_manager/model.py).
use yanshi_shield.Base.{
  ℕ, suc, ◌≤◌, ◌≡◌, refl, Bool, true, false, List, [], ◌∷◌, arith, inl, inr, ◌⊎◌,
}
use yanshi_shield.ModelManager.Model.{
  Model, new_model, Happening, creates, saves, copied, copies_again, updates, times_out, deletes,
  removes, removes_again, create, retry_copy, copy_callback, upload_heartbeat, update, delete,
  delete_callback, happen, happen_all,
}

-- How the copies that were asked for, those under way and the count of the tries belong together
abbrev IsCounted : (retry_times : ℕ) → Model → Type 0
IsCounted retry_times model =
    (model.copies ≤ retry_times)
    × ((model.created ≡ false) ⊎ (model.copies ≤ suc model.retry_count))
    × ((model.created ≡ true)
        ⊎ ((model.copies ≡ 0) × (model.copying ≡ false) × (model.copy_again ≡ false)))
    × ((model.copy_again ≡ false)
        ⊎ ((model.copying ≡ false)
            × (model.copies ≤ model.retry_count)
            × (suc model.copies ≤ retry_times)))

happen-IsCounted :
    (retry_times : ℕ) (happening : Happening) (model : Model)
    → 1 ≤ retry_times
    → IsCounted retry_times model
    → IsCounted retry_times (happen retry_times happening model)
unfolding happen create copy_callback retry_copy update upload_heartbeat delete delete_callback
happen-IsCounted retry_times creates model once h = ground (arith, once, h)
happen-IsCounted retry_times saves model once h = ground (arith, once, h)
happen-IsCounted retry_times (copied response) model once h = ground (arith, once, h)
happen-IsCounted retry_times copies_again model once h = ground (arith, once, h)
happen-IsCounted retry_times (updates info) model once h = ground (arith, once, h)
happen-IsCounted retry_times times_out model once h = ground (arith, once, h)
happen-IsCounted retry_times deletes model once h = ground (arith, once, h)
happen-IsCounted retry_times (removes response) model once h = ground (arith, once, h)
happen-IsCounted retry_times removes_again model once h = ground (arith, once, h)

happen_all-IsCounted :
    (retry_times : ℕ) (happenings : List Happening) (model : Model)
    → 1 ≤ retry_times
    → IsCounted retry_times model
    → IsCounted retry_times (happen_all retry_times happenings model)
unfolding happen_all
happen_all-IsCounted retry_times [] model once h = h
happen_all-IsCounted retry_times (happening ∷ later) model once h =
    happen_all-IsCounted retry_times later (happen retry_times happening model) once
      (happen-IsCounted retry_times happening model once h)

-- Whatever happens to a new model, the storage is asked to copy it no more than RETRY_TIMES times.
pub happen_all_copies :
    (retry_times : ℕ) (has_path : Bool) (happenings : List Happening)
    → 1 ≤ retry_times
    → (happen_all retry_times happenings (new_model has_path)).copies ≤ retry_times
happen_all_copies retry_times has_path happenings once =
    (happen_all-IsCounted retry_times happenings (new_model has_path) once
      (omega arith, inl refl, inr (refl, refl, refl), inl refl)).0
