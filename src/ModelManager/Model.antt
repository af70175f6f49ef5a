-- ===== src/ModelManager/Model.antt =====
-- neursafe_fl/python/model_manager/model.py: the life of one model, as the segments between which its
-- coroutines wait: for the storage to copy or to delete, for a heartbeat, or for a timer. What is asked
-- of the storage and of the event loop are fields beside those of the source. `saved` is the row of the
-- database, and `removed` says that the manager was called back.
pub mod Copies
pub mod Waiting
use yanshi_shield.Base.{
  ℕ, zero, suc, ◌+◌, ◌<◌, ◌≡◌, refl, Bool, true, false, not, ◌&&◌, ◌||◌, Option, none, some, List,
  [], ◌∷◌, if◌then◌else◌, nat_beq, ltb,
}

pub data ModelState : Type 0 where
  unready ready error deleting : ModelState

pub record Model : Type 0 where
  -- whether the model comes from a path in the cloud
  pub has_path : Bool
  pub state : ModelState
  pub error_msg : Option ℕ
  pub progress : Option ℕ
  pub retry_count : ℕ
  -- whether `create` has begun, and whether it is to save the model
  pub created : Bool
  pub saving : Bool
  -- what is under way: the heartbeat's timer, a copy, a copy that is tried again, a deletion, and a
  -- deletion that is tried again
  pub heartbeat_timer : Bool
  pub copying : Bool
  pub copy_again : Bool
  pub removing : Bool
  pub remove_again : Bool
  -- how many copies were asked of the storage
  pub copies : ℕ
  pub saved : Option (ModelState × Option ℕ)
  pub removed : Bool

-- `Model(config, ...)`
abbrev pub new_model : (has_path : Bool) → Model
new_model has_path = record {
  has_path = has_path;
  state = unready;
  error_msg = none;
  progress = some 0;
  retry_count = 0;
  created = false;
  saving = false;
  heartbeat_timer = false;
  copying = false;
  copy_again = false;
  removing = false;
  remove_again = false;
  copies = 0;
  saved = none;
  removed = false;
}

-- An answer of the storage: whether its state is "success", its message and its code
pub record Response : Type 0 where
  pub success : Bool
  pub message : ℕ
  pub code : ℕ

pub data UploadState : Type 0 where
  uploaded failed uploading : UploadState

-- What a heartbeat says
pub record UpdateInfo : Type 0 where
  pub progress : Option ℕ
  pub state : Option UploadState

-- `__save_in_db`
abbrev save_in_db : Model → Model
save_in_db model = record model { saved = some (model.state, model.error_msg) }

-- `create`, up to the save
unfoldable pub create : Model → Model
create model =
    if model.has_path
    then record model { created = true; saving = true; copying = true; copies = suc model.copies }
    else record model { created = true; saving = true; heartbeat_timer = true }

-- The end of `create`
abbrev create_saves : Model → Model
create_saves model = save_in_db (record model { saving = false })

-- `__retry_copy`, after RETRY_TIMES copies no more
unfoldable pub retry_copy : (retry_times : ℕ) → Model → Model
retry_copy retry_times model =
    if ltb (suc model.retry_count) retry_times
    then record model { retry_count = suc model.retry_count; copy_again = true }
    else record model { retry_count = suc model.retry_count }

-- `__copy_callback`; what is not there (404) is not tried again.
unfoldable pub copy_callback : (retry_times : ℕ) → Response → Model → Model
unfolding retry_copy
copy_callback retry_times response model =
    if response.success
    then save_in_db (record model { copying = false; state = ready })
    else (let failing : Model = record model {
      copying = false;
      error_msg = some response.message;
      state = error;
    } in
        save_in_db (if nat_beq response.code 404 then failing else retry_copy retry_times failing))

-- The timer of `__retry_copy`: `__copy_model`
abbrev copy_model : Model → Model
copy_model model = record model { copy_again = false; copying = true; copies = suc model.copies }

-- Whether a heartbeat says something; a progress of 0 does not.
abbrev says_something : UpdateInfo → Bool
says_something info =
    (elim info.progress [ none ↦ false | some n ↦ not (nat_beq n 0) ])
    || (elim info.state [ none ↦ false | some _ ↦ true ])

-- `__upload_heartbeat`
unfoldable pub upload_heartbeat : UpdateInfo → Model → Model
upload_heartbeat info model = elim info.state [
  | some uploaded ↦ save_in_db (record model { heartbeat_timer = false; state = ready })
  | some failed ↦ save_in_db (record model { heartbeat_timer = false; state = error })
  | _ ↦ save_in_db (record model { progress = info.progress; heartbeat_timer = true })
]

-- `update`, which raises NotImplementedError where nothing is said
unfoldable pub update : UpdateInfo → Model → Model
unfolding upload_heartbeat
update info model = if says_something info then upload_heartbeat info model else model

-- `__heartbeat_timeout`
abbrev heartbeat_timeout : Model → Model
heartbeat_timeout model = save_in_db (record model { state = error; heartbeat_timer = false })

abbrev may_delete : ModelState → Bool
may_delete unready = false
may_delete deleting = false
may_delete _ = true

-- `delete`, which raises ModelStateError where the model may not be deleted
unfoldable pub delete : Model → Model
delete model =
    if may_delete model.state
    then record (save_in_db (record model { state = deleting })) { removing = true }
    else model

-- `__delete_callback`
unfoldable pub delete_callback : Response → Model → Model
delete_callback response model =
    if response.success || nat_beq response.code 404
    then record model { removing = false; saved = none; removed = true }
    else record model { removing = false; remove_again = true }

-- The timer of `__delete_callback`: `__do_delete`
abbrev do_delete : Model → Model
do_delete model = record model { remove_again = false; removing = true }

-- What may happen to a model
pub data Happening : Type 0 where
  creates saves copies_again times_out removes_again deletes : Happening
  copied removes : Response → Happening
  updates : UpdateInfo → Happening

-- Whether it may happen now: an answer needs a question, and a timer must run. The manager knows a model
-- that was created and saved, until it is removed.
abbrev is_due : Happening → Model → Bool
is_due creates model = not model.created
is_due saves model = model.saving
is_due (copied _) model = model.copying
is_due copies_again model = model.copy_again
is_due (updates _) model = model.created && (not model.saving && not model.removed)
is_due times_out model = model.heartbeat_timer
is_due deletes model = model.created && (not model.saving && not model.removed)
is_due (removes _) model = model.removing
is_due removes_again model = model.remove_again

abbrev handle : (retry_times : ℕ) → Happening → Model → Model
handle retry_times creates model = create model
handle retry_times saves model = create_saves model
handle retry_times (copied response) model = copy_callback retry_times response model
handle retry_times copies_again model = copy_model model
handle retry_times (updates info) model = update info model
handle retry_times times_out model = heartbeat_timeout model
handle retry_times deletes model = delete model
handle retry_times (removes response) model = delete_callback response model
handle retry_times removes_again model = do_delete model

-- What is not due does not happen.
unfoldable pub happen : (retry_times : ℕ) → Happening → Model → Model
unfolding create copy_callback update delete delete_callback
happen retry_times happening model =
    if is_due happening model then handle retry_times happening model else model

unfoldable pub happen_all : (retry_times : ℕ) → List Happening → Model → Model
unfolding happen
happen_all retry_times [] model = model
happen_all retry_times (happening ∷ later) model =
    happen_all retry_times later (happen retry_times happening model)
