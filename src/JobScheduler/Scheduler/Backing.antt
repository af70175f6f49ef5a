-- ===== src/JobScheduler/Scheduler/Backing.antt =====
-- What the calls of the scheduler do to the active jobs and the database
-- (neursafe_fl/python/job_scheduler/scheduler.py).
use yanshi_shield.Base.{
  ℕ, ◌≡◌, refl, sym, ◌∙◌, true, false, none, some, List, [], ◌∷◌, arith, nat_eq, pair_eq, ◌==◌,
  Bool-cases, inl, inr, Result, ok, raise, ◌>>=◌, beq-cases,
}
use yanshi_shield.Base.Dict.{Dict, lookup, insert, erase, contains, lookup-insert, lookup-erase}
use yanshi_shield.JobScheduler.Job.{Stored}
use yanshi_shield.JobScheduler.Job.Segments.{
  Action, finish_callback, delete_callback, create_coordinator, delete_coordinator,
  stop_coordinator, create_proxy_route, delete_proxy_route, delete_ckpts,
}
use yanshi_shield.JobScheduler.Scheduler.{
  JobKey, SchedulerError, Scheduler, replace_in_db, call_back, scheduler_after,
}

-- A job that the database does not hold is not active.
abbrev pub IsBacked : Scheduler → Type 0
IsBacked self = (key : JobKey) → lookup key self.db ≡ none → lookup key self.active_jobs ≡ none

-- Without a key's entry
erase-Backed :
    (key j : JobKey) (active : Dict JobKey ℕ)
    → lookup j active ≡ none
    → lookup j (erase key active) ≡ none
erase-Backed key j active h = elim (Bool-cases (key == j)) [
  | inl same ↦ lookup-erase j key active ∙ rw same refl
  | inr other ↦ lookup-erase j key active ∙ rw other h
]

erase_both :
    (key j : JobKey) (active : Dict JobKey ℕ) (db : Dict JobKey Stored)
    → (lookup j db ≡ none → lookup j active ≡ none)
    → lookup j (erase key db) ≡ none
    → lookup j (erase key active) ≡ none
erase_both key j active db backed h = elim (Bool-cases (key == j)) [
  | inl same ↦ lookup-erase j key active ∙ rw same refl
  | inr other ↦
      lookup-erase j key active
      ∙ rw other (backed (sym (lookup-erase j key db ∙ rw other refl) ∙ h))
]

inserted :
    (key j : JobKey) (stored : Stored) (db : Dict JobKey Stored)
    → (key == j) ≡ true
    → ¬ (lookup j (insert key stored db) ≡ none)
inserted key j stored db same h =
    let found : lookup j (insert key stored db) ≡ some stored =
      lookup-insert j key stored db ∙ rw same refl in
    cc

unchanged :
    (key j : JobKey) (stored : Stored) (db : Dict JobKey Stored)
    → (key == j) ≡ false
    → lookup j (insert key stored db) ≡ lookup j db
unchanged key j stored db other = lookup-insert j key stored db ∙ rw other refl

-- A key in the dict is no missing one.
pub present :
    (key j : JobKey) (stored : Stored) (db : Dict JobKey Stored)
    → (key == j) ≡ true
    → lookup key db ≡ some stored
    → ¬ (lookup j db ≡ none)
present key j stored db same found gone = ground (arith, beq-cases key j)

pub insert_both :
    (key j : JobKey) (object : ℕ) (stored : Stored) (active : Dict JobKey ℕ)
    (db : Dict JobKey Stored)
    → (lookup j db ≡ none → lookup j active ≡ none)
    → lookup j (insert key stored db) ≡ none
    → lookup j (insert key object active) ≡ none
insert_both key j object stored active db backed h = elim (Bool-cases (key == j)) [
  | inl same ↦ absurd (inserted key j stored db same h)
  | inr other ↦
      lookup-insert j key object active
      ∙ rw other (backed (sym (unchanged key j stored db other) ∙ h))
]

-- An insert keeps every key.
lookup-insert-none :
    (key j : JobKey) (stored : Stored) (db : Dict JobKey Stored)
    → lookup j (insert key stored db) ≡ none
    → lookup j db ≡ none
lookup-insert-none key j stored db h = elim (Bool-cases (key == j)) [
  | inl same ↦ absurd (inserted key j stored db same h)
  | inr other ↦ sym (unchanged key j stored db other) ∙ h
]

pub lookup-replace_in_db :
    (key j : JobKey) (stored : Stored) (db : Dict JobKey Stored)
    → lookup j (replace_in_db key stored db) ≡ none
    → lookup j db ≡ none
lookup-replace_in_db key j stored db h = elim (Bool-cases (contains key db)) [
  | inl there ↦ lookup-insert-none key j stored db (rw there at h)
  | inr away ↦ rw away at h
]

pub call_back-IsBacked :
    (key : JobKey) (actions : List Action) (self : Scheduler)
    → IsBacked self
    → IsBacked (call_back key actions self)
unfolding call_back
call_back-IsBacked key [] self h = h
call_back-IsBacked key (finish_callback ∷ actions) self h =
    call_back-IsBacked key actions _ (λ j e. erase-Backed key j self.active_jobs (h j e))
call_back-IsBacked key (delete_callback ∷ actions) self h =
    call_back-IsBacked key actions _ (λ j e. erase_both key j self.active_jobs self.db (h j) e)
call_back-IsBacked key (create_coordinator ∷ actions) self h = call_back-IsBacked key actions self h
call_back-IsBacked key (delete_coordinator ∷ actions) self h = call_back-IsBacked key actions self h
call_back-IsBacked key (stop_coordinator ∷ actions) self h = call_back-IsBacked key actions self h
call_back-IsBacked key (create_proxy_route ∷ actions) self h = call_back-IsBacked key actions self h
call_back-IsBacked key (delete_proxy_route ∷ actions) self h = call_back-IsBacked key actions self h
call_back-IsBacked key (delete_ckpts ∷ actions) self h = call_back-IsBacked key actions self h

-- What a call gives is backed, if it gives anything.
pub data AllBacked : Result SchedulerError Scheduler → Type 0 where
  gave : {self : Scheduler} → IsBacked self → AllBacked (ok self)
  raised : {e : SchedulerError} → AllBacked (raise e)

pub AllBacked-bind :
    {A : Type 0} (m : Result SchedulerError A) (f : A → Result SchedulerError Scheduler)
    → ((a : A) → m ≡ ok a → AllBacked (f a))
    → AllBacked (m >>= f)
AllBacked-bind (ok a) f h = h a refl
AllBacked-bind (raise e) f h = raised

pub AllBacked-then :
    {A : Type 0} (m : Result SchedulerError A) (r : Result SchedulerError Scheduler)
    → AllBacked r
    → AllBacked (m >>= λ _. r)
AllBacked-then (ok _) r h = h
AllBacked-then (raise _) r h = raised

pub IsBacked-scheduler_after :
    (r : Result SchedulerError Scheduler) (self : Scheduler)
    → AllBacked r
    → IsBacked self
    → IsBacked (scheduler_after r self)
IsBacked-scheduler_after (ok _) self (gave r) h = r
IsBacked-scheduler_after (raise _) self raised h = h
