-- ===== src/Client/Storage/Managing.antt =====
-- neursafe_fl/python/client/storage_manager.py: `StorageManager`, which is called back at each event of
-- the monitor. The sizes that `__init__` computes from the quota and the two rates are arguments.
use yanshi_shield.Base.{
  ℕ, ◌+◌, ◌≡◌, ◌≤◌, ◌<◌, refl, ap, sym, subst, Bool, true, false, not, List, [], if◌then◌else◌,
  take, length, arith, Result, ok, raise, ok_injective, ◌>>=◌, inl, inr,
}
use yanshi_shield.Base.Int.{ℤ, pos, ◌-ℤ◌, ◌≤ℤ◌, ltb_ℤ, pos_part, neg_part, int_laws}
use yanshi_shield.Base.Dict.{keys}
use yanshi_shield.Client.Storage.{
  FilePath, Metadatas, DirMonitor, FileSystem, FileEvent, created, moved, StorageError,
  parse_second_level_dir, dispatch, Entry, init_metadatas,
}
use yanshi_shield.Client.Storage.Totals.{total, IsCounted, dispatch-IsCounted}
use yanshi_shield.Client.Storage.Clearing.{
  Cleared, clear_files, cleanable, sizes, clear_files-TakesFirst, clear_files_answer,
}

pub record StorageConfig : Type 0 where
  pub quota : ℕ
  pub healthy_size : ℕ
  pub alarm_size : ℕ
  pub is_path_cleanable : ℕ → Bool

pub record StorageManager : Type 0 where
  pub monitor : DirMonitor
  pub is_storage_sufficient : Bool

-- `__is_second_dir_cleanable`
abbrev is_second_dir_cleanable : StorageConfig → FilePath → Result StorageError Bool
is_second_dir_cleanable config path =
    parse_second_level_dir path >>= λ name. ok (config.is_path_cleanable name)

-- Whether an event moves what may not be removed to where it may be
abbrev moves_to_cleanable : StorageConfig → FileEvent → Result StorageError Bool
moves_to_cleanable config (moved src_path dest_path) =
    is_second_dir_cleanable config src_path >>= λ was_cleanable.
    if was_cleanable then ok false else is_second_dir_cleanable config dest_path
moves_to_cleanable config _ = ok false

-- `__is_cleanup_condition_satisfied`
unfoldable is_cleanup_condition_satisfied :
    StorageConfig → FileEvent → (occupied_size delta_size : ℤ) → Result StorageError Bool
is_cleanup_condition_satisfied config event occupied_size delta_size =
    if ltb_ℤ (pos config.alarm_size) occupied_size
    then (if ltb_ℤ (pos 0) delta_size then ok true else moves_to_cleanable config event)
    else ok false

-- `__do_clear`
unfoldable do_clear : StorageConfig → DirMonitor → Cleared
unfolding clear_files ◌-ℤ◌
do_clear config monitor =
    clear_files config.is_path_cleanable monitor.metadatas
      (monitor.occupied_size -ℤ pos config.healthy_size)

-- `__refresh_storage_flag`
abbrev refresh_storage_flag : StorageConfig → (occupied_size : ℤ) → Bool
refresh_storage_flag config occupied_size = not (ltb_ℤ (pos config.quota) occupied_size)

-- The rest of `__judge_and_clear`, with the entries that it calls `shutil.rmtree` for
unfoldable clear_if :
    StorageConfig
    → DirMonitor
    → Result StorageError Bool
    → StorageManager × Result StorageError (List ℕ)
unfolding do_clear
clear_if config monitor (raise failure) = (
  record {
    monitor = monitor;
    is_storage_sufficient = refresh_storage_flag config monitor.occupied_size;
  },
  raise failure,
)
clear_if config monitor (ok false) = (
  record {
    monitor = monitor;
    is_storage_sufficient = refresh_storage_flag config monitor.occupied_size;
  },
  ok [],
)
clear_if config monitor (ok true) = (
  record { monitor = monitor; is_storage_sufficient = (do_clear config monitor).is_done },
  ok (do_clear config monitor).tried,
)

-- `__judge_and_clear`
unfoldable judge_and_clear :
    StorageConfig
    → FileEvent
    → DirMonitor
    → (delta_size : ℤ) → StorageManager × Result StorageError (List ℕ)
unfolding is_cleanup_condition_satisfied clear_if
judge_and_clear config event monitor delta_size =
    clear_if config monitor
      (is_cleanup_condition_satisfied config event monitor.occupied_size delta_size)

-- The callback after an event that was handled; an exception leaves the flag as it was.
unfoldable pub call_back :
    StorageConfig
    → FileEvent
    → (sufficient : Bool) → DirMonitor × Result StorageError ℤ
    → StorageManager × Result StorageError (List ℕ)
unfolding judge_and_clear
call_back config event sufficient (monitor, raise failure) =
    (record { monitor = monitor; is_storage_sufficient = sufficient }, raise failure)
call_back config event sufficient (monitor, ok delta_size) =
    judge_and_clear config event monitor delta_size

-- `DirMonitor.dispatch`, with the callback of the manager
unfoldable pub receive :
    StorageConfig
    → FileSystem
    → FileEvent
    → StorageManager
    → StorageManager × Result StorageError (List ℕ)
unfolding dispatch call_back
receive config files event manager =
    call_back config event manager.is_storage_sufficient (dispatch files event manager.monitor)

-- `DirMonitor.start`: the entries are read once before the removal and once after it.
unfoldable pub start :
    StorageConfig
    → (before after : List (ℕ × Entry)) → StorageManager × Result StorageError (List ℕ)
unfolding init_metadatas judge_and_clear
start config before after =
    let first = init_metadatas before in
    let judged = judge_and_clear config (created []) first first.occupied_size in
    (
      record {
        monitor = init_metadatas after;
        is_storage_sufficient = judged.0.is_storage_sufficient;
      },
      judged.1,
    )

-- `assert_storage_sufficient`, whether it raises StorageInsufficient
abbrev is_insufficient : StorageManager → Bool
is_insufficient manager = not manager.is_storage_sufficient

-- What is tried are the first entries that may be removed, and all other files fit into the quota.
abbrev pub FitsQuota : StorageConfig → Metadatas → (tried : List ℕ) → Type 0
FitsQuota config metadatas tried =
    let first = take (length tried) (cleanable config.is_path_cleanable metadatas) in
    (tried ≡ keys first) × (pos (total metadatas) -ℤ sizes first ≤ℤ pos config.quota)

clear_if-FitsQuota :
    (config : StorageConfig) (monitor : DirMonitor) (condition : Result StorageError Bool)
    (tried : List ℕ)
    → config.healthy_size ≤ config.quota
    → IsCounted monitor
    → (clear_if config monitor condition).1 ≡ ok tried
    → (clear_if config monitor condition).0.is_storage_sufficient ≡ true
    → FitsQuota config monitor.metadatas tried
unfolding clear_if do_clear
clear_if-FitsQuota config monitor (raise failure) tried healthy counted handled sufficient =
    absurd cc
clear_if-FitsQuota config monitor (ok false) tried healthy counted handled sufficient =
    let within : pos_part monitor.occupied_size ≤ config.quota + neg_part monitor.occupied_size =
      ground (arith, sufficient) in
    subst (FitsQuota config monitor.metadatas) (ok_injective handled)
      (refl, omega (int_laws, within, ap pos_part counted.1, ap neg_part counted.1))
clear_if-FitsQuota config monitor (ok true) tried healthy counted handled sufficient =
    let cleared = do_clear config monitor in
    let bytes = monitor.occupied_size -ℤ pos config.healthy_size in
    let (listed, left) = clear_files-TakesFirst config.is_path_cleanable monitor.metadatas bytes in
    subst (FitsQuota config monitor.metadatas) (ok_injective handled)
      (elim (clear_files_answer config.is_path_cleanable monitor.metadatas bytes) [
        | inr (undone, _) ↦ absurd (ground (arith, undone, sufficient))
        | inl (_, over) ↦
            let below : pos_part cleared.clear_bytes + 0 < neg_part cleared.clear_bytes =
              ground (arith, over) in
            (
              listed,
              omega (
                int_laws,
                below,
                ap pos_part left,
                ap neg_part left,
                ap pos_part counted.1,
                ap neg_part counted.1,
                healthy,
              ),
            )
      ])

clear_if_monitor :
    (config : StorageConfig) (monitor : DirMonitor) (condition : Result StorageError Bool)
    → (clear_if config monitor condition).0.monitor ≡ monitor
unfolding clear_if
clear_if_monitor config monitor (raise failure) = refl
clear_if_monitor config monitor (ok false) = refl
clear_if_monitor config monitor (ok true) = refl

call_back-FitsQuota :
    (config : StorageConfig) (event : FileEvent) (sufficient : Bool)
    (answer : DirMonitor × Result StorageError ℤ) (tried : List ℕ)
    → config.healthy_size ≤ config.quota
    → ((delta : ℤ) → answer.1 ≡ ok delta → IsCounted answer.0)
    → (call_back config event sufficient answer).1 ≡ ok tried
    → (call_back config event sufficient answer).0.is_storage_sufficient ≡ true
    → FitsQuota config (call_back config event sufficient answer).0.monitor.metadatas tried
unfolding call_back judge_and_clear
call_back-FitsQuota config event sufficient (monitor, raise failure) tried healthy counted handled
      says =
    absurd cc
call_back-FitsQuota config event sufficient (monitor, ok delta) tried healthy counted handled says =
    let condition = is_cleanup_condition_satisfied config event monitor.occupied_size delta in
    subst (λ (m : DirMonitor). FitsQuota config m.metadatas tried)
      (sym (clear_if_monitor config monitor condition))
      (clear_if-FitsQuota config monitor condition tried healthy (counted delta refl) handled says)

-- When, after an event that was handled, the manager says that the storage is sufficient, then the entries
-- that it has called `shutil.rmtree` for are the first in the order of the dict of those that may be
-- removed, and all other files that the monitor knows take no more than the quota. The size up to which
-- it clears is no more than the quota, and the monitor has counted rightly before the event.
pub receive-FitsQuota :
    (config : StorageConfig) (files : FileSystem) (event : FileEvent) (manager : StorageManager)
    (tried : List ℕ)
    → config.healthy_size ≤ config.quota
    → IsCounted manager.monitor
    → (receive config files event manager).1 ≡ ok tried
    → (receive config files event manager).0.is_storage_sufficient ≡ true
    → FitsQuota config (receive config files event manager).0.monitor.metadatas tried
unfolding receive
receive-FitsQuota config files event manager tried healthy counted handled says =
    call_back-FitsQuota config event manager.is_storage_sufficient
      (dispatch files event manager.monitor) tried healthy
      (λ delta. dispatch-IsCounted files event manager.monitor delta counted) handled says
