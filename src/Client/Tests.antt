-- ===== src/Client/Tests.antt =====
-- A monitored directory with two entries (neursafe_fl/python/client/storage_manager.py).
use yanshi_shield.Base.{
  ◌+◌, ◌≡◌, refl, true, not, nat_beq, nat_eq, none, some, [], ◌∷◌, raise, take, arith,
}
use yanshi_shield.Base.Int.{pos, ◌-ℤ◌, ◌≤ℤ◌}
use yanshi_shield.Base.Dict.{lookup}
use yanshi_shield.Client.Storage.{Tree, DirMonitor, FileSystem, created, deleted, no_key, dispatch}
use yanshi_shield.Client.Storage.Totals.{
  total, tree_weight, IsCounted, dispatch-IsCounted, dispatch_lost,
}
use yanshi_shield.Client.Storage.Clearing.{
  clear_files, cleanable, sizes, TakesFirst, clear_files-TakesFirst, clear_files_needed,
}
use yanshi_shield.Client.Storage.Managing.{StorageConfig, receive, FitsQuota, receive-FitsQuota}

abbrev first_tree : Tree
first_tree = ((1 ∷ [], 40) ∷ (1 ∷ 5 ∷ [], 30) ∷ [], pos 70)

abbrev monitor : DirMonitor
monitor = record {
  metadatas = (1, first_tree) ∷ (2, ((2 ∷ [], 20) ∷ [], pos 20)) ∷ [];
  occupied_size = pos 90;
}

abbrev files : FileSystem
files = record { getsize = λ _. some 25; isfile = λ _. true }

counted : IsCounted monitor
unfolding lookup
counted = (((refl, (refl, tt)), (refl, (refl, tt))), refl)

abbrev config : StorageConfig
config = record {
  quota = 100;
  healthy_size = 60;
  alarm_size = 80;
  is_path_cleanable = λ name. not (nat_beq name 3);
}

dispatch-IsCounted_example : IsCounted (dispatch files (deleted (1 ∷ 5 ∷ [])) monitor).0
unfolding dispatch
dispatch-IsCounted_example =
    dispatch-IsCounted files (deleted (1 ∷ 5 ∷ [])) monitor (pos 0 -ℤ pos 30) counted refl

dispatch_lost_example :
    ((dispatch files (deleted (1 ∷ 6 ∷ [])) monitor).1 ≡ raise no_key)
    × (lookup 1 (dispatch files (deleted (1 ∷ 6 ∷ [])) monitor).0.metadatas ≡ none)
    × ((dispatch files (deleted (1 ∷ 6 ∷ [])) monitor).0.occupied_size
        ≡ pos (
            total (dispatch files (deleted (1 ∷ 6 ∷ [])) monitor).0.metadatas
            + tree_weight first_tree))
unfolding lookup
dispatch_lost_example = dispatch_lost files (1 ∷ 6 ∷ []) 1 first_tree monitor counted refl refl refl

clear_files-TakesFirst_example :
    TakesFirst
      (cleanable config.is_path_cleanable monitor.metadatas)
      (pos 30)
      (clear_files config.is_path_cleanable monitor.metadatas (pos 30))
clear_files-TakesFirst_example =
    clear_files-TakesFirst config.is_path_cleanable monitor.metadatas (pos 30)

clear_files_needed_example :
    pos 0 ≤ℤ pos 75 -ℤ sizes (take 1 (cleanable config.is_path_cleanable monitor.metadatas))
unfolding clear_files
clear_files_needed_example =
    clear_files_needed config.is_path_cleanable monitor.metadatas (pos 75) 1 (omega arith)

receive-FitsQuota_example :
    FitsQuota config
      (receive config files
        (created (2 ∷ 7 ∷ []))
        (record { monitor = monitor; is_storage_sufficient = true })).0.monitor.metadatas
      (1 ∷ [])
unfolding receive dispatch
receive-FitsQuota_example =
    receive-FitsQuota config files (created (2 ∷ 7 ∷ []))
      (record { monitor = monitor; is_storage_sufficient = true }) (1 ∷ []) (omega arith) counted
      refl refl
