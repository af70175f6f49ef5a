-- ===== src/Client/Storage.antt =====
-- neursafe_fl/python/client/storage_manager.py: the monitor of a directory, with the sizes of all files
-- below it, and the manager that removes the oldest entries when they take too much. A path is the list
-- of its names below the monitored directory, where 0 is the empty name. What the file system answers
-- is an argument of each event.
mod Dicts
pub mod Totals
pub mod Clearing
pub mod Managing
use yanshi_shield.Base.{
  ℕ, ◌+◌, ◌≡◌, refl, Bool, true, false, not, ◌&&◌, ◌||◌, Option, none, some, List, [], ◌∷◌,
  if◌then◌else◌, nat_beq, nat_eq, list_eq, Result, ok, raise, ◌>>=◌,
}
use yanshi_shield.Base.Int.{ℤ, pos, negsuc, ◌+ℤ◌, ◌-ℤ◌, ltb_ℤ}
use yanshi_shield.Base.Dict.{Dict, lookup, insert, pop}

abbrev pub FilePath : Type 0
FilePath = List ℕ

-- The sizes of the files in an entry of the directory, and their sum, under the entry's name
abbrev pub Tree : Type 0
Tree = Dict FilePath ℕ × ℤ

abbrev pub Metadatas : Type 0
Metadatas = Dict ℕ Tree

-- UnboundLocalError and KeyError
pub data StorageError : Type 0 where
  unbound_local no_key : StorageError

pub record DirMonitor : Type 0 where
  pub metadatas : Metadatas
  pub occupied_size : ℤ

-- The file system at an event: the size of what there is, and whether it is a file
pub record FileSystem : Type 0 where
  pub getsize : FilePath → Option ℕ
  pub isfile : FilePath → Bool

pub data FileEvent : Type 0 where
  created deleted modified : FilePath → FileEvent
  moved : (src_path dest_path : FilePath) → FileEvent

-- `parse_second_level_dir`: the first name that is not empty
abbrev pub parse_second_level_dir : FilePath → Result StorageError ℕ
parse_second_level_dir [] = raise unbound_local
parse_second_level_dir (name ∷ names) =
    if nat_beq name 0 then parse_second_level_dir names else ok name

-- `_get_size`
abbrev pub get_size : FileSystem → FilePath → ℕ
get_size files path = elim (files.getsize path) [ none ↦ 0 | some size ↦ size ]

-- `.get(path, 0)`
abbrev pub size_of : FilePath → Dict FilePath ℕ → ℕ
size_of path sub_tree = elim (lookup path sub_tree) [ none ↦ 0 | some size ↦ size ]

-- `.get(second_dir, ({}, 0))`
abbrev pub tree_of : ℕ → Metadatas → Tree
tree_of second_dir metadatas = elim (lookup second_dir metadatas) [
  | none ↦ ([], pos 0)
  | some tree ↦ tree
]

-- What a handler leaves of the sizes and what it says of the total
abbrev pub Change : Type 0
Change = Metadatas × Result StorageError ℤ

-- `__push_file` below an entry of the directory
unfoldable pub push_below : FilePath → (file_size : ℕ) → Metadatas → Result StorageError ℕ → Change
unfolding lookup insert ◌+ℤ◌ ◌-ℤ◌
push_below path file_size metadatas (raise failure) = (metadatas, raise failure)
push_below path file_size metadatas (ok second_dir) =
    let (sub_tree, sub_tree_size) = tree_of second_dir metadatas in
    let delta_size = pos file_size -ℤ pos (size_of path sub_tree) in
    let tree : Tree = (insert path file_size sub_tree, sub_tree_size +ℤ delta_size) in
    (insert second_dir tree metadatas, ok delta_size)

abbrev pub push_file : FilePath → (file_size : ℕ) → Metadatas → Change
push_file path file_size metadatas =
    push_below path file_size metadatas (parse_second_level_dir path)

abbrev pub is_empty : Dict FilePath ℕ → Bool
is_empty [] = true
is_empty (_ ∷ _) = false

-- `__pop_file` out of an entry that has been popped, with the size that is found for the path
unfoldable pub pop_from :
    FilePath → (second_dir : ℕ) → Tree → (left : Metadatas) → Option ℕ → Change
unfolding insert ◌-ℤ◌
pop_from path second_dir tree left none = (left, raise no_key)
pop_from path second_dir tree left (some file_size) =
    let sub_tree = pop path tree.0 in
    (
      (if is_empty sub_tree
          then left
          else insert second_dir (sub_tree, tree.1 -ℤ pos file_size) left),
      ok (pos 0 -ℤ pos file_size),
    )

-- What is popped before an exception stays popped.
unfoldable pub pop_below : FilePath → Metadatas → (second_dir : ℕ) → Option Tree → Change
unfolding pop_from lookup
pop_below path metadatas second_dir none = (metadatas, raise no_key)
pop_below path metadatas second_dir (some tree) =
    pop_from path second_dir tree (pop second_dir metadatas) (lookup path tree.0)

-- `__pop_file`
unfoldable pub pop_parsed : FilePath → Metadatas → Result StorageError ℕ → Change
unfolding pop_below lookup
pop_parsed path metadatas (raise failure) = (metadatas, raise failure)
pop_parsed path metadatas (ok second_dir) =
    pop_below path metadatas second_dir (lookup second_dir metadatas)

unfoldable pub pop_file : FilePath → Metadatas → Change
unfolding pop_parsed
pop_file path metadatas = pop_parsed path metadatas (parse_second_level_dir path)

-- A push after what a move has popped
unfoldable pub push_moved : FileSystem → (dest_path : FilePath) → Change → Change
unfolding push_below ◌+ℤ◌
push_moved files dest_path (metadatas, raise failure) = (metadatas, raise failure)
push_moved files dest_path (metadatas, ok popped) =
    let (after, pushed) = push_file dest_path (get_size files dest_path) metadatas in
    (after, pushed >>= λ delta. ok (popped +ℤ delta))

-- `__on_created`, `__on_deleted`, `__on_modified` and `__on_moved`
unfoldable pub on_event : FileSystem → FileEvent → Metadatas → Change
unfolding push_below pop_file push_moved
on_event files (created path) metadatas = push_file path (get_size files path) metadatas
on_event files (deleted path) metadatas = pop_file path metadatas
on_event files (modified path) metadatas = elim (files.getsize path) [
  | none ↦ push_file path 0 metadatas
  | some size ↦ if files.isfile path then push_file path size metadatas else (metadatas, ok (pos 0))
]
on_event files (moved src_path dest_path) metadatas =
    push_moved files dest_path (pop_file src_path metadatas)

-- The monitor after a handler's change
unfoldable pub told : DirMonitor → Change → DirMonitor
unfolding ◌+ℤ◌
told monitor (metadatas, raise _) = record {
  metadatas = metadatas;
  occupied_size = monitor.occupied_size;
}
told monitor (metadatas, ok delta_size) = record {
  metadatas = metadatas;
  occupied_size = monitor.occupied_size +ℤ delta_size;
}

-- `DirMonitor.dispatch` up to the callback, with the change of the total that it is called with
unfoldable pub dispatch : FileSystem → FileEvent → DirMonitor → DirMonitor × Result StorageError ℤ
unfolding on_event told
dispatch files event monitor =
    let change = on_event files event monitor.metadatas in (told monitor change, change.1)

-- What `os.walk` finds at an entry: a file, or directories, each with its path, its size and its files
pub data Entry : Type 0 where
  file : (path : FilePath) (size : ℕ) → Entry
  directory : List (FilePath × ℕ × List (FilePath × ℕ)) → Entry

-- The sizes of a directory's files, and their sum, after those found so far
abbrev measure_files : List (FilePath × ℕ) → Dict FilePath ℕ × ℕ → Dict FilePath ℕ × ℕ
measure_files [] so_far = so_far
measure_files ((path, size) ∷ files) (sizes, total) =
    measure_files files (insert path size sizes, total + size)

abbrev measure_directories :
    List (FilePath × ℕ × List (FilePath × ℕ)) → Dict FilePath ℕ × ℕ → Dict FilePath ℕ × ℕ
measure_directories [] so_far = so_far
measure_directories ((path, size, files) ∷ others) (sizes, total) =
    measure_directories others (measure_files files (insert path size sizes, total + size))

-- `_get_node_size_mapping`
unfoldable get_node_size_mapping : Entry → Tree
unfolding insert
get_node_size_mapping (file path size) = ((path, size) ∷ [], pos size)
get_node_size_mapping (directory found) =
    let (sizes, total) = measure_directories found ([], 0) in (sizes, pos total)

-- `__init_metadatas`, with the directory's entries by the time of their last change
abbrev add_entry : ℕ → Entry → DirMonitor → DirMonitor
add_entry name entry monitor =
    let tree = get_node_size_mapping entry in
    record {
      metadatas = insert name tree monitor.metadatas;
      occupied_size = monitor.occupied_size +ℤ tree.1;
    }

abbrev add_entries : List (ℕ × Entry) → DirMonitor → DirMonitor
add_entries [] monitor = monitor
add_entries ((name, entry) ∷ entries) monitor = add_entries entries (add_entry name entry monitor)

unfoldable pub init_metadatas : List (ℕ × Entry) → DirMonitor
unfolding get_node_size_mapping insert ◌+ℤ◌
init_metadatas entries = add_entries entries (record { metadatas = []; occupied_size = pos 0 })
