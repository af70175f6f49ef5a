-- ===== src/Client/Storage/Totals.antt =====
-- The total that the monitor of a directory keeps (neursafe_fl/python/client/storage_manager.py).
use yanshi_shield.Base.{
  ℕ, ◌+◌, ◌≡◌, refl, ap, if_holds, ◌∙◌, true, Option, none, some, [], ◌∷◌, if◌then◌else◌, nat_eq,
  list_eq, arith, Result, ok, raise, ◌>>=◌, Option-cases, inl, inr,
}
use yanshi_shield.Base.Int.{ℤ, pos, ◌+ℤ◌, ◌-ℤ◌, int_laws, eq_of_parts, pos_part, neg_part}
use yanshi_shield.Base.Dict.{Dict, lookup, insert, pop}
use yanshi_shield.Client.Storage.Dicts.{
  IsDict, IsDict-insert, IsDict-pop, lookup-pop, sum_by, weight_at, sum_by-insert, sum_by-pop, Each,
  Each-insert, Each-pop, Each-lookup,
}
use yanshi_shield.Client.Storage.{
  FilePath, Tree, Metadatas, DirMonitor, FileSystem, FileEvent, created, deleted, modified, moved,
  StorageError, no_key, parse_second_level_dir, get_size, size_of, tree_of, Change, push_below,
  push_file, is_empty, pop_from, pop_below, pop_parsed, pop_file, told, push_moved, on_event,
  dispatch,
}

abbrev pub tree_weight : Tree → ℕ
tree_weight tree = sum_by (λ size. size) tree.0

abbrev pub total : Metadatas → ℕ
total metadatas = sum_by tree_weight metadatas

-- The sum of an entry's sizes is kept right.
abbrev IsSummed : Tree → Type 0
IsSummed tree = tree.1 ≡ pos (tree_weight tree)

-- The sizes of a monitor: every name once, with the right sum.
abbrev pub IsSound : Metadatas → Type 0
IsSound metadatas = IsDict metadatas × Each IsSummed metadatas

-- A handler that does not raise keeps the sums right and says how the total changes.
abbrev Counts : Metadatas → Change → Type 0
Counts before (after, raise _) = Unit {0}
Counts before (after, ok delta) = IsSound after × (pos (total after) ≡ pos (total before) +ℤ delta)

tree_of-IsSummed :
    (name : ℕ) (metadatas : Metadatas) → Each IsSummed metadatas → IsSummed (tree_of name metadatas)
tree_of-IsSummed name metadatas h = elim (Option-cases (lookup name metadatas)) [
  | inl missing ↦ ground (arith, missing)
  | inr (tree, found) ↦ ground (arith, found, Each-lookup IsSummed name metadatas tree h found)
]

weight_at-tree_of :
    (name : ℕ) (metadatas : Metadatas)
    → weight_at tree_weight name metadatas ≡ tree_weight (tree_of name metadatas)
weight_at-tree_of name metadatas = elim (Option-cases (lookup name metadatas)) [
  | inl missing ↦ ground (arith, missing)
  | inr (tree, found) ↦ ground (arith, found)
]

insert-Counts :
    (name : ℕ) (path : FilePath) (size : ℕ) (metadatas : Metadatas)
    → IsSound metadatas
    → (let old = tree_of name metadatas in
        let delta = pos size -ℤ pos (size_of path old.0) in
        Counts metadatas (insert name (insert path size old.0, old.1 +ℤ delta) metadatas, ok delta))
insert-Counts name path size metadatas h =
    let old = tree_of name metadatas in
    let delta = pos size -ℤ pos (size_of path old.0) in
    let tree : Tree = (insert path size old.0, old.1 +ℤ delta) in
    let summed = tree_of-IsSummed name metadatas h.1 in
    let grown = sum_by-insert (λ n. n) path size old.0 in
    let overall = sum_by-insert tree_weight name tree metadatas in
    let before = weight_at-tree_of name metadatas in
    let new_sum : IsSummed tree =
      eq_of_parts tree.1 (pos (tree_weight tree))
        (omega (int_laws, ap pos_part summed, ap neg_part summed, grown)) in
    (
      (IsDict-insert name tree metadatas h.0, Each-insert IsSummed name tree metadatas h.1 new_sum),
      eq_of_parts (pos (total (insert name tree metadatas))) (pos (total metadatas) +ℤ delta)
          (omega (int_laws, overall, before, grown)),
    )

push_below-Counts :
    (path : FilePath) (size : ℕ) (metadatas : Metadatas) (parsed : Result StorageError ℕ)
    → IsSound metadatas
    → Counts metadatas (push_below path size metadatas parsed)
unfolding push_below
push_below-Counts path size metadatas (raise failure) h = tt
push_below-Counts path size metadatas (ok name) h = insert-Counts name path size metadatas h

empty_weight :
    (tree : Dict FilePath ℕ) → is_empty tree ≡ true → sum_by (λ (size : ℕ). size) tree ≡ 0
empty_weight [] h = refl
empty_weight (_ ∷ _) h = absurd cc

pop_from-Counts :
    (path : FilePath) (name : ℕ) (tree : Tree) (metadatas : Metadatas) (size : Option ℕ)
    → lookup name metadatas ≡ some tree
    → lookup path tree.0 ≡ size
    → IsSound metadatas
    → Counts metadatas (pop_from path name tree (pop name metadatas) size)
unfolding pop_from lookup
pop_from-Counts path name tree metadatas none at_name at_path h = tt
pop_from-Counts path name tree metadatas (some size) at_name at_path h =
    let left = pop name metadatas in
    let rest = pop path tree.0 in
    let kept : Tree = (rest, tree.1 -ℤ pos size) in
    let summed = Each-lookup IsSummed name metadatas tree h.1 at_name in
    let sound : IsSound left =
      (IsDict-pop name metadatas h.0, Each-pop IsSummed name metadatas h.1) in
    let without = sum_by-pop tree_weight name metadatas in
    let less = sum_by-pop (λ (n : ℕ). n) path tree.0 in
    let weight : weight_at tree_weight name metadatas ≡ tree_weight tree =
      rw (weight_at, at_name) refl in
    let size_there : weight_at (λ (n : ℕ). n) path tree.0 ≡ size = rw (weight_at, at_path) refl in
    let gone : weight_at tree_weight name left ≡ 0 =
      rw (weight_at, (lookup-pop name metadatas h.0)) refl in
    let kept_sum : IsSummed kept =
      eq_of_parts kept.1 (pos (tree_weight kept))
        (omega (int_laws, ap pos_part summed, ap neg_part summed, less, size_there)) in
    let overall = sum_by-insert tree_weight name kept left in
    if_holds
      (λ (after : Metadatas).
        IsSound after × (pos (total after) ≡ pos (total metadatas) +ℤ (pos 0 -ℤ pos size)))
      (is_empty rest)
      (λ last. (
        sound,
        eq_of_parts (pos (total left)) (pos (total metadatas) +ℤ (pos 0 -ℤ pos size))
            (omega (int_laws, without, weight, less, size_there, empty_weight rest last)),
      ))
      (λ _. (
        (
          IsDict-insert name kept left sound.0,
          Each-insert IsSummed name kept left sound.1 kept_sum,
        ),
        eq_of_parts (pos (total (insert name kept left)))
            (pos (total metadatas) +ℤ (pos 0 -ℤ pos size))
            (omega (int_laws, overall, gone, without, weight, less, size_there)),
      ))

pop_below-Counts :
    (path : FilePath) (metadatas : Metadatas) (name : ℕ) (found : Option Tree)
    → lookup name metadatas ≡ found
    → IsSound metadatas
    → Counts metadatas (pop_below path metadatas name found)
unfolding pop_below
pop_below-Counts path metadatas name none there h = tt
pop_below-Counts path metadatas name (some tree) there h =
    pop_from-Counts path name tree metadatas (lookup path tree.0) there refl h

pop_file-Counts :
    (path : FilePath) (metadatas : Metadatas)
    → IsSound metadatas
    → Counts metadatas (pop_file path metadatas)
unfolding pop_file pop_parsed
pop_file-Counts path metadatas h = popped (parse_second_level_dir path)
  where
    popped : (parsed : Result StorageError ℕ) → Counts metadatas (pop_parsed path metadatas parsed)
    popped (raise failure) = tt
    popped (ok name) = pop_below-Counts path metadatas name (lookup name metadatas) refl h

-- A change after a change
after-Counts :
    (before after : Metadatas) (delta : ℤ) (second : Change)
    → pos (total after) ≡ pos (total before) +ℤ delta
    → Counts after second
    → Counts before (second.0, second.1 >>= λ more. ok (delta +ℤ more))
after-Counts before after delta (last, raise failure) first h = tt
after-Counts before after delta (last, ok more) first h = (
  h.0,
  eq_of_parts (pos (total last)) (pos (total before) +ℤ (delta +ℤ more))
      (omega (int_laws, ap pos_part first, ap neg_part first, ap pos_part h.1, ap neg_part h.1)),
)

push_moved-Counts :
    (files : FileSystem) (dest_path : FilePath) (before : Metadatas) (popped : Change)
    → Counts before popped
    → Counts before (push_moved files dest_path popped)
unfolding push_moved
push_moved-Counts files dest_path before (after, raise failure) h = tt
push_moved-Counts files dest_path before (after, ok delta) h =
    after-Counts before after delta (push_file dest_path (get_size files dest_path) after) h.1 (
      push_below-Counts dest_path (get_size files dest_path) after
        (parse_second_level_dir dest_path) h.0)

on_event-Counts :
    (files : FileSystem) (event : FileEvent) (metadatas : Metadatas)
    → IsSound metadatas
    → Counts metadatas (on_event files event metadatas)
unfolding on_event
on_event-Counts files (created path) metadatas h =
    push_below-Counts path (get_size files path) metadatas (parse_second_level_dir path) h
on_event-Counts files (deleted path) metadatas h = pop_file-Counts path metadatas h
on_event-Counts files (modified path) metadatas h =
    elim (files.getsize path)
      as (λ found. Counts metadatas (elim found [
        | none ↦ push_file path 0 metadatas
        | some size ↦
            if files.isfile path then push_file path size metadatas else (metadatas, ok (pos 0))
      ])) [
        | none ↦ push_below-Counts path 0 metadatas (parse_second_level_dir path) h
        | some size ↦
            if_holds (Counts metadatas) (files.isfile path)
              (λ _. push_below-Counts path size metadatas (parse_second_level_dir path) h)
              (λ _. (
                h,
                eq_of_parts (pos (total metadatas)) (pos (total metadatas) +ℤ pos 0)
                    (omega int_laws),
              ))
      ]
on_event-Counts files (moved src_path dest_path) metadatas h =
    push_moved-Counts files dest_path metadatas (pop_file src_path metadatas)
      (pop_file-Counts src_path metadatas h)

-- The occupied size that a monitor keeps is that of all files it knows.
abbrev pub IsCounted : DirMonitor → Type 0
IsCounted monitor =
    IsSound monitor.metadatas × (monitor.occupied_size ≡ pos (total monitor.metadatas))

-- An event that is handled without an exception keeps the count right: the sum that each entry has, and
-- the occupied size, are those of the files that are known, of which each is known once.
pub dispatch-IsCounted :
    (files : FileSystem) (event : FileEvent) (monitor : DirMonitor) (delta : ℤ)
    → IsCounted monitor
    → (dispatch files event monitor).1 ≡ ok delta
    → IsCounted (dispatch files event monitor).0
unfolding dispatch told
dispatch-IsCounted files event monitor delta h handled =
    counted (on_event files event monitor.metadatas)
      (on_event-Counts files event monitor.metadatas h.0) handled
  where
    counted :
        (change : Change)
        → Counts monitor.metadatas change
        → change.1 ≡ ok delta
        → IsCounted (told monitor change)
    counted (after, raise failure) c handled = absurd cc
    counted (after, ok given) c handled = (
      c.0,
      eq_of_parts (monitor.occupied_size +ℤ given) (pos (total after))
          (omega (int_laws, ap pos_part c.1, ap neg_part c.1, ap pos_part h.1, ap neg_part h.1)),
    )

-- Where the entry of a path is known but the path is not, its deletion raises a KeyError, and the whole
-- entry is lost, while its size stays in the occupied size.
pub dispatch_lost :
    (files : FileSystem) (path : FilePath) (name : ℕ) (tree : Tree) (monitor : DirMonitor)
    → IsCounted monitor
    → parse_second_level_dir path ≡ ok name
    → lookup name monitor.metadatas ≡ some tree
    → lookup path tree.0 ≡ none
    → ((dispatch files (deleted path) monitor).1 ≡ raise no_key)
      × (lookup name (dispatch files (deleted path) monitor).0.metadatas ≡ none)
      × ((dispatch files (deleted path) monitor).0.occupied_size
          ≡ pos (total (dispatch files (deleted path) monitor).0.metadatas + tree_weight tree))
unfolding dispatch told on_event pop_file pop_parsed pop_below pop_from
dispatch_lost files path name tree monitor h parsed at_name at_path =
    let change : pop_file path monitor.metadatas ≡ (pop name monitor.metadatas, raise no_key) =
      ground (arith, parsed, at_name, at_path) in
    let without = sum_by-pop tree_weight name monitor.metadatas in
    let weight : weight_at tree_weight name monitor.metadatas ≡ tree_weight tree =
      rw (weight_at, at_name) refl in
    let same : pos (total monitor.metadatas)
        ≡ pos (total (pop name monitor.metadatas) + tree_weight tree) =
      ap pos (omega (arith, without, weight)) in
    rw change (refl, lookup-pop name monitor.metadatas h.0.0, h.1 ∙ same)
