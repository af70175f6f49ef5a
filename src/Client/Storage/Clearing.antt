-- ===== src/Client/Storage/Clearing.antt =====
-- neursafe_fl/python/client/storage_manager.py: `_clear_files`, which calls `shutil.rmtree`
-- for the entries of a directory that may be removed, in the order of the dict, until enough bytes are
-- counted as free. Errors are ignored in these calls, so that an entry may stay; the code does not look.
use yanshi_shield.Base.{
  ℕ, zero, suc, ◌+◌, ◌≡◌, ◌≤◌, ◌<◌, refl, ap, ◌∙◌, Bool, true, false, List, [], ◌∷◌, if◌then◌else◌,
  take, length, arith, if_holds, ◌⊎◌, inl, inr,
}
use yanshi_shield.Base.Int.{
  ℤ, pos, ◌+ℤ◌, ◌-ℤ◌, ◌≤ℤ◌, ltb_ℤ, pos_part, neg_part, int_laws, eq_of_parts,
}
use yanshi_shield.Base.Dict.{keys}
use yanshi_shield.Client.Storage.{Tree, Metadatas}

-- What `_clear_files` returns, the entries it called `shutil.rmtree` for, and the bytes that it takes to be
-- left to clear
pub record Cleared : Type 0 where
  pub is_done : Bool
  pub tried : List ℕ
  pub clear_bytes : ℤ

-- An entry more for which it is called
abbrev pub removing : ℕ → Cleared → Cleared
removing name after = record {
  is_done = after.is_done;
  tried = name ∷ after.tried;
  clear_bytes = after.clear_bytes;
}

-- `_clear_files`
unfoldable pub clear_files : (is_cleanable : ℕ → Bool) → Metadatas → (clear_bytes : ℤ) → Cleared
unfolding ◌-ℤ◌
clear_files is_cleanable [] clear_bytes = record {
  is_done = false;
  tried = [];
  clear_bytes = clear_bytes;
}
clear_files is_cleanable ((name, (_, sub_tree_size)) ∷ metadatas) clear_bytes =
    let tried = removing name (clear_files is_cleanable metadatas (clear_bytes -ℤ sub_tree_size)) in
    let ignored = clear_files is_cleanable metadatas clear_bytes in
    if ltb_ℤ clear_bytes (pos 0)
    then record { is_done = true; tried = []; clear_bytes = clear_bytes }
    else if is_cleanable name
    then tried
    else ignored

-- The entries that may be removed, in the order of the dict
abbrev pub cleanable : (ℕ → Bool) → Metadatas → Metadatas
cleanable is_cleanable [] = []
cleanable is_cleanable ((name, tree) ∷ metadatas) =
    if is_cleanable name
    then (name, tree) ∷ cleanable is_cleanable metadatas
    else cleanable is_cleanable metadatas

-- The sum of what the monitor takes the entries' sizes for
abbrev pub sizes : Metadatas → ℤ
sizes [] = pos 0
sizes ((_, (_, size)) ∷ metadatas) = size +ℤ sizes metadatas

-- What is tried takes the first of the entries that may be removed, none of them left out, and the
-- bytes that are left to clear are those at the start less the sizes of what was tried.
abbrev pub TakesFirst : Metadatas → (clear_bytes : ℤ) → Cleared → Type 0
TakesFirst entries clear_bytes cleared =
    (cleared.tried ≡ keys (take (length cleared.tried) entries))
    × (cleared.clear_bytes ≡ clear_bytes -ℤ sizes (take (length cleared.tried) entries))

nothing-TakesFirst :
    (entries : Metadatas) (b : Bool) (bytes : ℤ)
    → TakesFirst entries bytes (record { is_done = b; tried = []; clear_bytes = bytes })
nothing-TakesFirst entries b bytes = (refl, eq_of_parts bytes (bytes -ℤ pos 0) (omega int_laws))

removing-TakesFirst :
    (name : ℕ) (tree : Tree) (entries : Metadatas) (bytes : ℤ) (cleared : Cleared)
    → TakesFirst entries (bytes -ℤ tree.1) cleared
    → TakesFirst ((name, tree) ∷ entries) bytes (removing name cleared)
removing-TakesFirst name tree entries bytes cleared (listed, left) =
    let first = take (length cleared.tried) entries in
    (
      ap (λ names. name ∷ names) listed,
      left
          ∙ eq_of_parts (bytes -ℤ tree.1 -ℤ sizes first) (bytes -ℤ (tree.1 +ℤ sizes first))
              (omega int_laws),
    )

-- What holds of both branches of two conditionals with one test
if_both :
    (P : Metadatas → Cleared → Type 0) (b : Bool) {entries others : Metadatas}
    {cleared ignored : Cleared}
    → P entries cleared
    → P others ignored
    → P (if b then entries else others) (if b then cleared else ignored)
if_both P true there other = there
if_both P false there other = other

-- What is tried are the first of the entries that may be removed, none of them left out, and the bytes
-- that are left to clear are those at the start less the sizes of what was tried.
pub clear_files-TakesFirst :
    (is_cleanable : ℕ → Bool) (metadatas : Metadatas) (bytes : ℤ)
    → TakesFirst (cleanable is_cleanable metadatas) bytes (clear_files is_cleanable metadatas bytes)
unfolding clear_files
clear_files-TakesFirst is_cleanable [] bytes = nothing-TakesFirst [] false bytes
clear_files-TakesFirst is_cleanable ((name, tree) ∷ metadatas) bytes =
    if_holds (TakesFirst (cleanable is_cleanable ((name, tree) ∷ metadatas)) bytes)
      (ltb_ℤ bytes (pos 0))
      (λ _. nothing-TakesFirst (cleanable is_cleanable ((name, tree) ∷ metadatas)) true bytes)
      (λ _.
        if_both (λ (entries : Metadatas) (cleared : Cleared). TakesFirst entries bytes cleared)
          (is_cleanable name)
          (removing-TakesFirst name tree (cleanable is_cleanable metadatas) bytes
            (clear_files is_cleanable metadatas (bytes -ℤ tree.1))
            (clear_files-TakesFirst is_cleanable metadatas (bytes -ℤ tree.1)))
          (clear_files-TakesFirst is_cleanable metadatas bytes))

needed_removing :
    (k name : ℕ) (tree : Tree) (entries : Metadatas) (bytes : ℤ) (cleared : Cleared)
    → ltb_ℤ bytes (pos 0) ≡ false
    → ((j : ℕ) → j < length cleared.tried → pos 0 ≤ℤ bytes -ℤ tree.1 -ℤ sizes (take j entries))
    → k < length (removing name cleared).tried
    → pos 0 ≤ℤ bytes -ℤ sizes (take k ((name, tree) ∷ entries))
needed_removing zero name tree entries bytes cleared enough rest below =
    let no_less : pos_part (pos 0) + neg_part bytes ≤ pos_part bytes + neg_part (pos 0) =
      ground (arith, enough) in
    omega (int_laws, no_less)
needed_removing (suc k) name tree entries bytes cleared enough rest below =
    omega (int_laws, rest k (omega (arith, below)))

-- No entry is tried unless, after all that were tried before it, there were bytes left to clear.
pub clear_files_needed :
    (is_cleanable : ℕ → Bool) (metadatas : Metadatas) (bytes : ℤ) (k : ℕ)
    → k < length (clear_files is_cleanable metadatas bytes).tried
    → pos 0 ≤ℤ bytes -ℤ sizes (take k (cleanable is_cleanable metadatas))
unfolding clear_files
clear_files_needed is_cleanable [] bytes k below = absurd (omega (arith, below))
clear_files_needed is_cleanable ((name, tree) ∷ metadatas) bytes k below =
    if_holds
      (λ (cleared : Cleared).
        k < length cleared.tried
        → pos 0 ≤ℤ bytes -ℤ sizes (take k (cleanable is_cleanable ((name, tree) ∷ metadatas))))
      (ltb_ℤ bytes (pos 0)) (λ _ none_before. absurd (omega (arith, none_before)))
      (λ enough.
        if_both
          (λ (entries : Metadatas) (cleared : Cleared).
            k < length cleared.tried → pos 0 ≤ℤ bytes -ℤ sizes (take k entries))
          (is_cleanable name)
          (needed_removing k name tree (cleanable is_cleanable metadatas) bytes
            (clear_files is_cleanable metadatas (bytes -ℤ tree.1)) enough
            (λ j. clear_files_needed is_cleanable metadatas (bytes -ℤ tree.1) j))
          (clear_files_needed is_cleanable metadatas bytes k))
      below

abbrev Answers : (entries : Metadatas) → Cleared → Type 0
Answers entries cleared =
    ((cleared.is_done ≡ true) × (ltb_ℤ cleared.clear_bytes (pos 0) ≡ true))
    ⊎ ((cleared.is_done ≡ false) × (cleared.tried ≡ keys entries))

-- The answer is yes only with no byte left to clear, and no only with everything tried that may be
-- removed.
pub clear_files_answer :
    (is_cleanable : ℕ → Bool) (metadatas : Metadatas) (bytes : ℤ)
    → Answers (cleanable is_cleanable metadatas) (clear_files is_cleanable metadatas bytes)
unfolding clear_files
clear_files_answer is_cleanable [] bytes = inr (refl, refl)
clear_files_answer is_cleanable ((name, tree) ∷ metadatas) bytes =
    if_holds (Answers (cleanable is_cleanable ((name, tree) ∷ metadatas))) (ltb_ℤ bytes (pos 0))
      (λ over. inl (refl, over))
      (λ _.
        if_both Answers (is_cleanable name)
          (ground (arith, clear_files_answer is_cleanable metadatas (bytes -ℤ tree.1)))
          (clear_files_answer is_cleanable metadatas bytes))
