-- ===== src/Records/Kept.antt =====
-- A renamed record folder: no file is lost and none is overwritten.
use panamacompra_collector_b.Prelude.{
  ◌≡◌, refl, sym, ap, ◌∙◌, ◌≢◌, inl, inr, Bool, true, false, Option, none, some, [], ◌∷◌, ◌++◌,
  arith, Bool-cases, Option-cases, length-snoc, Text, codes,
}
use mathlib.Core.Path.{subst}
use panamacompra_collector_b.Records.{
  Parts, FileTree, same_path, path_within, entry_at, exists, read_text, make_dirs, moved_path,
  RenameOutcome, already, missing, conflict, renamed, Renamed, Library, in_folder, repointed,
  rename_to, target_parent_of, rename_under, rename_existing, rename_record_folder,
}
use panamacompra_collector_b.Records.Moving.{
  same_path_iff, IsTree, NoneUnder, path_moved, moved_under, moved_beside, path_within-append,
  append-path_within, append_cancel, tree-NoneUnder, entry_at-make_dirs, make_dirs-NoneUnder,
  read_text-move_folder, read_text-write_text,
}

-- Where a file stands after the call.
abbrev pub place_after : RenameOutcome → Parts → Parts → Parts → Parts
place_after renamed current target path = moved_path target path (path_within current path)
place_after already current target path = path
place_after missing current target path = path
place_after conflict current target path = path

read_text-make_dirs :
    (path before q : Parts) (disk : FileTree) (text : Text)
    → read_text path disk ≡ some text
    → read_text path (make_dirs before q disk) ≡ some text
unfolding read_text
read_text-make_dirs path before q disk text h = elim (Option-cases (entry_at path disk)) [
  | inl e ↦ absurd (cc (rw e at h))
  | inr (entry, e) ↦ rw (entry_at-make_dirs path before q disk entry e) (rw e at h)
]

exists-make_dirs :
    (path before q : Parts) (disk : FileTree)
    → exists path (make_dirs before q disk) ≡ false
    → exists path disk ≡ false
unfolding exists
exists-make_dirs path before q disk h = elim (Option-cases (entry_at path disk)) [
  | inl e ↦ rw e refl
  | inr (entry, e) ↦ absurd (cc (rw (entry_at-make_dirs path before q disk entry e) at h))
]

read_text-beside :
    (folder path : Parts) (disk : FileTree) (text : Text)
    → NoneUnder folder disk
    → read_text path disk ≡ some text
    → path_within folder path ≡ none
unfolding read_text entry_at
read_text-beside folder path [] text free h = absurd (cc h)
read_text-beside folder path (e ∷ disk) text free h = elim (Bool-cases (same_path e.path path)) [
  | inl s ↦ subst (λ p. path_within folder p ≡ none) ((same_path_iff e.path path).0 s) free.0
  | inr s ↦ read_text-beside folder path disk text free.1 (rw (s, entry_at) at h)
]

free_target :
    (parent_ : Parts) (leaf : Text) (disk : FileTree)
    → IsTree disk
    → exists (parent_ ++ leaf ∷ []) (make_dirs [] parent_ disk) ≡ false
    → NoneUnder (parent_ ++ leaf ∷ []) (make_dirs [] parent_ disk)
free_target parent_ leaf disk tree absent =
    make_dirs-NoneUnder (parent_ ++ leaf ∷ []) [] parent_ disk
      (let e = length-snoc parent_ leaf in omega arith)
      (free_before parent_ leaf disk tree
        (exists-make_dirs (parent_ ++ leaf ∷ []) [] parent_ disk absent))
  where
    free_before :
        (parent_ : Parts) (leaf : Text) (disk : FileTree)
        → IsTree disk
        → exists (parent_ ++ leaf ∷ []) disk ≡ false
        → NoneUnder (parent_ ++ leaf ∷ []) disk
    free_before [] leaf disk tree absent = tree-NoneUnder disk leaf [] disk absent tree
    free_before (a ∷ parent_) leaf disk tree absent =
        tree-NoneUnder disk a (parent_ ++ leaf ∷ []) disk absent tree

moved_elsewhere :
    (current target path : Parts) (leaf : Text)
    → path_within target path ≡ none
    → path ≢ current ++ leaf ∷ []
    → path_moved current target path ≢ target ++ leaf ∷ []
moved_elsewhere current target path leaf beside other h =
    elim (Option-cases (path_within current path)) [
      | inl n ↦
          let same = sym (moved_beside current target path n) ∙ h in
          absurd
            (cc (sym beside ∙ ap (path_within target) same ∙ path_within-append target (leaf ∷ [])))
      | inr (rest, s) ↦
          let rests =
            append_cancel target rest (leaf ∷ [])
              (sym (moved_under current target path rest s) ∙ h) in
          absurd (other (append-path_within current path rest s ∙ ap (λ r. current ++ r) rests))
    ]

module _ (k : Library) (now numero : Text) where
  read_text-repointed :
      (path detail_json : Parts) (text : Option Text) (disk : FileTree)
      → path ≢ detail_json
      → read_text path (repointed k now numero detail_json text disk) ≡ read_text path disk
  read_text-repointed path detail_json none disk other = refl
  read_text-repointed path detail_json (some text) disk other =
      read_text-write_text path detail_json text disk other

  abbrev Keeps : Parts → Parts → Text → Renamed → Type 0
  Keeps current path text r =
      read_text (place_after r.outcome current r.folder path) r.disk ≡ some text

  rename_to-Keeps :
      (current target path : Parts) (text : Text) (taken : Bool) (disk : FileTree)
      → (taken ≡ false → NoneUnder target disk)
      → read_text path disk ≡ some text
      → path ≢ in_folder k now numero current (codes ".detail.json")
      → Keeps current path text (rename_to k now numero current target taken disk)
  rename_to-Keeps current target path text true disk free h other = h
  rename_to-Keeps current target path text false disk free h other =
      let beside = read_text-beside target path disk text (free refl) h in
      read_text-repointed (path_moved current target path)
        (in_folder k now numero target (codes ".detail.json")) _ _
        (moved_elsewhere current target path _ beside other)
      ∙ read_text-move_folder current target path disk (free refl) beside
      ∙ h

  rename_under-Keeps :
      (current target_parent path : Parts) (new_leaf text : Text) (same : Bool) (disk : FileTree)
      → IsTree disk
      → read_text path disk ≡ some text
      → path ≢ in_folder k now numero current (codes ".detail.json")
      → Keeps current path text (rename_under k now numero current target_parent new_leaf same disk)
  rename_under-Keeps current target_parent path new_leaf text true disk tree h other = h
  rename_under-Keeps current target_parent path new_leaf text false disk tree h other =
      rename_to-Keeps current (target_parent ++ new_leaf ∷ []) path text _
        (make_dirs [] target_parent disk) (free_target target_parent new_leaf disk tree)
        (read_text-make_dirs path [] target_parent disk text h) other

  rename_existing-Keeps :
      (current path : Parts) (new_leaf new_date_folder text : Text) (there : Bool) (disk : FileTree)
      → IsTree disk
      → read_text path disk ≡ some text
      → path ≢ in_folder k now numero current (codes ".detail.json")
      → Keeps current path text
          (rename_existing k now numero current new_leaf new_date_folder there disk)
  rename_existing-Keeps current path new_leaf new_date_folder text false disk tree h other = h
  rename_existing-Keeps current path new_leaf new_date_folder text true disk tree h other =
      rename_under-Keeps current (target_parent_of k now numero current new_date_folder) path
        new_leaf text _ disk tree h other

  -- On a disk where every folder before an entry is itself there: whatever the new leaf and the new
  -- day folder are, and whatever the outcome is, every file but the detail JSON of the record keeps
  -- its text. It stands at its old path, or, after a rename and if it was in the folder, at the same
  -- place in the target.
  pub rename_record_folder-Keeps :
      (current path : Parts) (new_leaf new_date_folder text : Text) (disk : FileTree)
      → IsTree disk
      → read_text path disk ≡ some text
      → path ≢ in_folder k now numero current (codes ".detail.json")
      → Keeps current path text
          (rename_record_folder k now numero current new_leaf new_date_folder disk)
  unfolding rename_record_folder
  rename_record_folder-Keeps current path new_leaf new_date_folder text disk tree h other =
      rename_existing-Keeps current path new_leaf new_date_folder text _ disk tree h other
