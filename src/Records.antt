-- ===== src/Records.antt =====
-- The folder of a record on disk: `rename_record_folder` of src/common.py, and the files of an
-- archive. A path is the list of its components; the disk is the list of its files and folders.
pub mod Moving
pub mod Kept
mod Tests
use panamacompra_collector_b.Prelude.{
  ◌+◌, Bool, true, false, ◌&&◌, Option, none, some, List, [], ◌∷◌, ◌++◌, map, if◌then◌else◌, Text,
  codes, ◌==◌,
}
use mathlib.Core.Option
use panamacompra_collector_b.Naming.{safe_name}

abbrev pub Parts : Type 0
Parts = List Text

-- A file with its text, or a folder.
pub record FileEntry : Type 0 where
  pub path : Parts
  pub content : Option Text

abbrev pub FileTree : Type 0
FileTree = List FileEntry

unfoldable pub same_path : Parts → Parts → Bool
same_path [] [] = true
same_path [] (b ∷ q) = false
same_path (a ∷ p) [] = false
same_path (a ∷ p) (b ∷ q) = a == b && same_path p q

-- `path.relative_to(folder)`, for a path in the folder.
unfoldable pub path_within : Parts → Parts → Option Parts
path_within [] path = some path
path_within (a ∷ folder) [] = none
path_within (a ∷ folder) (b ∷ path) = elim (a == b) [
  | true ↦ path_within folder path
  | false ↦ none
]

-- The entry of a path; `path.exists()`; `path.read_text()`.
unfoldable pub entry_at : Parts → FileTree → Option FileEntry
entry_at p [] = none
entry_at p (e ∷ disk) = elim (same_path e.path p) [ true ↦ some e | false ↦ entry_at p disk ]

abbrev pub is_there : Option FileEntry → Bool
is_there none = false
is_there (some e) = true

unfoldable pub exists : Parts → FileTree → Bool
exists p disk = is_there (entry_at p disk)

abbrev pub content_of : Option FileEntry → Option Text
content_of none = none
content_of (some e) = e.content

unfoldable pub read_text : Parts → FileTree → Option Text
read_text p disk = content_of (entry_at p disk)

-- `path.write_text(text)` of a file that exists.
unfoldable pub write_text : Parts → Text → FileTree → FileTree
write_text p text [] = []
write_text p text (e ∷ disk) = elim (same_path e.path p) [
  | true ↦ record e { content = some text } ∷ disk
  | false ↦ e ∷ write_text p text disk
]

-- `path.parent` and `path.name`
abbrev pub parent : Parts → Parts
parent [] = []
parent (a ∷ []) = []
parent (a ∷ b ∷ p) = a ∷ parent (b ∷ p)

abbrev pub name_of : Parts → Text
name_of [] = []
name_of (a ∷ []) = a
name_of (a ∷ b ∷ p) = name_of (b ∷ p)

abbrev pub folder_entry : Parts → FileEntry
folder_entry p = record { path = p; content = none }

-- `path.mkdir(parents=True, exist_ok=True)`: the folders before the path, and what is left of it.
unfoldable pub make_dirs : Parts → Parts → FileTree → FileTree
make_dirs before [] disk = disk
make_dirs before (a ∷ p) disk =
    let folder = before ++ a ∷ [] in
    make_dirs folder p (if exists folder disk then disk else disk ++ folder_entry folder ∷ [])

-- `current.rename(target)` of a folder, where there is no target yet.
abbrev pub moved_path : Parts → Parts → Option Parts → Parts
moved_path target path none = path
moved_path target path (some rest) = target ++ rest

abbrev pub move_entry : Parts → Parts → FileEntry → FileEntry
move_entry current target e = record e {
  path = moved_path target e.path (path_within current e.path);
}

unfoldable pub move_folder : Parts → Parts → FileTree → FileTree
move_folder current target disk = map (move_entry current target) disk

pub data RenameOutcome : Type 0 where
  already : RenameOutcome
  missing : RenameOutcome
  conflict : RenameOutcome
  renamed : RenameOutcome

-- The `files` of a detail JSON.
pub record DetailFiles : Type 0 where
  pub index_json : Text
  pub detail_json : Text
  pub detail_html : Text
  pub detail_txt : Text
  pub calendar_ics : Text
  pub tables_folder : Text

-- The UPDATE of the record's path columns.
pub record Placement : Type 0 where
  pub numero : Text
  pub record_folder : Text
  pub index_json_path : Text
  pub detail_json_path : Text
  pub record_folder_leaf : Text
  pub db_reviewed_at : Text

pub record Renamed : Type 0 where
  pub outcome : RenameOutcome
  pub folder : Parts
  pub disk : FileTree
  pub placement : Option Placement

-- What is not in the repository: `str` of a path, and the reading and writing of a JSON text, with
-- its `files`, `folder_renamed_from` and `folder_renamed_at` replaced. `none` is a text that is no JSON.
pub record Library : Type 0 where
  pub text_of_path : Parts → Text
  pub repoint : DetailFiles → Text → Text → Text → Option Text

abbrev pub unchanged : RenameOutcome → Parts → FileTree → Renamed
unchanged outcome folder disk = record {
  outcome = outcome;
  folder = folder;
  disk = disk;
  placement = none;
}

module _ (k : Library) (now numero : Text) where
  abbrev pub in_folder : Parts → Text → Parts
  in_folder folder suffix = folder ++ (safe_name numero ++ suffix) ∷ []

  abbrev pub detail_files : Parts → DetailFiles
  detail_files target = record {
    index_json = k.text_of_path (in_folder target (codes ".json"));
    detail_json = k.text_of_path (in_folder target (codes ".detail.json"));
    detail_html = k.text_of_path (in_folder target (codes ".detail.html"));
    detail_txt = k.text_of_path (in_folder target (codes ".detail.txt"));
    calendar_ics = k.text_of_path (in_folder target (codes ".calendar.ics"));
    tables_folder = k.text_of_path (target ++ codes "tables" ∷ []);
  }

  abbrev pub repointed : Parts → Option Text → FileTree → FileTree
  repointed detail_json none disk = disk
  repointed detail_json (some text) disk = write_text detail_json text disk

  abbrev pub new_detail : Parts → Parts → Option Text → Option Text
  new_detail current target none = none
  new_detail current target (some text) =
      k.repoint (detail_files target) (k.text_of_path current) now text

  -- The paths of the moved detail JSON; a file that is absent or no JSON stays as it is.
  abbrev pub repoint_detail : Parts → Parts → FileTree → FileTree
  repoint_detail current target disk =
      let detail_json = in_folder target (codes ".detail.json") in
      repointed detail_json (new_detail current target (read_text detail_json disk)) disk

  abbrev placement_of : Parts → Placement
  placement_of target = record {
    numero = numero;
    record_folder = k.text_of_path target;
    index_json_path = k.text_of_path (in_folder target (codes ".json"));
    detail_json_path = k.text_of_path (in_folder target (codes ".detail.json"));
    record_folder_leaf = name_of target;
    db_reviewed_at = now;
  }

  abbrev pub rename_to : Parts → Parts → Bool → FileTree → Renamed
  rename_to current target true disk = unchanged conflict target disk
  rename_to current target false disk = record {
    outcome = renamed;
    folder = target;
    disk = repoint_detail current target (move_folder current target disk);
    placement = some (placement_of target);
  }

  abbrev pub target_parent_of : Parts → Text → Parts
  target_parent_of current [] = parent current
  target_parent_of current (c ∷ date_folder) =
      parent (parent current) ++ safe_name (c ∷ date_folder) ∷ []

  abbrev pub rename_under : Parts → Parts → Text → Bool → FileTree → Renamed
  rename_under current target_parent new_leaf true disk = unchanged already current disk
  rename_under current target_parent new_leaf false disk =
      let made = make_dirs [] target_parent disk in
      let target = target_parent ++ new_leaf ∷ [] in
      rename_to current target (exists target made) made

  abbrev pub rename_existing : Parts → Text → Text → Bool → FileTree → Renamed
  rename_existing current new_leaf new_date_folder false disk = unchanged missing current disk
  rename_existing current new_leaf new_date_folder true disk =
      let target_parent = target_parent_of current new_date_folder in
      rename_under current target_parent new_leaf
        (same_path (parent current) target_parent && name_of current == new_leaf) disk

  -- The new leaf is one component of a path; an absent day folder is the empty text.
  unfoldable pub rename_record_folder : Parts → Text → Text → FileTree → Renamed
  rename_record_folder current new_leaf new_date_folder disk =
      rename_existing current new_leaf new_date_folder (exists current disk) disk
