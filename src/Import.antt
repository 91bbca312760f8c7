-- ===== src/Import.antt =====
-- src/50_tools/190-import-remote-archive.py: the rows and the history of another machine's archive
-- are added to this one. The operations of `pathlib` and the folders on disk are parameters; the
-- columns are those of `Opportunity`, and the file copy is the list of the folders that exist.
pub mod Kept
mod Tests
use panamacompra_collector_b.Prelude.{
  ℕ, suc, ◌+◌, Bool, true, false, not, ◌&&◌, ◌||◌, Option, none, some, List, [], ◌∷◌, ◌++◌,
  if◌then◌else◌, keep, any, Text, ◌==◌, truthy, or_empty, coalesce, member,
}
use panamacompra_collector_b.Archive.{Opportunity, StatusEvent, Db, find_existing_opportunity}

pub record Paths : Type 0 where
  -- `a / b`, `Path(p).name`, and `relative_to`, `none` where it raises a ValueError.
  pub join_path : Text → Text → Text
  pub name : Text → Text
  pub relative_to : Text → Text → Option Text
  -- The staged folders that exist, and the two roots.
  pub is_staged : Text → Bool
  pub staged_records_dir : Text
  pub local_records_dir : Text

pub record Copy : Type 0 where
  pub db : Db
  pub local_folders : List Text

pub record Counts : Type 0 where
  pub inserted : ℕ
  pub skipped_existing : ℕ
  pub folders_copied : ℕ

abbrev pub no_counts : Counts
no_counts = record { inserted = 0; skipped_existing = 0; folders_copied = 0 }

abbrev pub in_groups : List Text → Option Text → Bool
in_groups groups none = false
in_groups groups (some grupo) = member grupo groups

module _ (p : Paths) where
  unfoldable pub staged_and_local_dirs : Opportunity → Option (Text × Text)
  staged_and_local_dirs row =
      let date_folder = or_empty row.date_folder in
      let leaf = p.name (or_empty row.record_folder) in
      if not (truthy row.date_folder) || not (truthy row.record_folder)
      then none
      else some (
        p.join_path (p.join_path p.staged_records_dir date_folder) leaf,
        p.join_path (p.join_path p.local_records_dir date_folder) leaf,
      )

  -- `local_dest / relative`, `none` where it raises a TypeError: there is no destination.
  abbrev pub moved : Option Text → Text → Option Text
  moved none relative = none
  moved (some dest) relative = some (p.join_path dest relative)

  unfoldable pub remap_path : Option Text → Option Text → Option Text → Option (Option Text)
  remap_path value record_folder local_dest =
      if not (truthy value) || not (truthy record_folder)
      then some value
      else elim (p.relative_to (or_empty value) (or_empty record_folder)) [
        | none ↦ some value
        | some relative ↦ elim (moved local_dest relative) [
          | none ↦ none
          | some path ↦ some (some path)
        ]
      ]

  -- The folder is copied unless it is there already.
  unfoldable pub copy_record_folder : Option (Text × Text) → Bool → List Text → Bool × List Text
  copy_record_folder none dry_run folders = (false, folders)
  copy_record_folder (some (staged_source, local_dest)) dry_run folders =
      if not (p.is_staged staged_source)
      then (false, folders)
      else if member local_dest folders
      then (false, folders)
      else if dry_run
      then (true, folders)
      else (true, folders ++ local_dest ∷ [])

  abbrev pub dest_of : Option (Text × Text) → Option Text
  dest_of none = none
  dest_of (some (staged_source, local_dest)) = some local_dest

  abbrev set_paths : Opportunity → Option Text → Option Text → Option Text → Opportunity
  set_paths row folder index_path detail_path = record row {
    origin = record row.origin { record_folder = folder; index_json_path = index_path };
    detail = record row.detail { detail_json_path = detail_path };
  }

  abbrev both {ℓ κ λ'} :
      {A : Type ℓ} {B : Type κ} {C : Type λ'} → Option A → Option B → (A → B → C) → Option C
  both none b f = none
  both (some a) none f = none
  both (some a) (some b) f = some (f a b)

  unfoldable pub remapped : Opportunity → Option Opportunity
  remapped row =
      let dest = dest_of (staged_and_local_dirs row) in
      both (remap_path row.index_json_path row.record_folder dest)
        (remap_path row.detail_json_path row.record_folder dest)
        (set_paths row (coalesce dest row.record_folder))

  unfoldable pub insert_row : Bool → Opportunity → Db → Db
  insert_row true row db = db
  insert_row false row db = record db { opportunities = db.opportunities ++ row ∷ [] }

  abbrev pub counted : Bool → Counts → Counts
  counted copied c = record c {
    inserted = suc c.inserted;
    folders_copied = if copied then suc c.folders_copied else c.folders_copied;
  }

  abbrev pub skipped_one : Counts → Counts
  skipped_one c = record c { skipped_existing = suc c.skipped_existing }

  abbrev pub add_new :
      Bool → Opportunity → Option Opportunity → Copy × Counts → Option (Copy × Counts)
  add_new dry_run row none (s, c) = none
  add_new dry_run row (some new) (s, c) =
      let copied = copy_record_folder (staged_and_local_dirs row) dry_run s.local_folders in
      some
        (record { db = insert_row dry_run new s.db; local_folders = copied.1 }, counted copied.0 c)

  abbrev pub import_one :
      Bool → Opportunity → Option Opportunity → Copy × Counts → Option (Copy × Counts)
  import_one dry_run row (some found) (s, c) = some (s, skipped_one c)
  import_one dry_run row none (s, c) = add_new dry_run row (remapped row) (s, c)

  abbrev pub and_on {ℓ} : {A : Type ℓ} → Option A → (A → Option A) → Option A
  and_on none next = none
  and_on (some a) next = next a

  unfoldable pub import_rows : Bool → List Opportunity → Copy × Counts → Option (Copy × Counts)
  import_rows dry_run [] r = some r
  import_rows dry_run (row ∷ rows) r =
      and_on (import_one dry_run row (find_existing_opportunity (r.0).db row.numero) r)
        (import_rows dry_run rows)

  -- `none` is the TypeError that stops the import.
  unfoldable pub import_opportunities : Db → List Text → Bool → Copy → Option (Copy × Counts)
  import_opportunities remote groups dry_run s =
      import_rows dry_run (keep (λ row. in_groups groups row.grupo) remote.opportunities)
        (s, no_counts)

unfoldable pub same_event : StatusEvent → StatusEvent → Bool
same_event a b =
    a.numero == b.numero && a.observed_at == b.observed_at && a.change_code == b.change_code

-- The loop of `import_status_history`: the history, the inserted and the skipped events.
abbrev inserted_one : List StatusEvent × ℕ × ℕ → List StatusEvent × ℕ × ℕ
inserted_one (history, inserted, skipped) = (history, suc inserted, skipped)

abbrev skipped_event : List StatusEvent × ℕ × ℕ → List StatusEvent × ℕ × ℕ
skipped_event (history, inserted, skipped) = (history, inserted, suc skipped)

unfoldable pub import_events : Bool → List StatusEvent → List StatusEvent → List StatusEvent × ℕ × ℕ
import_events dry_run [] history = (history, 0, 0)
import_events dry_run (event ∷ events) history = elim (any (λ old. same_event old event) history) [
  | true ↦ skipped_event (import_events dry_run events history)
  | false ↦
      inserted_one
        (import_events dry_run events (if dry_run then history else history ++ event ∷ []))
]

unfoldable pub import_status_history : Db → List Text → Bool → Db → Db × ℕ × ℕ
import_status_history remote groups dry_run db =
    let (history, inserted, skipped) =
      import_events dry_run
        (keep
          (λ event.
            any (λ row. row.numero == event.numero && in_groups groups row.grupo)
              remote.opportunities)
          remote.history)
        db.history in
    (record db { history = history }, inserted, skipped)
