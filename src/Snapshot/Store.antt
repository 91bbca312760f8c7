-- ===== src/Snapshot/Store.antt =====
-- The import of the records of a snapshot, and the outcome that the worker reads.
use panamacompra_collector_b.Prelude.{
  str, ℕ, suc, Bool, true, false, not, ◌&&◌, ◌||◌, Option, none, some, List, [], ◌∷◌, ◌++◌, map,
  ltb, if◌then◌else◌, length, keep, Text, codes, is_empty, truthy, or_empty, member,
}
use panamacompra_collector_b.Snapshot.{Scope, Entry, Group, group_for_estado}
use panamacompra_collector_b.Naming
use panamacompra_collector_b.Archive.{Opportunity, Origin, IndexRow, Db, find_existing_opportunity}
use panamacompra_collector_b.Index.{Outcome, new, existing, insert_or_update_index}
use panamacompra_collector_b.ClosedIndex.{Folder}
use panamacompra_collector_b.Filter.{join}
use panamacompra_collector_b.Snapshot.Report.{Parsed, parse_snapshot}

-- What the import finds outside the archive: the clock and the folders on disk.
pub record Disk : Type 0 where
  pub now_iso : Text
  pub find_existing_record_archive : Text → Option Folder
  pub new_folder : Entry → Folder

-- The variables of `import_records`, with the archive.
pub record Stats : Type 0 where
  pub conn : Db
  pub seen : List Text
  pub new_records : ℕ
  pub existing_records : ℕ
  pub skipped_no_link : ℕ

-- `r.get("grupo") or _group_for_estado(...)`
abbrev grupo_or : Text → Text → Text
grupo_or [] other = other
grupo_or (c ∷ grupo) other = c ∷ grupo

module _ (g : Scope) (disk : Disk) where
  abbrev origin_at : Folder → Origin
  origin_at f = record {
    first_seen = some disk.now_iso;
    date_folder = some f.date_folder;
    record_folder = some f.record_folder;
    index_json_path = some f.index_json_path;
  }

  -- Where the record is or goes, its detail status, and whether it was on disk but not in the
  -- archive. A row of the archive has its folder and its index file.
  abbrev unknown_place : Entry → Option Folder → Origin × Option Text × Bool
  unknown_place r none = (origin_at (disk.new_folder r), some (codes "pending"), false)
  unknown_place r (some f) =
      (origin_at f, some (if f.complete then codes "saved" else codes "pending"), true)

  unfoldable pub place_of : Entry → Text → Option Opportunity → Origin × Option Text × Bool
  place_of r numero (some old) = (old.origin, old.detail_status, false)
  place_of r numero none = unknown_place r (disk.find_existing_record_archive numero)

  abbrev finish_of : Option Opportunity → Option Text
  finish_of none = some []
  finish_of (some old) = old.finish_date_guess

  unfoldable pub row_of : Entry → Text → Text → Option Opportunity → IndexRow
  row_of r numero link found =
      let place = place_of r numero found in
      record {
        numero = numero;
        listing = record {
          grupo = some (grupo_or r.grupo (group_for_estado g (or_empty r.estado)));
          estado = some (or_empty r.estado);
          descripcion = some (or_empty r.descripcion);
          short_description = some (Naming.short_description (or_empty r.descripcion));
          entidad = some (or_empty r.entidad);
          dependencia = some (or_empty r.dependencia);
          fecha = some (or_empty r.fecha);
          modalidad = some (or_empty r.modalidad);
          link = some link;
          last_seen = disk.now_iso;
          tipo_url = some (Naming.detect_url_type g.unicode link);
        };
        origin = place.0;
        detail_status = place.1;
        finish_date_guess = finish_of found;
      }

  abbrev pub counted : Outcome → Bool → Stats → Stats
  counted new false s = record s { new_records = suc s.new_records }
  counted new true s = record s { existing_records = suc s.existing_records }
  counted existing on_disk s = record s { existing_records = suc s.existing_records }

  unfoldable pub store : Entry → Text → Text → Stats → Stats
  store r numero link s =
      let found = find_existing_opportunity s.conn numero in
      let result =
        insert_or_update_index g.unicode s.conn (row_of r numero link found) (codes "index") in
      counted result.0 (place_of r numero found).2 (record s { conn = result.1 })

  -- Whether the record has a number and a link, and whether its number was seen.
  abbrev pub import_if : Bool → Bool → Entry → Text → Text → Stats → Stats
  import_if false again r numero link s = record s { skipped_no_link = suc s.skipped_no_link }
  import_if true true r numero link s = s
  import_if true false r numero link s = store r numero link (record s { seen = numero ∷ s.seen })

  unfoldable pub import_record : Entry → Stats → Stats
  import_record r s =
      import_if (truthy r.numero && truthy r.link) (member (or_empty r.numero) s.seen) r
        (or_empty r.numero) (or_empty r.link) s

  unfoldable pub import_from : List Entry → Stats → Stats
  import_from [] s = s
  import_from (r ∷ rest) s = import_from rest (import_record r s)

  unfoldable pub import_records : List Entry → Db → Stats
  import_records entries conn = import_from entries (record {
    conn = conn;
    seen = [];
    new_records = 0;
    existing_records = 0;
    skipped_no_link = 0;
  })

-- `SNAPSHOT_STATUS`
pub data Status : Type 0 where
  unavailable : Status
  imported : Status
  partial : Status

-- The fields of the result file.
pub record ResultEnv : Type 0 where
  pub status : Status
  pub unhealthy_groups : Text
  pub recovery_pages : Text
  pub new_records : ℕ
  pub existing_records : ℕ
  pub unique : ℕ

abbrev pub is_unhealthy : Group → Bool
is_unhealthy info = not info.healthy

abbrev pub unhealthy : List Group → List Text
unhealthy groups = map (λ info. info.name) (keep is_unhealthy groups)

abbrev recoverable : Group → Bool
recoverable info = not info.healthy && ltb 0 info.recovery_page

abbrev recovery_of : Group → Text
recovery_of info = info.name ++ b':' ∷ str info.recovery_page

unfoldable pub write_result_env : Status → List Group → ℕ → ℕ → ℕ → ResultEnv
write_result_env status groups added seen_before unique = record {
  status = status;
  unhealthy_groups = join (codes ",") (unhealthy groups);
  recovery_pages = join (codes ",") (map recovery_of (keep recoverable groups));
  new_records = added;
  existing_records = seen_before;
  unique = unique;
}

abbrev pub no_result : ResultEnv
no_result = write_result_env unavailable [] 0 0 0

abbrev pub status_of : List Text → Status
status_of [] = imported
status_of (name ∷ names) = partial

abbrev pub code_of : List Text → ℕ
code_of [] = 0
code_of (name ∷ names) = 3

module _ (g : Scope) (disk : Disk) where
  abbrev pub import_parsed : Parsed → Db → Db × ResultEnv × ℕ
  import_parsed parsed conn =
      let stats = import_records g disk parsed.entries conn in
      let names = unhealthy parsed.groups in
      (
        stats.conn,
        write_result_env (status_of names) parsed.groups stats.new_records stats.existing_records
            (length stats.seen),
        code_of names,
      )

  abbrev pub import_marked : Bool → Parsed → Db → Db × ResultEnv × ℕ
  import_marked false parsed conn = (conn, no_result, 4)
  import_marked true parsed conn = import_parsed parsed conn

  -- `main` without `--dry-run`: the text that was found, and the age and the limit in seconds.
  unfoldable pub main : Text → ℕ → ℕ → Db → Db × ResultEnv × ℕ
  main text age max_age conn = elim (is_empty text || ltb 0 max_age && ltb max_age age) [
    | true ↦ (conn, no_result, 4)
    | false ↦ let parsed = parse_snapshot g text in import_marked parsed.marker_ok parsed conn
  ]
