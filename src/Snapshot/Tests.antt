-- ===== src/Snapshot/Tests.antt =====
-- A report with one healthy group, one record of it, and one record of another group.
use panamacompra_collector_b.Prelude.{
  ◌≡◌, refl, true, false, none, [], ◌∷◌, map, keep, any, Text, codes, ◌==◌, or_empty, strip,
  starts_with, member,
}
use mathlib.Core.List.{flat_map}
use panamacompra_collector_b.Unicode.{ascii, strip_accents, digits_value, int}
use panamacompra_collector_b.ClosedIndex.{Folder}
use panamacompra_collector_b.Samples.{empty_db}
use panamacompra_collector_b.Snapshot.{
  Scope, group_for_estado, header_line, pages_line, set_field, flush, read_line, read_lines,
}
use panamacompra_collector_b.Splits.{splitlines, lines_from, split_once, last_value}
use panamacompra_collector_b.Snapshot.Report.{check_group, parse_snapshot}
use panamacompra_collector_b.Snapshot.Store.{Disk, main}
use panamacompra_collector_b.Snapshot.Exit.{Reports, main-Reports}

program : Unit {0}
unfolding codes ◌==◌ strip starts_with member any keep splitlines lines_from split_once last_value
    group_for_estado header_line pages_line set_field flush read_line read_lines check_group
    parse_snapshot strip_accents digits_value int flat_map
program = tt

abbrev scope : Scope
scope = record {
  unicode = ascii;
  snapshot_marker = codes "PANAMACOMPRA_MONITOR";
  estado_to_group =
      (codes "programad", codes "Programadas") ∷ (codes "abiert", codes "Abiertas") ∷ [];
  expected_groups = codes "Programadas" ∷ codes "Abiertas" ∷ [];
  findall = λ text. [];
}

abbrev folder : Folder
folder = record {
  date_folder = codes "26-06-23";
  record_folder = codes "/r/26-06-23";
  index_json_path = codes "/r/26-06-23/i.json";
  complete = false;
}

abbrev disk : Disk
disk = record {
  now_iso = codes "2026-07-01T10:00:00";
  find_existing_record_archive = λ numero. none;
  new_folder = λ r. folder;
}

abbrev report : Text
report =
    codes
      "PANAMACOMPRA_MONITOR\nAbiertas collected: 1\nPAGE_COUNTS\nAbiertas page 1: 1\nAbiertas COMPLETE: 1 pages\nRECORDS\nNUMERO: N-1\nESTADO: Abierta\nLINK: https://p/1\n---\nNUMERO: N-2\nESTADO: Cerrada\nLINK: https://p/2\n"

group_health : map (λ info. info.healthy) (parse_snapshot scope report).groups ≡ false ∷ true ∷ []
unfolding program
group_health = refl

parsed_records :
    map (λ r. or_empty r.numero) (parse_snapshot scope report).entries ≡ codes "N-1" ∷ []
unfolding program
parsed_records = refl

skipped_records : (parse_snapshot scope report).skipped_unexpected_group ≡ codes "N-2" ∷ []
unfolding program
skipped_records = refl

main-Reports_example :
    Reports (parse_snapshot scope report) empty_db (main scope disk report 10 0 empty_db)
main-Reports_example = main-Reports scope disk report 10 0 empty_db
