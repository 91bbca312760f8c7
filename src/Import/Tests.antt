-- ===== src/Import/Tests.antt =====
-- An import of one record, into an archive that has another.
use panamacompra_collector_b.Prelude.{
  suc, ◌≡◌, refl, true, false, none, some, [], ◌∷◌, ◌++◌, if◌then◌else◌, length, drop, keep, Text,
  codes, ◌==◌, starts_with, member,
}
use panamacompra_collector_b.Table
use panamacompra_collector_b.Samples.{announced, empty_db}
use panamacompra_collector_b.Archive.{Db, find_existing_opportunity}
use panamacompra_collector_b.Import.{
  Paths, Copy, Counts, no_counts, in_groups, remapped, remap_path, staged_and_local_dirs,
  import_rows, import_opportunities, copy_record_folder, insert_row,
}
use panamacompra_collector_b.Import.Kept.{Keeps, import_opportunities-Keeps}

abbrev slash : Text
slash = codes "/"

-- Paths by their text, for a root of one machine.
abbrev paths : Paths
paths = record {
  join_path = λ a b. a ++ slash ++ b;
  name = λ p. drop 12 p;
  relative_to = λ value folder.
      if starts_with value folder then some (drop (suc (length folder)) value) else none;
  is_staged = λ folder. true;
  staged_records_dir = codes "/staged";
  local_records_dir = codes "/here";
}

abbrev remote : Db
remote = record empty_db {
  opportunities =
      announced "N-1" "Closed" "Cerrada" "Abierta"
      ∷ announced "N-2" "Closed" "Cerrada" "Abierta"
      ∷ [];
}

abbrev here : Copy
here = record {
  db = record empty_db { opportunities = announced "N-2" "Abiertas" "Abierta" "Abierta" ∷ [] };
  local_folders = [];
}

abbrev result : Copy × Counts
result = elim (import_opportunities paths remote (codes "Closed" ∷ []) false here) [
  | none ↦ (here, no_counts)
  | some r ↦ r
]

program : Unit {0}
unfolding codes ◌==◌ keep member starts_with import_opportunities import_rows remapped remap_path
    staged_and_local_dirs copy_record_folder insert_row find_existing_opportunity Table.find
program = tt

ends : import_opportunities paths remote (codes "Closed" ∷ []) false here ≡ some result
unfolding program
ends = refl

counts : result.1 ≡ record { inserted = 1; skipped_existing = 1; folders_copied = 1 }
unfolding program
counts = refl

import_opportunities-Keeps_example :
    Keeps
      (here, no_counts)
      result
      (length (keep (λ row. in_groups (codes "Closed" ∷ []) row.grupo) remote.opportunities))
import_opportunities-Keeps_example =
    import_opportunities-Keeps paths remote (codes "Closed" ∷ []) false here result ends
