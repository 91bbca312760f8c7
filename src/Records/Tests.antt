-- ===== src/Records/Tests.antt =====
-- The renaming of a record folder, run on examples.
use panamacompra_collector_b.Prelude.{
  ℕ, ◌≡◌, refl, ap, ◌≢◌, some, [], ◌∷◌, ◌++◌, length, codes, ◌==◌, is_space, lstrip_by, strip_by,
  strip,
}
use panamacompra_collector_b.Regex.{squeeze}
use panamacompra_collector_b.Naming.{clean, is_safe, is_kept, at_ends, safe_name}
use panamacompra_collector_b.Records.{
  Parts, FileTree, same_path, path_within, entry_at, exists, read_text, write_text, make_dirs,
  move_folder, folder_entry, already, renamed, Renamed, Library, in_folder, rename_record_folder,
}
use panamacompra_collector_b.Records.Moving.{IsTree}
use panamacompra_collector_b.Records.Kept.{place_after, rename_record_folder-Keeps}

program : Unit {0}
unfolding codes ◌==◌ is_space lstrip_by strip_by strip squeeze clean is_safe is_kept at_ends
    safe_name same_path path_within entry_at exists read_text write_text make_dirs move_folder
    rename_record_folder
program = tt

abbrev library : Library
library = record {
  text_of_path = λ p. codes "path";
  repoint = λ files from now text. some (text ++ codes "+" ++ from);
}

abbrev old : Parts
old = codes "r" ∷ codes "d" ∷ codes "N-1" ∷ []

abbrev index_file : Parts
index_file = old ++ codes "N-1.json" ∷ []

abbrev disk : FileTree
disk =
    folder_entry (codes "r" ∷ [])
    ∷ folder_entry (codes "r" ∷ codes "d" ∷ [])
    ∷ folder_entry old
    ∷ record { path = index_file; content = some (codes "index") }
    ∷ record { path = old ++ codes "N-1.detail.json" ∷ []; content = some (codes "detail") }
    ∷ []

disk-IsTree : IsTree disk
unfolding program
disk-IsTree = (
  (refl, tt),
  (
    (refl, (refl, tt)),
    (
      (refl, (refl, (refl, tt))),
      ((refl, (refl, (refl, (refl, tt)))), ((refl, (refl, (refl, (refl, tt)))), tt)),
    ),
  ),
)

index_there : read_text index_file disk ≡ some (codes "index")
unfolding program
index_there = refl

abbrev after : Renamed
after = rename_record_folder library (codes "now") (codes "N-1") old (codes "(x)") (codes "e") disk

moved_to_day : after.outcome ≡ renamed
unfolding program
moved_to_day = refl

index_moved :
    read_text (codes "r" ∷ codes "e" ∷ codes "(x)" ∷ codes "N-1.json" ∷ []) after.disk
    ≡ some (codes "index")
unfolding program
index_moved = refl

detail_repointed :
    read_text (codes "r" ∷ codes "e" ∷ codes "(x)" ∷ codes "N-1.detail.json" ∷ []) after.disk
    ≡ some (codes "detail+path")
unfolding program
detail_repointed = refl

abbrev again : Renamed
again = rename_record_folder library (codes "now") (codes "N-1") old (codes "N-1") [] disk

stays : again.outcome ≡ already
unfolding program
stays = refl

index_other : index_file ≢ in_folder library (codes "now") (codes "N-1") old (codes ".detail.json")
unfolding program
index_other h = cc (ap length_of_last h)
  where
    length_of_last : Parts → ℕ
    length_of_last [] = 0
    length_of_last (a ∷ []) = length a
    length_of_last (a ∷ b ∷ p) = length_of_last (b ∷ p)

rename_record_folder-Keeps_example :
    read_text (place_after after.outcome old after.folder index_file) after.disk
    ≡ some (codes "index")
rename_record_folder-Keeps_example =
    rename_record_folder-Keeps library (codes "now") (codes "N-1") old index_file (codes "(x)")
      (codes "e") (codes "index") disk disk-IsTree index_there index_other
