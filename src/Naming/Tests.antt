-- ===== src/Naming/Tests.antt =====
-- The names of record folders, run on examples.
use panamacompra_collector_b.Prelude.{
  str, ◌≡◌, refl, [], keep, any, codes, ◌==◌, is_space, lstrip_by, strip_by, strip, starts_with,
  contains, member,
}
use panamacompra_collector_b.Unicode.{ascii, strip_accents}
use panamacompra_collector_b.Prelude.{digits_before}
use mathlib.Core.List.{flat_map}
use panamacompra_collector_b.Filter.{split_by, join}
use panamacompra_collector_b.Regex.{squeeze, then_, group, exactly, search_from, search}
use panamacompra_collector_b.Naming.{
  clean, is_safe, is_kept, at_ends, safe_name, short_description, desc_slug,
  build_record_folder_leaf, iso_date, date_folder_from_finish_stamp, section_stopwords,
  section_identifier, split_file_label, detect_url_type,
}
use panamacompra_collector_b.Naming.Safe.{IsComponent, build_record_folder_leaf-IsComponent}

naming : Unit {0}
unfolding codes ◌==◌ flat_map is_space lstrip_by strip_by strip contains starts_with member keep any
    squeeze clean is_safe is_kept at_ends safe_name
naming = tt

slug_of_words :
    desc_slug ascii 24 (codes "FORIS 126: Compras de Caja plasticas")
    ≡ codes "FRS-126-CMPRS-D-CJ-PLSTC"
unfolding naming desc_slug strip_accents
slug_of_words = refl

leaf_of_record :
    build_record_folder_leaf (codes "2022-10-11_12:00") (codes "2022-0-12") (codes "FRS")
    ≡ codes "(2022-10-11_12-00)-(2022-0-12)-(FRS)"
unfolding naming build_record_folder_leaf
leaf_of_record = refl

day_of_leaf :
    date_folder_from_finish_stamp ascii (codes "(2022-10-11_12-00)-(2022-0-12)-(FRS)")
    ≡ codes "22-10-11"
unfolding naming date_folder_from_finish_stamp search search_from iso_date then_ group exactly
day_of_leaf = refl

section_of_title :
    section_identifier ascii (codes "Items de la cotizacion") 3 ≡ codes "items-cotizacion"
unfolding naming section_identifier section_stopwords strip_accents split_by join
section_of_title = refl

section_without_title : section_identifier ascii [] 3 ≡ codes "tabla-003"
unfolding naming section_identifier section_stopwords strip_accents split_by join str digits_before
section_without_title = refl

described : short_description (codes " a  <b> ") ≡ codes "a b"
unfolding naming short_description
described = refl

preview :
    detect_url_type ascii (codes "https://p/v2/#!/vistaPreviaCP?NumLc=1") ≡ codes "vista-previa"
unfolding naming detect_url_type
preview = refl

file_label : split_file_label ascii (codes "a_b c") ≡ codes "A-B_C"
unfolding naming split_file_label strip_accents
file_label = refl

cleaned : safe_name (codes "  a/b  c.") ≡ codes "a_b_c"
unfolding naming
cleaned = refl

build_record_folder_leaf-IsComponent_example :
    IsComponent 488
      (build_record_folder_leaf (codes "2026-06-23_08:00") (codes "2026-0/1") (codes "..x"))
build_record_folder_leaf-IsComponent_example =
    build_record_folder_leaf-IsComponent (codes "2026-06-23_08:00") (codes "2026-0/1") (codes "..x")
