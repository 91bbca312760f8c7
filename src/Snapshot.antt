-- ===== src/Snapshot.antt =====
-- src/20_pipeline/015-import-index-snapshot.py: the report of a changedetection watch is parsed,
-- its records are fed to insert_or_update_index, and the outcome is published for the worker. The
-- closed backfill, 016-import-closed-backfill-snapshot.py, runs the same code for other groups.
pub mod Report
pub mod Store
pub mod Stored
pub mod Expected
pub mod Exit
mod Tests
use panamacompra_collector_b.Prelude.{
  ℤ, pos, negsuc, ℕ, ◌+◌, ◌*◌, Bool, true, false, not, ◌&&◌, Option, none, some, List, [], ◌∷◌,
  ◌++◌, map, if◌then◌else◌, Text, codes, ◌==◌, truthy, or_empty, strip, starts_with, member,
}
use panamacompra_collector_b.Unicode.{Unicode, strip_accents, int}
use panamacompra_collector_b.Splits.{split_once, second, last_value}

-- The globals of the module, which 016-import-closed-backfill-snapshot.py sets, and `re.findall`
-- of the pattern (\w+)=(\S+).
pub record Scope : Type 0 where
  pub unicode : Unicode
  pub snapshot_marker : Text
  pub estado_to_group : List (Text × Text)
  pub expected_groups : List Text
  pub findall : Text → List (Text × Text)

-- What a block of the report has said so far; `none` is a key that is not in the dict.
pub record Fields : Type 0 where
  pub numero : Option Text
  pub estado : Option Text
  pub descripcion : Option Text
  pub entidad : Option Text
  pub dependencia : Option Text
  pub fecha : Option Text
  pub modalidad : Option Text
  pub link : Option Text

abbrev pub no_values : Fields
no_values = record {
  numero = none;
  estado = none;
  descripcion = none;
  entidad = none;
  dependencia = none;
  fecha = none;
  modalidad = none;
  link = none;
}

-- A record with its `grupo`.
pub record Entry : Type 0 where
  pub fields : Fields
  pub open fields use *
  pub grupo : Text

-- The entries of one group in `groups`, `page_seen` and `pagination_consistent`.
pub record Group : Type 0 where
  pub name : Text
  pub collected : ℤ
  pub healthy : Bool
  pub reason : Text
  pub recovery_page : ℕ
  pub page_seen : Bool
  pub pagination_consistent : Option Bool

pub data Section : Type 0 where
  header : Section
  pages : Section
  records : Section

-- The variables of `parse_snapshot`, with the records in their order.
pub record Parse : Type 0 where
  pub section : Section
  pub groups : List Group
  pub entries : List Entry
  pub skipped_unexpected_group : List Text
  pub current : Fields

-- `stripped.split(":", 1)[1]` of a text that has a colon.
abbrev pub after_colon : Text → Text
after_colon text = second (split_once b':' text)

abbrev pub new_group : Text → Group
new_group name = record {
  name = name;
  collected = pos 0;
  healthy = false;
  reason = codes "not present in snapshot";
  recovery_page = 0;
  page_seen = false;
  pagination_consistent = none;
}

abbrev group_of : Text → Text → List (Text × Text) → Text
group_of norm estado [] = estado
group_of norm estado ((needle, group) ∷ rest) =
    if starts_with norm needle then group else group_of norm estado rest

abbrev pub set_collected : Option ℤ → Group → Group
set_collected none info = info
set_collected (some n) info = record info { collected = n }

abbrev pub set_recovery : Option ℤ → Group → Group
set_recovery none info = info
set_recovery (some (pos n)) info = record info { recovery_page = n }
set_recovery (some (negsuc n)) info = record info { recovery_page = 0 }

-- `tokens.get("consistent") == "yes"`
abbrev is_yes : Option Text → Bool
is_yes none = false
is_yes (some value) = value == codes "yes"

abbrev or_zero : Option Text → Text
or_zero none = codes "0"
or_zero (some value) = value

module _ (g : Scope) where
  unfoldable pub group_for_estado : Text → Text
  group_for_estado estado =
      group_of (g.unicode.lower (strip_accents g.unicode estado)) estado g.estado_to_group

  unfoldable pub header_line : Text → Group → Group
  header_line stripped info = elim (starts_with stripped (info.name ++ codes " collected:")) [
    | true ↦ set_collected (int g.unicode (strip (after_colon stripped))) info
    | false ↦ info
  ]

  abbrev pub note_pagination : List (Text × Text) → Group → Group
  note_pagination tokens info =
      set_recovery (int g.unicode (or_zero (last_value (codes "first_bad_page") tokens)))
        (record info {
          pagination_consistent = some (is_yes (last_value (codes "consistent") tokens));
        })

  -- The pages section: the health of one group after a line.
  unfoldable pub pages_line : Text → Group → Group
  pages_line stripped info = elim (starts_with stripped (info.name ++ codes " PAGINATION:")) [
    | true ↦ note_pagination (g.findall (after_colon stripped)) info
    | false ↦ elim (starts_with stripped (info.name ++ codes " page ")) [
      | true ↦ record info { page_seen = true }
      | false ↦ elim (starts_with stripped (info.name ++ codes " COMPLETE:")) [
        | true ↦ record info { healthy = true; reason = [] }
        | false ↦ elim (starts_with stripped (info.name ++ codes ":")) [
          | true ↦ record info { healthy = false; reason = strip (after_colon stripped) }
          | false ↦ info
        ]
      ]
    ]
  ]

  unfoldable pub set_field : Text → Text → Fields → Fields
  set_field label value f =
      if label == codes "NUMERO"
      then record f { numero = some value }
      else if label == codes "ESTADO"
      then record f { estado = some value }
      else if label == codes "DESCRIPCION"
      then record f { descripcion = some value }
      else if label == codes "ENTIDAD"
      then record f { entidad = some value }
      else if label == codes "DEPENDENCIA"
      then record f { dependencia = some value }
      else if label == codes "FECHA"
      then record f { fecha = some value }
      else if label == codes "MODALIDAD"
      then record f { modalidad = some value }
      else if label == codes "LINK"
      then record f { link = some value }
      else f

  -- The end of a block: whether it has a number and a link, and whether its group is expected.
  abbrev pub flush_in : Bool → Bool → Text → Parse → Parse
  flush_in false expected grupo s = s
  flush_in true false grupo s = record s {
    skipped_unexpected_group = s.skipped_unexpected_group ++ or_empty s.current.numero ∷ [];
  }
  flush_in true true grupo s = record s {
    entries = s.entries ++ record { fields = s.current; grupo = grupo } ∷ [];
  }

  unfoldable pub flush : Parse → Parse
  flush s =
      let grupo = group_for_estado (or_empty s.current.estado) in
      flush_in (truthy s.current.numero && truthy s.current.link) (member grupo g.expected_groups)
        grupo s

  abbrev pub field_line : Option (Text × Text) → Parse → Parse
  field_line none s = s
  field_line (some (label, value)) s = record s {
    current = set_field (strip label) (strip value) s.current;
  }

  abbrev pub record_line : Bool → Text → Parse → Parse
  record_line true line s = record (flush s) { current = no_values }
  record_line false line s = field_line (split_once b':' line) s

  abbrev pub line_in : Section → Text → Parse → Parse
  line_in header line s = record s { groups = map (header_line (strip line)) s.groups }
  line_in pages line s = record s { groups = map (pages_line (strip line)) s.groups }
  line_in records line s = record_line (strip line == codes "---") line s

  unfoldable pub read_line : Parse → Text → Parse
  read_line s line = elim (strip line == codes "PAGE_COUNTS") [
    | true ↦ record s { section = pages }
    | false ↦ elim (strip line == codes "RECORDS") [
      | true ↦ record s { section = records }
      | false ↦ line_in s.section line s
    ]
  ]

  unfoldable pub read_lines : List Text → Parse → Parse
  read_lines [] s = flush s
  read_lines (line ∷ lines) s = read_lines lines (read_line s line)

  abbrev pub start_parse : Parse
  start_parse = record {
    section = header;
    groups = map new_group g.expected_groups;
    entries = [];
    skipped_unexpected_group = [];
    current = no_values;
  }
