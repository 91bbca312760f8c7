-- ===== src/Details/Items.antt =====
-- The items of a detail page: from the grid among its tables, or from its text.
use panamacompra_collector_b.Prelude.{
  str, ℕ, zero, suc, Bool, true, false, not, ◌&&◌, ◌||◌, Option, none, some, List, [], ◌∷◌, ◌++◌,
  eqb, if◌then◌else◌, length, Text, codes, ◌==◌, is_empty, is_space, contains,
}
use panamacompra_collector_b.Unicode.{Unicode, strip_accents}
use panamacompra_collector_b.Splits.{splitlines}
use panamacompra_collector_b.Naming.{clean, is_decimal, text_or}
use panamacompra_collector_b.Regex.{
  Pattern, Match, then_, one, maybe, some_of, group, at_end, matches, search,
}
use panamacompra_collector_b.Details.Fields.{norm_label, items_header}

pub record PageTable : Type 0 where
  pub raw_rows : List (List Text)
  pub key_values : List (Text × Text)

-- The column of each field of the grid.
pub record Columns : Type 0 where
  pub r : Option ℕ
  pub codigo : Option ℕ
  pub clasificacion : Option ℕ
  pub cantidad : Option ℕ
  pub unidad : Option ℕ
  pub descripcion : Option ℕ
  pub ses : Option ℕ

abbrev pub no_columns : Columns
no_columns = record {
  r = none;
  codigo = none;
  clasificacion = none;
  cantidad = none;
  unidad = none;
  descripcion = none;
  ses = none;
}

abbrev pub is_absent : Option ℕ → Bool
is_absent none = true
is_absent (some i) = false

abbrev pub with_column : Text → ℕ → Columns → Columns
with_column h i idx =
    if h == codes "r" && is_absent idx.r
    then record idx { r = some i }
    else if contains h (codes "codigo")
    then record idx { codigo = some i }
    else if contains h (codes "clasificac")
    then record idx { clasificacion = some i }
    else if contains h (codes "cantidad")
    then record idx { cantidad = some i }
    else if contains h (codes "unidad")
    then record idx { unidad = some i }
    else if contains h (codes "descripcion")
    then record idx { descripcion = some i }
    else if contains h (codes "ses")
    then record idx { ses = some i }
    else idx

unfoldable pub columns_from : Unicode → ℕ → List Text → Columns → Columns
columns_from u i [] idx = idx
columns_from u i (raw ∷ header) idx =
    columns_from u (suc i) header (with_column (norm_label u raw) i idx)

unfoldable pub items_header_index : Unicode → List Text → Columns
items_header_index u header = columns_from u 0 header no_columns

pub record Item : Type 0 where
  pub r : Text
  pub codigo : Text
  pub clasificacion : Text
  pub cantidad : Text
  pub unidad_de_medida : Text
  pub descripcion : Text
  pub ses : Text

-- `row[j]`, or no text past the end of the row.
abbrev pub cell_at : ℕ → List Text → Text
cell_at n [] = []
cell_at zero (cell ∷ row) = cell
cell_at (suc n) (cell ∷ row) = cell_at n row

abbrev pub cell : List Text → Option ℕ → Text
cell row none = []
cell row (some j) = clean (cell_at j row)

abbrev pub item_of_row : Columns → List Text → ℕ → Item
item_of_row idx row count = record {
  r = text_or (cell row idx.r) (str (suc count));
  codigo = cell row idx.codigo;
  clasificacion = cell row idx.clasificacion;
  cantidad = cell row idx.cantidad;
  unidad_de_medida = cell row idx.unidad;
  descripcion = cell row idx.descripcion;
  ses = cell row idx.ses;
}

unfoldable pub items_of_rows : Columns → ℕ → List (List Text) → List Item → List Item
items_of_rows idx width [] items = items
items_of_rows idx width (row ∷ rows) items = items_of_rows idx width rows (
    if not (eqb (length row) width) || is_empty (cell row idx.descripcion)
    then items
    else items ++ item_of_row idx row (length items) ∷ [])

abbrev pub items_of_grid : Columns → List Text → List (List Text) → List Item
items_of_grid idx header rows =
    if is_absent idx.descripcion || is_absent idx.cantidad
    then []
    else items_of_rows idx (length header) rows []

abbrev pub items_of_table : Unicode → List (List Text) → List Item
items_of_table u (header ∷ row ∷ rows) =
    items_of_grid (items_header_index u header) header (row ∷ rows)
items_of_table u rows = []

abbrev pub or_items : List Item → List Item → List Item
or_items [] items = items
or_items (item ∷ found) items = item ∷ found

unfoldable pub items_from_tables : Unicode → List PageTable → List Item
items_from_tables u [] = []
items_from_tables u (table ∷ tables) =
    or_items (items_of_table u table.raw_rows) (items_from_tables u tables)

-- ^(\d+(?:[.,]\d+)?)\s+(\S+)\s+(.+)$
unfoldable pub item_line : Unicode → Pattern
item_line u =
    then_
      (group (
        then_ (some_of (is_decimal u))
          (maybe [] (then_ (one (λ c. eqb c b'.' || eqb c b',')) (some_of (is_decimal u))))))
      (then_ (some_of is_space) (
        then_ (group (some_of (λ c. not (is_space c))))
          (then_ (some_of is_space) (then_ (group (some_of (λ c. not (eqb c 10)))) at_end))))

-- The lines after the header of the items.
unfoldable pub after_header : Unicode → List Text → List Text
after_header u [] = []
after_header u (raw ∷ lines) = elim (matches (search items_header (strip_accents u (clean raw)))) [
  | true ↦ lines
  | false ↦ after_header u lines
]

abbrev pub item_of_groups : List Text → ℕ → List Item
item_of_groups (cantidad ∷ unidad ∷ descripcion ∷ []) count =
    record {
      r = str (suc count);
      codigo = [];
      clasificacion = [];
      cantidad = cantidad;
      unidad_de_medida = unidad;
      descripcion = clean descripcion;
      ses = [];
    }
    ∷ []
item_of_groups groups count = []

abbrev pub item_of_match : List Match → ℕ → List Item
item_of_match [] count = []
item_of_match ((groups, rest) ∷ found) count = item_of_groups groups count

-- Empty lines are passed over; the first line that is no item ends the items.
unfoldable pub items_of_lines : Unicode → List Text → ℕ → List Item
items_of_lines u [] count = []
items_of_lines u (raw ∷ lines) count = elim (clean raw) [
  | [] ↦ items_of_lines u lines count
  | (c ∷ line) ↦ elim (item_of_match (item_line u (c ∷ line)) count) [
    | [] ↦ []
    | (item ∷ more) ↦ item ∷ items_of_lines u lines (suc count)
  ]
]

unfoldable pub items_from_text : Unicode → Text → List Item
items_from_text u text = items_of_lines u (after_header u (splitlines text)) 0

unfoldable pub parse_detail_items : Unicode → Text → List PageTable → List Item
parse_detail_items u text tables = or_items (items_from_tables u tables) (items_from_text u text)
