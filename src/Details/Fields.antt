-- ===== src/Details/Fields.antt =====
-- The fields of a detail page: labels and values of its lines.
use panamacompra_collector_b.Prelude.{
  Bool, true, false, not, ◌&&◌, ◌||◌, Option, none, some, List, [], ◌∷◌, ◌++◌, map, reverse, eqb,
  if◌then◌else◌, keep, any, all, Text, codes, ◌==◌, is_empty, is_space, lstrip_by, strip, contains,
  member,
}
use panamacompra_collector_b.Unicode.{Unicode, strip_accents}
use panamacompra_collector_b.Filter.{split_by}
use panamacompra_collector_b.Splits.{split_once, splitlines}
use panamacompra_collector_b.Naming.{clean}
use panamacompra_collector_b.Regex.{Pattern, then_, many, some_of, literal, matches, search}
use panamacompra_collector_b.Details.Window.{day_month_year}

abbrev has_two : List Text → Bool
has_two (key ∷ value ∷ []) = true
has_two row = false

-- `dict[key] = value`: an old key keeps its place.
unfoldable pub put : Text → Text → List (Text × Text) → List (Text × Text)
put key value [] = (key, value) ∷ []
put key value ((k, v) ∷ pairs) = elim (k == key) [
  | true ↦ (k, value) ∷ pairs
  | false ↦ (k, v) ∷ put key value pairs
]

abbrev put_row : List Text → List (Text × Text) → List (Text × Text)
put_row (key ∷ value ∷ []) out =
    if is_empty (clean key) then out else put (clean key) (clean value) out
put_row row out = out

unfoldable pub put_rows : List (List Text) → List (Text × Text) → List (Text × Text)
put_rows [] out = out
put_rows (row ∷ rows) out = put_rows rows (put_row row out)

unfoldable pub key_values_from_rows : List (List Text) → List (Text × Text)
key_values_from_rows rows = if all has_two rows then put_rows rows [] else []

abbrev any_on_line : Pattern
any_on_line = many (λ c. not (eqb c 10))

-- cantidad.*unidad\s*de\s*medida.*descripcion
unfoldable pub items_header : Pattern
items_header = then_ (literal (codes "cantidad")) (
    then_ any_on_line (
      then_ (literal (codes "unidad")) (
        then_ (many is_space) (
          then_ (literal (codes "de")) (
            then_ (many is_space) (
              then_ (literal (codes "medida"))
                (then_ any_on_line (literal (codes "descripcion")))))))))

-- item\w*\s+de\s+la\s+cotiz
unfoldable pub items_section : Unicode → Pattern
items_section u = then_ (literal (codes "item")) (
    then_ (many (λ c. u.alnum c || eqb c b'_')) (
      then_ (some_of is_space) (
        then_ (literal (codes "de")) (
          then_ (some_of is_space)
            (then_ (literal (codes "la")) (then_ (some_of is_space) (literal (codes "cotiz"))))))))

unfoldable pub norm_label : Unicode → Text → Text
norm_label u text =
    strip (reverse (lstrip_by (λ c. eqb c b':') (reverse (u.lower (clean (strip_accents u text))))))

unfoldable pub known_labels : List Text
known_labels =
    codes "numero"
    ∷ codes "estado"
    ∷ codes "modalidad"
    ∷ codes "lugar"
    ∷ codes "descripcion"
    ∷ codes "descripcion de la solicitud"
    ∷ codes "objeto de la contratacion"
    ∷ codes "entidad"
    ∷ codes "dependencia"
    ∷ codes "unidad de compra"
    ∷ codes "direccion"
    ∷ codes "provincia de entrega"
    ∷ codes "nombre"
    ∷ codes "cargo"
    ∷ codes "telefono"
    ∷ codes "correo_electronico"
    ∷ codes "correo electronico"
    ∷ codes "forma de entrega"
    ∷ codes "dias de entrega"
    ∷ codes "forma de pago"
    ∷ codes "dia y hora de entrega"
    ∷ codes "precio estimado"
    ∷ codes "enlace publico"
    ∷ codes "enlace interno"
    ∷ codes "fecha y hora presentacion de cotizaciones"
    ∷ codes "fecha de presentacion"
    ∷ codes "fecha y hora de cierre"
    ∷ codes "fecha limite"
    ∷ codes "presentacion de propuestas"
    ∷ codes "numero de proceso"
    ∷ codes "tipo de proceso"
    ∷ codes "titulo"
    ∷ codes "modalidad de adjudicacion"
    ∷ codes "objeto de contratacion"
    ∷ codes "proceso posterior"
    ∷ codes "provincia"
    ∷ codes "direccion de la unidad de compra"
    ∷ codes "fecha de publicacion"
    ∷ codes "termino de entrega"
    ∷ []

abbrev pub is_known : Unicode → Text → Bool
is_known u label = member (norm_label u label) known_labels

abbrev pair_of_parts : List Text → Option (Text × Text)
pair_of_parts (key ∷ value ∷ []) = some (key, value)
pair_of_parts parts = none

-- A key that already has a date in it is no label: the colon is inside a clock time.
abbrev labelled : Unicode → Option (Text × Text) → Option (Text × Text)
labelled u none = none
labelled u (some (key, value)) =
    if is_empty (clean key)
      || is_empty (clean value)
      || matches (search (day_month_year u) (clean key))
    then none
    else some (clean key, clean value)

unfoldable pub field_pairs_on_line : Unicode → Text → Option (Text × Text)
field_pairs_on_line u raw =
    if any (λ c. eqb c b'\t') raw
    then pair_of_parts (keep (λ p. not (is_empty p)) (map clean (split_by (λ c. eqb c b'\t') raw)))
    else labelled u (split_once b':' (clean raw))

abbrev begins_items : Unicode → Text → Bool
begins_items u norm =
    not (is_empty norm)
    && (matches (search (items_section u) norm) || matches (search items_header norm))

-- The lines before the items.
unfoldable pub before_items : Unicode → List Text → List Text
before_items u [] = []
before_items u (raw ∷ lines) = elim (begins_items u (strip_accents u (clean raw))) [
  | true ↦ []
  | false ↦ raw ∷ before_items u lines
]

abbrev pub has_key : Text → List (Text × Text) → Bool
has_key key [] = false
has_key key ((k, value) ∷ fields) = k == key || has_key key fields

-- `if key and value and key not in fields: fields[key] = value`
abbrev pub add_field : Option (Text × Text) → List (Text × Text) → List (Text × Text)
add_field none fields = fields
add_field (some (key, value)) fields =
    if is_empty key || is_empty value || has_key key fields
    then fields
    else fields ++ (key, value) ∷ []

unfoldable pub fields_of_lines : Unicode → List Text → List (Text × Text) → List (Text × Text)
fields_of_lines u [] fields = fields
fields_of_lines u (raw ∷ lines) fields =
    fields_of_lines u lines (add_field (field_pairs_on_line u raw) fields)

abbrev pub add_paired : Unicode → Text → Text → List (Text × Text) → List (Text × Text)
add_paired u line value paired =
    if is_known u line && not (has_key line paired) && not (is_known u value)
    then paired ++ (line, value) ∷ []
    else paired

-- A label on its own line, with its value on the next line.
unfoldable pub pair_lines : Unicode → List Text → List (Text × Text) → List (Text × Text)
pair_lines u [] paired = paired
pair_lines u (line ∷ []) paired = paired
pair_lines u (line ∷ value ∷ lines) paired =
    pair_lines u (value ∷ lines) (add_paired u line value paired)

abbrev pub or_fields : List (Text × Text) → List (Text × Text) → List (Text × Text)
or_fields [] fields = fields
or_fields (pair ∷ paired) fields = pair ∷ paired

abbrev pub known_key : Unicode → Text × Text → Bool
known_key u (key, value) = is_known u key

unfoldable pub parse_detail_fields : Unicode → Text → List (Text × Text)
parse_detail_fields u text =
    let lines = before_items u (splitlines text) in
    let fields = fields_of_lines u lines [] in
    if any (known_key u) fields
    then fields
    else or_fields (pair_lines u (keep (λ line. not (is_empty line)) (map clean lines)) []) fields

abbrev pub key_has : List Text → Text → Bool
key_has needles key = all (contains key) needles

unfoldable pub find_kv : Unicode → List (Text × Text) → List Text → Text
find_kv u [] needles = []
find_kv u ((key, value) ∷ fields) needles =
    if not (is_empty value) && key_has needles (u.lower (strip_accents u key))
    then value
    else find_kv u fields needles
