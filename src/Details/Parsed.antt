-- ===== src/Details/Parsed.antt =====
-- What the fields and the items of a page are, whatever its text and its tables are.
use panamacompra_collector_b.Prelude.{
  str, ℕ, suc, ◌≡◌, refl, ◌⊎◌, inl, inr, false, not, ◌&&◌, ◌||◌, Option, none, some, List, [], ◌∷◌,
  ◌++◌, arith, eqb, if◌then◌else◌, Bool-cases, length, All-append, keep, any, All, Text, ◌==◌,
  ==_iff, is_empty,
}
use panamacompra_collector_b.Unicode.{Unicode}
use panamacompra_collector_b.Splits.{splitlines}
use panamacompra_collector_b.Naming.{clean}
use panamacompra_collector_b.Regex.{Match}
use panamacompra_collector_b.Details.Fields.{
  field_pairs_on_line, before_items, has_key, add_field, fields_of_lines, is_known, known_key,
  add_paired, pair_lines, or_fields, parse_detail_fields,
}
use panamacompra_collector_b.Details.Items.{
  PageTable, Columns, Item, cell, item_of_row, items_of_rows, is_absent, items_of_grid,
  items_header_index, items_of_table, or_items, items_from_tables, item_line, item_of_groups,
  item_of_match, items_of_lines, after_header, items_from_text, parse_detail_items,
}

abbrev IsFilled : Text → Type 0
IsFilled text = is_empty text ≡ false

-- Fields: no label and no value is empty, and no label stands twice.
abbrev pub AreFields : List (Text × Text) → Type 0
AreFields [] = Unit
AreFields ((key, value) ∷ fields) =
    IsFilled key × IsFilled value × (has_key key fields ≡ false) × AreFields fields

eq_sym : (s t : Text) → (s == t) ≡ false → (t == s) ≡ false
eq_sym s t h = ground (arith, ==_iff s t, ==_iff t s)

has_key-append :
    (key : Text) (fields : List (Text × Text)) (k value : Text)
    → has_key key fields ≡ false
    → (k == key) ≡ false
    → has_key key (fields ++ (k, value) ∷ []) ≡ false
has_key-append key [] k value h e = rw e refl
has_key-append key ((k2, v2) ∷ fields) k value h e =
    ground (arith, has_key-append key fields k value)

append-AreFields :
    (key value : Text) (fields : List (Text × Text))
    → AreFields fields
    → IsFilled key
    → IsFilled value
    → has_key key fields ≡ false
    → AreFields (fields ++ (key, value) ∷ [])
append-AreFields key value [] h k v fresh = (k, v, refl, tt)
append-AreFields key value ((k2, v2) ∷ fields) h k v fresh =
    let other : (k2 == key) ≡ false = ground arith in
    let later : has_key key fields ≡ false = ground arith in
    (
      h.0,
      h.1,
      has_key-append k2 fields key value h.2 (eq_sym k2 key other),
      append-AreFields key value fields h.3 k v later,
    )

add_field-AreFields :
    (pair : Option (Text × Text)) (fields : List (Text × Text))
    → AreFields fields
    → AreFields (add_field pair fields)
add_field-AreFields none fields h = h
add_field-AreFields (some (key, value)) fields h =
    elim (Bool-cases (is_empty key || is_empty value || has_key key fields)) [
      | inl e ↦ rw e h
      | inr e ↦
          rw e (append-AreFields key value fields h (ground arith) (ground arith) (ground arith))
    ]

fields_of_lines-AreFields :
    (u : Unicode) (lines : List Text) (fields : List (Text × Text))
    → AreFields fields
    → AreFields (fields_of_lines u lines fields)
unfolding fields_of_lines
fields_of_lines-AreFields u [] fields h = h
fields_of_lines-AreFields u (raw ∷ lines) fields h =
    fields_of_lines-AreFields u lines _ (add_field-AreFields (field_pairs_on_line u raw) fields h)

add_paired-AreFields :
    (u : Unicode) (line value : Text) (paired : List (Text × Text))
    → IsFilled line
    → IsFilled value
    → AreFields paired
    → AreFields (add_paired u line value paired)
add_paired-AreFields u line value paired l v h =
    elim (Bool-cases (is_known u line && not (has_key line paired) && not (is_known u value))) [
      | inl e ↦ rw e (append-AreFields line value paired h l v (ground arith))
      | inr e ↦ rw e h
    ]

pair_lines-AreFields :
    (u : Unicode) (lines : List Text) (paired : List (Text × Text))
    → All IsFilled lines
    → AreFields paired
    → AreFields (pair_lines u lines paired)
unfolding pair_lines
pair_lines-AreFields u [] paired l h = h
pair_lines-AreFields u (line ∷ []) paired l h = h
pair_lines-AreFields u (line ∷ value ∷ lines) paired l h =
    pair_lines-AreFields u (value ∷ lines) _ l.1
      (add_paired-AreFields u line value paired l.0 l.1.0 h)

or_fields-AreFields :
    (paired fields : List (Text × Text))
    → AreFields paired
    → AreFields fields
    → AreFields (or_fields paired fields)
or_fields-AreFields [] fields h k = k
or_fields-AreFields (pair ∷ paired) fields h k = h

keep-IsFilled : (lines : List Text) → All IsFilled (keep (λ line. not (is_empty line)) lines)
unfolding keep
keep-IsFilled [] = tt
keep-IsFilled ([] ∷ lines) = keep-IsFilled lines
keep-IsFilled ((c ∷ line) ∷ lines) = (refl, keep-IsFilled lines)

-- Whatever the text of the page is: of the fields that are parsed from it, by colons, tabs or pairs
-- of lines, none has an empty label or an empty value, and no label stands twice.
pub parse_detail_fields-AreFields :
    (u : Unicode) (text : Text) → AreFields (parse_detail_fields u text)
unfolding parse_detail_fields
parse_detail_fields-AreFields u text =
    let lines = before_items u (splitlines text) in
    let fields = fields_of_lines-AreFields u lines [] tt in
    elim (Bool-cases (any (known_key u) (fields_of_lines u lines []))) [
      | inl e ↦ rw e fields
      | inr e ↦
          rw e (or_fields-AreFields _ _ (pair_lines-AreFields u _ [] (keep-IsFilled _) tt) fields)
    ]

abbrev pub IsDescribed : Item → Type 0
IsDescribed item = IsFilled item.descripcion

-- Items with the numbers that follow a number.
abbrev pub AreNumbered : ℕ → List Item → Type 0
AreNumbered n [] = Unit
AreNumbered n (item ∷ items) = (item.r ≡ str (suc n)) × AreNumbered (suc n) items

add_row :
    (idx : Columns) (width : ℕ) (row : List Text) (items : List Item)
    → All IsDescribed items
    → All IsDescribed (
        if not (eqb (length row) width) || is_empty (cell row idx.descripcion)
        then items
        else items ++ item_of_row idx row (length items) ∷ [])
add_row idx width row items h =
    elim (Bool-cases (not (eqb (length row) width) || is_empty (cell row idx.descripcion))) [
      | inl e ↦ rw e h
      | inr e ↦ rw e (All-append IsDescribed items _ h (ground arith, tt))
    ]

items_of_rows-IsDescribed :
    (idx : Columns) (width : ℕ) (rows : List (List Text)) (items : List Item)
    → All IsDescribed items
    → All IsDescribed (items_of_rows idx width rows items)
unfolding items_of_rows
items_of_rows-IsDescribed idx width [] items h = h
items_of_rows-IsDescribed idx width (row ∷ rows) items h =
    items_of_rows-IsDescribed idx width rows _ (add_row idx width row items h)

items_of_grid-IsDescribed :
    (idx : Columns) (header : List Text) (rows : List (List Text))
    → All IsDescribed (items_of_grid idx header rows)
items_of_grid-IsDescribed idx header rows =
    elim (Bool-cases (is_absent idx.descripcion || is_absent idx.cantidad)) [
      | inl e ↦ rw e tt
      | inr e ↦ rw e (items_of_rows-IsDescribed idx (length header) rows [] tt)
    ]

items_of_table-IsDescribed :
    (u : Unicode) (rows : List (List Text)) → All IsDescribed (items_of_table u rows)
items_of_table-IsDescribed u [] = tt
items_of_table-IsDescribed u (header ∷ []) = tt
items_of_table-IsDescribed u (header ∷ row ∷ rows) =
    items_of_grid-IsDescribed (items_header_index u header) header (row ∷ rows)

or_items-IsDescribed :
    (found items : List Item)
    → All IsDescribed found
    → All IsDescribed items
    → All IsDescribed (or_items found items)
or_items-IsDescribed [] items h k = k
or_items-IsDescribed (item ∷ found) items h k = h

items_from_tables-IsDescribed :
    (u : Unicode) (tables : List PageTable) → All IsDescribed (items_from_tables u tables)
unfolding items_from_tables
items_from_tables-IsDescribed u [] = tt
items_from_tables-IsDescribed u (table ∷ tables) =
    or_items-IsDescribed (items_of_table u table.raw_rows) _
      (items_of_table-IsDescribed u table.raw_rows) (items_from_tables-IsDescribed u tables)

-- Zero or one item, with the number after the count.
abbrev IsNext : ℕ → List Item → Type 0
IsNext count [] = Unit
IsNext count (item ∷ more) = item.r ≡ str (suc count)

item_of_groups-IsNext :
    (groups : List Text) (count : ℕ) → IsNext count (item_of_groups groups count)
item_of_groups-IsNext [] count = tt
item_of_groups-IsNext (a ∷ []) count = tt
item_of_groups-IsNext (a ∷ b ∷ []) count = tt
item_of_groups-IsNext (a ∷ b ∷ c ∷ []) count = refl
item_of_groups-IsNext (a ∷ b ∷ c ∷ d ∷ groups) count = tt

item_of_match-IsNext : (found : List Match) (count : ℕ) → IsNext count (item_of_match found count)
item_of_match-IsNext [] count = tt
item_of_match-IsNext ((groups, rest) ∷ found) count = item_of_groups-IsNext groups count

items_of_lines-AreNumbered :
    (u : Unicode) (lines : List Text) (count : ℕ) → AreNumbered count (items_of_lines u lines count)
unfolding items_of_lines
items_of_lines-AreNumbered u [] count = tt
items_of_lines-AreNumbered u (raw ∷ lines) count =
    elim (clean raw)
      as (λ line. AreNumbered count (elim line [
        | [] ↦ items_of_lines u lines count
        | (c ∷ line) ↦ elim (item_of_match (item_line u (c ∷ line)) count) [
          | [] ↦ []
          | (item ∷ more) ↦ item ∷ items_of_lines u lines (suc count)
        ]
      ])) [
        | [] ↦ items_of_lines-AreNumbered u lines count
        | (c ∷ line) ↦
            elim (item_of_match (item_line u (c ∷ line)) count)
                as (λ found.
                  IsNext count found
                  → AreNumbered count (elim found [
                    | [] ↦ []
                    | (item ∷ more) ↦ item ∷ items_of_lines u lines (suc count)
                  ])) [
                    | [] ↦ λ next. tt
                    | (item ∷ more) ↦ λ next. (next, items_of_lines-AreNumbered u lines (suc count))
                  ]
              (item_of_match-IsNext (item_line u (c ∷ line)) count)
      ]

-- Where the items come from: a grid, or the text.
or_items-cases :
    (P Q : List Item → Type 0) (found items : List Item)
    → P found
    → Q items
    → P (or_items found items) ⊎ Q (or_items found items)
or_items-cases P Q [] items h k = inr k
or_items-cases P Q (item ∷ found) items h k = inl h

-- Whatever the page is, its items all have a description, or they are numbered 1, 2, 3 and so on.
pub parse_detail_items-cases :
    (u : Unicode) (text : Text) (tables : List PageTable)
    → All IsDescribed (parse_detail_items u text tables)
      ⊎ AreNumbered 0 (parse_detail_items u text tables)
unfolding parse_detail_items items_from_text
parse_detail_items-cases u text tables =
    or_items-cases (All IsDescribed) (AreNumbered 0) _ _ (items_from_tables-IsDescribed u tables)
      (items_of_lines-AreNumbered u (after_header u (splitlines text)) 0)
