-- ===== src/Snapshot/Expected.antt =====
-- The records of a snapshot: which ones the parser hands to the import.
use panamacompra_collector_b.Prelude.{
  ◌≡◌, refl, inl, inr, Bool, true, false, ◌&&◌, Option, none, some, List, [], ◌∷◌, Bool-cases,
  All-append, All, Text, codes, ◌==◌, truthy, or_empty, strip, member,
}
use panamacompra_collector_b.Snapshot.{
  Scope, Entry, Section, Parse, header, pages, records, read_line, read_lines, start_parse,
  group_for_estado, flush, flush_in, field_line, record_line, line_in,
}
use panamacompra_collector_b.Splits.{splitlines}
use panamacompra_collector_b.Snapshot.Report.{parse_snapshot}

module _ (g : Scope) where
  -- A record with a number and a link, in the expected group of its state.
  abbrev pub IsExpected : Entry → Type 0
  IsExpected r =
      ((truthy r.numero && truthy r.link) ≡ true)
      × (r.grupo ≡ group_for_estado g (or_empty r.estado))
      × (member r.grupo g.expected_groups ≡ true)

  abbrev AllExpected : Parse → Type 0
  AllExpected s = All IsExpected s.entries

  flush_in-Expected :
      (linked expected : Bool) (s : Parse)
      → (truthy s.current.numero && truthy s.current.link) ≡ linked
      → member (group_for_estado g (or_empty s.current.estado)) g.expected_groups ≡ expected
      → AllExpected s
      → AllExpected (flush_in g linked expected (group_for_estado g (or_empty s.current.estado)) s)
  flush_in-Expected false expected s e e2 h = h
  flush_in-Expected true false s e e2 h = h
  flush_in-Expected true true s e e2 h = All-append IsExpected s.entries _ h ((e, refl, e2), tt)

  flush-Expected : (s : Parse) → AllExpected s → AllExpected (flush g s)
  unfolding flush
  flush-Expected s h = flush_in-Expected _ _ s refl refl h

  field_line-Expected :
      (parts : Option (Text × Text)) (s : Parse)
      → AllExpected s
      → AllExpected (field_line g parts s)
  field_line-Expected none s h = h
  field_line-Expected (some (label, value)) s h = h

  record_line-Expected :
      (ends : Bool) (line : Text) (s : Parse)
      → AllExpected s
      → AllExpected (record_line g ends line s)
  record_line-Expected true line s h = flush-Expected s h
  record_line-Expected false line s h = field_line-Expected _ s h

  line_in-Expected :
      (section : Section) (line : Text) (s : Parse)
      → AllExpected s
      → AllExpected (line_in g section line s)
  line_in-Expected header line s h = h
  line_in-Expected pages line s h = h
  line_in-Expected records line s h = record_line-Expected _ line s h

  read_line-Expected : (s : Parse) (line : Text) → AllExpected s → AllExpected (read_line g s line)
  unfolding read_line
  read_line-Expected s line h = elim (Bool-cases (strip line == codes "PAGE_COUNTS")) [
    | inl e ↦ rw (e, read_line) h
    | inr e ↦ elim (Bool-cases (strip line == codes "RECORDS")) [
      | inl e2 ↦ rw (e, e2, read_line) h
      | inr e2 ↦ rw (e, e2, read_line) (line_in-Expected s.section line s h)
    ]
  ]

  read_lines-Expected :
      (lines : List Text) (s : Parse) → AllExpected s → AllExpected (read_lines g lines s)
  unfolding read_lines
  read_lines-Expected [] s h = flush-Expected s h
  read_lines-Expected (line ∷ lines) s h =
      read_lines-Expected lines (read_line g s line) (read_line-Expected s line h)

  -- Whatever the report says, every record that is parsed has a number and a link, and its group is
  -- the one of its state and among the groups that this importer was told to expect.
  pub parse_snapshot-IsExpected : (text : Text) → All IsExpected (parse_snapshot g text).entries
  unfolding parse_snapshot
  parse_snapshot-IsExpected text = read_lines-Expected (splitlines text) (start_parse g) tt
