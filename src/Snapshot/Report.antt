-- ===== src/Snapshot/Report.antt =====
-- What the parser of the snapshot reports: the records, and the health of each group.
use panamacompra_collector_b.Prelude.{
  ℤ, pos, negsuc, str, ℕ, zero, suc, Bool, true, false, not, ◌&&◌, Option, none, some, List, [],
  ◌∷◌, ◌++◌, map, ltb, if◌then◌else◌, Text, codes, ◌==◌, strip,
}
use panamacompra_collector_b.Snapshot.{Scope, Entry, Group, read_lines, start_parse}
use panamacompra_collector_b.Splits.{splitlines}

abbrev pub count_of : Text → List Entry → ℕ
count_of name [] = 0
count_of name (r ∷ rest) = if r.grupo == name then suc (count_of name rest) else count_of name rest

abbrev pub below : ℕ → ℤ → Bool
below n (pos m) = ltb n m
below n (negsuc m) = false

abbrev str_of : ℤ → Text
str_of (pos n) = str n
str_of (negsuc n) = b'-' ∷ str (suc n)

-- `info['recovery_page'] or 1`
abbrev or_one : ℕ → ℕ
or_one zero = 1
or_one (suc n) = suc n

-- `info["reason"] or ...`
abbrev reason_or : Text → Text → Text
reason_or [] other = other
reason_or (c ∷ reason) other = c ∷ reason

abbrev pub unmarked : Bool → Group → Group
unmarked true info = record info { reason = codes "missing explicit pagination completion marker" }
unmarked false info = info

abbrev pub short : Bool → ℕ → Group → Group
short true parsed info = record info {
  healthy = false;
  reason =
      codes "parsed " ++ str parsed ++ codes " of " ++ str_of info.collected ++ codes " records";
}
short false parsed info = info

abbrev pub inconsistent : Option Bool → Group → Group
inconsistent (some false) info = record info {
  healthy = false;
  reason = reason_or info.reason (
      codes "pagination inconsistent (first bad page "
      ++ str (or_one info.recovery_page)
      ++ codes ")");
}
inconsistent (some true) info = info
inconsistent none info = info

-- The checks on one group once the whole report is read.
unfoldable pub check_group : List Entry → Group → Group
check_group entries info =
    let parsed = count_of info.name entries in
    let marked =
      unmarked
        (not info.healthy && info.page_seen && info.reason == codes "not present in snapshot")
        info in
    let counted = short (marked.healthy && below parsed marked.collected) parsed marked in
    inconsistent counted.pagination_consistent counted

-- What `parse_snapshot` returns.
pub record Parsed : Type 0 where
  pub marker_ok : Bool
  pub groups : List Group
  pub entries : List Entry
  pub skipped_unexpected_group : List Text

-- `bool(lines) and lines[0].strip() == SNAPSHOT_MARKER`
abbrev pub marked_by : Text → List Text → Bool
marked_by marker [] = false
marked_by marker (line ∷ lines) = strip line == marker

unfoldable pub parse_snapshot : Scope → Text → Parsed
parse_snapshot g text =
    let lines = splitlines text in
    let s = read_lines g lines (start_parse g) in
    record {
      marker_ok = marked_by g.snapshot_marker lines;
      groups = map (check_group s.entries) s.groups;
      entries = s.entries;
      skipped_unexpected_group = s.skipped_unexpected_group;
    }
