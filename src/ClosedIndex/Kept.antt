-- ===== src/ClosedIndex/Kept.antt =====
-- What storing and counting the rows of a page leaves alone.
use panamacompra_collector_b.Prelude.{
  ℕ, ◌≡◌, refl, ◌∙◌, inl, inr, Bool, true, false, Option, none, some, List, [], ◌∷◌, ltb,
  if◌then◌else◌, Bool-cases, Option-cases, Text, codes, member,
}
use panamacompra_collector_b.Unicode.{Unicode}
use panamacompra_collector_b.Archive.{IndexRow, Db, find_existing_opportunity, update_opportunity}
use panamacompra_collector_b.Index.{
  Outcome, new, existing, transitioned, update_index, insert_index, insert_or_update_index,
}
use panamacompra_collector_b.ClosedIndex.{
  parse_dmy_date, Mode, forward, backfill, Portal, SiteRow, Config, Run, range_end_date, count_rows,
  store_rows, count_date, store_row, counted, newer, visit, row_of, place_of,
}
use panamacompra_collector_b.ClosedIndex.Loop.{
  page_rows, noted, count_page, check_cutoff, crawl_page,
}

-- What storing and counting rows leaves alone.
abbrev pub Same : Run → Run → Type 0
Same s t =
    (t.page_counts ≡ s.page_counts)
    × (t.page_number ≡ s.page_number)
    × (t.reached_last_page ≡ s.reached_last_page)
    × (t.conn.crawl ≡ s.conn.crawl)

Same-trans : (r s t : Run) → Same r s → Same s t → Same r t
Same-trans r s t h k = (k.0 ∙ h.0, k.1 ∙ h.1, k.2 ∙ h.2, k.3 ∙ h.3)

Same-if : (b : Bool) (r s t : Run) → Same r s → Same r t → Same r (if b then s else t)
Same-if true r s t h k = h
Same-if false r s t h k = k

-- A sighting leaves the cursors alone.
insert_or_update_index-crawl :
    (u : Unicode) (db : Db) (row : IndexRow) (source : Text)
    → (insert_or_update_index u db row source).1.crawl ≡ db.crawl
unfolding insert_or_update_index update_index insert_index update_opportunity
insert_or_update_index-crawl u db row source =
    elim (Option-cases (find_existing_opportunity db row.numero)) [
      | inl absent ↦ rw (absent, insert_or_update_index) refl
      | inr (found, present) ↦ elim (Bool-cases (transitioned found.listing row.listing)) [
        | inl moved ↦ rw (present, insert_or_update_index, moved) refl
        | inr kept ↦ rw (present, insert_or_update_index, kept) refl
      ]
    ]

module _ (g : Config) where
  count_date-Same : (last date : Option ℕ) (s : Run) → Same s (count_date g last date s)
  count_date-Same none date s = (refl, refl, refl, refl)
  count_date-Same (some last) none s = (refl, refl, refl, refl)
  count_date-Same (some last) (some date) s =
      Same-if _ s _ _ (refl, refl, refl, refl)
        (Same-if (ltb last date) s _ _ (refl, refl, refl, refl) (refl, refl, refl, refl))

  count_rows-Same : (rows : List SiteRow) (s : Run) → Same s (count_rows g rows s)
  unfolding count_rows
  count_rows-Same [] s = (refl, refl, refl, refl)
  count_rows-Same (r ∷ rows) s =
      let t = count_date g (range_end_date g) (parse_dmy_date g.unicode r.fecha) s in
      Same-trans s t (count_rows g rows t)
        (count_date-Same (range_end_date g) (parse_dmy_date g.unicode r.fecha) s)
        (count_rows-Same rows t)

  counted-Same : (o : Outcome) (b : Bool) (s : Run) → Same s (counted g o b s)
  counted-Same new false s = (refl, refl, refl, refl)
  counted-Same new true s = (refl, refl, refl, refl)
  counted-Same existing b s = (refl, refl, refl, refl)

  store_row-Same : (r : SiteRow) (s : Run) → Same s (store_row g r s)
  unfolding store_row
  store_row-Same r s =
      let found = find_existing_opportunity s.conn r.numero in
      let result = insert_or_update_index g.unicode s.conn (row_of g r found) (codes "index") in
      Same-trans s (record s { conn = result.1 })
        (counted g result.0 (place_of g r found).1 (record s { conn = result.1 }))
        (refl, refl, refl, insert_or_update_index-crawl g.unicode s.conn (row_of g r found) _)
        (counted-Same result.0 (place_of g r found).1 (record s { conn = result.1 }))

  visit-Same : (b c : Bool) (r : SiteRow) (s : Run) → Same s (visit g b c r s)
  visit-Same true c r s = (refl, refl, refl, refl)
  visit-Same false true r s = (refl, refl, refl, refl)
  visit-Same false false r s = store_row-Same r (record s { seen = r.numero ∷ s.seen })

  store_rows-Same : (rows : List SiteRow) (s : Run) → Same s (store_rows g rows s)
  unfolding store_rows
  store_rows-Same [] s = (refl, refl, refl, refl)
  store_rows-Same (r ∷ rows) s =
      let t =
        visit g (member r.numero s.seen)
          (newer g (range_end_date g) (parse_dmy_date g.unicode r.fecha)) r s in
      Same-trans s t (store_rows g rows t) (visit-Same _ _ r s) (store_rows-Same rows t)

module _ (g : Config) (p : Portal) where
  count_page-Same :
      (mode : Mode) (rows : List SiteRow) (s : Run) → Same s (count_page g p mode rows s)
  count_page-Same forward rows s = (refl, refl, refl, refl)
  count_page-Same backfill rows s = count_rows-Same g rows s

  pub crawl_page-Same : (s : Run) → Same (noted g p (page_rows g p s) s) (crawl_page g p s)
  unfolding crawl_page
  crawl_page-Same s =
      let rows = page_rows g p s in
      let t = count_page g p g.mode rows (noted g p rows s) in
      Same-trans (noted g p rows s) t (store_rows g rows (check_cutoff g p rows t))
        (count_page-Same g.mode rows (noted g p rows s))
        (store_rows-Same g rows (check_cutoff g p rows t))
