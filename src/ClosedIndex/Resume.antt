-- ===== src/ClosedIndex/Resume.antt =====
-- What one run of the backfill reads, and how its runs follow one another to the end.
use panamacompra_collector_b.Prelude.{
  ℕ, suc, ◌+◌, ◌≤◌, ◌≡◌, refl, ap, ◌∙◌, Bool, true, false, ◌||◌, none, some,
}
use panamacompra_collector_b.Archive.{Db}
use panamacompra_collector_b.Crawl.{CrawlFields}
use panamacompra_collector_b.ClosedIndex.{
  backfill, Portal, Config, Run, Stop, running, page_cap_reached, target_date, no_next,
  range_not_reached, short_of_cursor,
}
use panamacompra_collector_b.ClosedIndex.Loop.{skip_to_page, start_run, crawl, cursor_fields}
use panamacompra_collector_b.ClosedIndex.Cursor.{pages, pages_of, Ends, crawl_from-Crawled}

-- The cursor that a run leaves, by the reason why it stopped: the page after those it read, the
-- last page it read, or that the backfill is complete.
abbrev pub Leaves : Stop → ℕ → ℕ → ℕ → CrawlFields → Type 0
Leaves page_cap_reached start n cap c =
    (n ≡ cap) × (c.page ≡ some (start + n)) × (c.complete ≡ none)
Leaves range_not_reached start n cap c =
    (k : ℕ) × (c.page ≡ some k) × (suc k ≡ start + n) × (c.complete ≡ none)
Leaves other start n cap c = (c.page ≡ none) × (c.complete ≡ some true)

module _ (g : Config) (p : Portal) (of_backfill : g.mode ≡ backfill) where
  cursor-open :
      (r : Run)
      → r.reached_last_page ≡ false
      → r.reached_cutoff_date ≡ false
      → ((cursor_fields g p r).page ≡ some r.page_number) × ((cursor_fields g p r).complete ≡ none)
  unfolding cursor_fields
  cursor-open r last cutoff = rw (of_backfill, cursor_fields, last, cutoff) (refl, refl)

  cursor-complete :
      (r : Run)
      → (r.reached_last_page || r.reached_cutoff_date) ≡ true
      → ((cursor_fields g p r).page ≡ none) × ((cursor_fields g p r).complete ≡ some true)
  unfolding cursor_fields
  cursor-complete r done = rw (of_backfill, cursor_fields, done) (refl, refl)

  or_true : (b : Bool) → (b || true) ≡ true
  or_true true = refl
  or_true false = refl

  Leaves-Ends :
      (stop : Stop) (start n left : ℕ) (r : Run)
      → Ends stop start n left r
      → Leaves stop start n left (cursor_fields g p r)
  Leaves-Ends page_cap_reached start n left r h =
      let c = cursor-open r h.2 h.3 in (h.0, c.0 ∙ ap some h.1, c.1)
  Leaves-Ends range_not_reached start n left r h =
      let c = cursor-open r h.1 h.2 in (r.page_number, c.0, h.0, c.1)
  Leaves-Ends target_date start n left r h =
      cursor-complete r (rw h.1 (or_true r.reached_last_page))
  Leaves-Ends (no_next reason) start n left r h = cursor-complete r (rw h.1 refl)
  Leaves-Ends running start n left r h = absurd (cc h)
  Leaves-Ends (short_of_cursor why) start n left r h = absurd (cc h)

  pub crawl-Leaves :
      (start : ℕ) (conn : Db)
      → skip_to_page g p start ≡ (start, none)
      → (n : ℕ) × (pages_of (crawl g p start conn) ≡ pages start n)
        × (n ≤ g.page_cap)
        × ((crawl g p start conn).conn.crawl ≡ conn.crawl)
        × Leaves
            (crawl g p start conn).stop_reason
            start
            n
            g.page_cap
            (cursor_fields g p (crawl g p start conn))
  unfolding crawl
  crawl-Leaves start conn reached =
      let s = record (start_run g p conn) { page_number = start } in
      let (n, read, few, same, ends) = crawl_from-Crawled g p g.page_cap s refl refl in
      rw (reached, crawl) (n, read, few, same, Leaves-Ends _ start n g.page_cap _ ends)
