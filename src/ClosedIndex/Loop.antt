-- ===== src/ClosedIndex/Loop.antt =====
-- The pages of one run, and the cursor that it leaves.
use panamacompra_collector_b.Prelude.{
  ℕ, zero, suc, ◌-◌, Bool, true, false, not, ◌&&◌, ◌||◌, Option, none, some, List, [], ◌∷◌, ◌++◌,
  ltb, eqb, if◌then◌else◌, length, keep, Text,
}
use panamacompra_collector_b.Archive.{CrawlState, Db}
use panamacompra_collector_b.Crawl.{
  CrawlFields, no_fields, get_closed_crawl_state, update_closed_crawl_state,
}
use panamacompra_collector_b.ClosedIndex.{
  Mode, forward, backfill, Portal, SiteRow, Config, Run, running, page_cap_reached, target_date,
  no_next, range_not_reached, short_of_cursor, range_end_date, of_group, count_rows, page_dates,
  all_past, store_rows,
}

abbrev pub is_some {ℓ} : {A : Type ℓ} → Option A → Bool
is_some none = false
is_some (some a) = true

abbrev pub is_backfill : Mode → Bool
is_backfill forward = false
is_backfill backfill = true

abbrev pub at_least_one : ℕ → ℕ
at_least_one zero = 1
at_least_one (suc n) = suc n

module _ (g : Config) (p : Portal) where
  abbrev pub page_rows : Run → List SiteRow
  page_rows s = keep (of_group g) (p.extract_rows s.page_number)

  abbrev pub noted : List SiteRow → Run → Run
  noted rows s = record s { page_counts = s.page_counts ++ (s.page_number, length rows) ∷ [] }

  abbrev pub count_page : Mode → List SiteRow → Run → Run
  count_page forward rows s = s
  count_page backfill rows s = count_rows g rows s

  abbrev pub check_cutoff : List SiteRow → Run → Run
  check_cutoff rows s = record s {
    reached_cutoff_date = s.reached_cutoff_date || all_past g (page_dates g rows);
  }

  -- One page: its rows are counted and stored.
  unfoldable pub crawl_page : Run → Run
  crawl_page s =
      let rows = page_rows s in
      store_rows g rows (check_cutoff rows (count_page g.mode rows (noted rows s)))

  -- The guard on an apparent last page: the portal showed only rows newer than the range.
  unfoldable pub range_missed : Run → Bool
  range_missed s =
      is_backfill g.mode
      && is_some (range_end_date g)
      && eqb s.target_range_rows 0
      && ltb 0 s.newer_than_range_rows
      && not s.reached_cutoff_date

  -- Whether the guard applies, and the reason of the pager.
  abbrev pub stopped : Bool → Text → Run → Run
  stopped true reason s = record s { stop_reason = range_not_reached; reached_last_page = false }
  stopped false reason s = record s { stop_reason = no_next reason; reached_last_page = true }

  unfoldable pub stop_at_last : Text → Run → Run
  stop_at_last reason s = stopped (range_missed s) reason s

  abbrev pub next_page : Run → Run
  next_page s = record s { page_number = suc s.page_number }

  -- The loop: the number is that of the pages left under the cap.
  unfoldable pub crawl_from : ℕ → Run → Run
  crawl_from zero s = record s { stop_reason = page_cap_reached }
  crawl_from (suc left) s =
      let s' = crawl_page s in
      elim s'.reached_cutoff_date [
        | true ↦ record s' { stop_reason = target_date }
        | false ↦ elim (p.click_next s.page_number) [
          | none ↦ crawl_from left (next_page s')
          | some reason ↦ stop_at_last reason s'
        ]
      ]

  -- `skip_to_page` from a page, for a number of clicks: the page reached, and why it fell short.
  unfoldable pub skip_pages : ℕ → ℕ → ℕ × Option Text
  skip_pages zero page = (page, none)
  skip_pages (suc clicks) page = elim (p.click_next page) [
    | none ↦ skip_pages clicks (suc page)
    | some why ↦ (page, some why)
  ]

  unfoldable pub skip_to_page : ℕ → ℕ × Option Text
  skip_to_page target_page = skip_pages (target_page - 1) 1

  abbrev pub start_run : Db → Run
  start_run conn = record {
    conn = conn;
    seen = [];
    page_counts = [];
    page_number = 1;
    new_records = 0;
    existing_records = 0;
    target_range_rows = 0;
    newer_than_range_rows = 0;
    reached_last_page = false;
    reached_cutoff_date = false;
    stop_reason = running;
  }

  abbrev pub crawl_after : ℕ × Option Text → Run → Run
  crawl_after (page, none) s = crawl_from g.page_cap (record s { page_number = page })
  crawl_after (page, some why) s = record s {
    page_number = page;
    stop_reason = short_of_cursor why;
    reached_last_page = true;
  }

  unfoldable pub crawl : ℕ → Db → Run
  crawl start_page conn = crawl_after (skip_to_page start_page) (start_run conn)

  -- The fields of the cursor that a run writes.
  unfoldable pub cursor_fields : Run → CrawlFields
  cursor_fields s = elim g.mode [
    | forward ↦ record no_fields { forward_run_at = some g.now_iso }
    | backfill ↦
        if s.reached_last_page || s.reached_cutoff_date
        then record no_fields { backfill_run_at = some g.now_iso; complete = some true }
        else record no_fields { backfill_run_at = some g.now_iso; page = some s.page_number }
  ]

  abbrev pub finish_run : Run → Run
  finish_run s = record s { conn = update_closed_crawl_state s.conn g.group (cursor_fields s) }

  -- The archive after the call, and the run, if there was one.
  abbrev pub finished : Run → Db × Option Run
  finished s = let t = finish_run s in (t.conn, some t)

  -- Whether the tab opened.
  abbrev pub run_if : Bool → ℕ → Db → Db × Option Run
  run_if true start_page conn = finished (crawl start_page conn)
  run_if false start_page conn = (conn, none)

  -- Whether the backfill is complete.
  abbrev pub run_backfill : Bool → CrawlState × Db → Db × Option Run
  run_backfill true (state, conn) = (conn, none)
  run_backfill false (state, conn) = run_if p.click_group (at_least_one state.backfill_page) conn

  abbrev pub run_mode : Mode → Db → Db × Option Run
  run_mode forward conn = run_if p.click_group 1 conn
  run_mode backfill conn =
      let found = get_closed_crawl_state conn g.group in
      run_backfill found.0.backfill_complete found

  unfoldable pub main : Db → Db × Option Run
  main conn = run_mode g.mode conn
