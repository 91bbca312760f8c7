-- ===== src/ClosedIndex/Runs.antt =====
-- The runs of a backfill over a listing that ends: they complete it.
use panamacompra_collector_b.Prelude.{
  ℕ, zero, suc, ◌+◌, ◌*◌, ◌≤◌, ◌<◌, ◌≡◌, refl, sym, ap, ◌∙◌, ◌⊎◌, inl, inr, Bool, true, false,
  Option, none, some, arith, Bool-cases, Option-cases, ==_refl,
}
use mathlib.Core.Path.{subst}
use panamacompra_collector_b.Table
use panamacompra_collector_b.Archive.{CrawlState, Db}
use panamacompra_collector_b.Crawl.{
  CrawlFields, crawl_key, set_fields, given, get_closed_crawl_state, find-update_closed_crawl_state,
  cursor_or_fresh, fresh_cursor, get_closed_crawl_state_lem,
}
use panamacompra_collector_b.ClosedIndex.{
  backfill, Portal, Config, Run, Stop, running, page_cap_reached, target_date, no_next,
  range_not_reached, short_of_cursor,
}
use panamacompra_collector_b.ClosedIndex.Loop.{
  crawl, cursor_fields, finish_run, run_if, run_mode, run_backfill, main, at_least_one,
}
use panamacompra_collector_b.ClosedIndex.Resume.{Leaves, crawl-Leaves}
use panamacompra_collector_b.ClosedIndex.Reach.{HasPages, Within, skip_to_page-reach, crawl-Within}

-- The cursor of the group.
abbrev pub cursor : Config → Db → CrawlState
cursor g db = cursor_or_fresh g.group (Table.find crawl_key g.group db.crawl)

-- The page that the next backfill run begins with.
abbrev pub start_of : Config → Db → ℕ
start_of g db = at_least_one (cursor g db).backfill_page

at_least_one_pos : (n : ℕ) → 1 ≤ at_least_one n
at_least_one_pos zero = omega arith
at_least_one_pos (suc n) = omega arith

at_least_one_id : (n : ℕ) → 1 ≤ n → at_least_one n ≡ n
at_least_one_id zero h = omega arith
at_least_one_id (suc n) h = refl

enough_next : (last start k cap : ℕ) → last < start + suc k * cap → last < start + cap + k * cap
enough_next last start k cap h = omega arith

-- The archive after some runs of the script.
unfoldable pub runs : Config → Portal → ℕ → Db → Db
runs g p zero db = db
runs g p (suc k) db = runs g p k (main g p db).0

module _ (g : Config) (p : Portal) (last : ℕ) (of_backfill : g.mode ≡ backfill)
    (no_range : g.backfill_end_date ≡ none) (listing : HasPages p last) where
  get-cursor :
      (db : Db)
      → Table.find crawl_key g.group (get_closed_crawl_state db g.group).1.crawl
        ≡ some (cursor g db)
  unfolding get_closed_crawl_state
  get-cursor db = elim (Option-cases (Table.find crawl_key g.group db.crawl)) [
    | inl absent ↦
        rw (absent, get_closed_crawl_state)
          (Table.find-append crawl_key g.group db.crawl (fresh_cursor g.group) absent
            ∙ rw (==_refl g.group) refl)
    | inr (state, present) ↦ rw (present, get_closed_crawl_state) (rw present refl)
  ]

  get-state : (db : Db) → (get_closed_crawl_state db g.group).0 ≡ cursor g db
  get-state db = get_closed_crawl_state_lem db g.group

  after : Bool → Db → CrawlState
  after complete db = cursor g (run_backfill g p complete (get_closed_crawl_state db g.group)).0

  main-after :
      (db : Db) (complete : Bool)
      → (cursor g db).backfill_complete ≡ complete
      → cursor g (main g p db).0 ≡ after complete db
  unfolding main after
  main-after db complete e =
      let state = ap (λ s. s.backfill_complete) (get-state db) ∙ e in
      ap (λ m. cursor g (run_mode g p m db).0) of_backfill ∙ ap (λ b. after b db) state

  -- A run over a complete backfill changes nothing that the next run reads.
  main_complete :
      (db : Db) → (cursor g db).backfill_complete ≡ true → cursor g (main g p db).0 ≡ cursor g db
  unfolding after
  main_complete db done = main-after db true done ∙ ap (cursor_or_fresh g.group) (get-cursor db)

  run_of : Db → Run
  run_of db = crawl g p (start_of g db) (get_closed_crawl_state db g.group).1

  set_cursor :
      (db : Db) (r : Run)
      → r.conn.crawl ≡ (get_closed_crawl_state db g.group).1.crawl
      → cursor g (finish_run g p r).conn ≡ set_fields (cursor_fields g p r) (cursor g db)
  set_cursor db r same =
      rw
        (
          find-update_closed_crawl_state r.conn g.group g.group (cursor_fields g p r),
          ==_refl g.group,
          same,
          get-cursor db,
        )
        refl

  main-cursor :
      (db : Db)
      → (cursor g db).backfill_complete ≡ false
      → start_of g db ≤ last
      → cursor g (main g p db).0 ≡ set_fields (cursor_fields g p (run_of db)) (cursor g db)
  unfolding after run_of
  main-cursor db open_yet h =
      let conn = (get_closed_crawl_state db g.group).1 in
      let reached =
        skip_to_page-reach g p last of_backfill no_range listing (start_of g db)
          (at_least_one_pos (cursor g db).backfill_page) h in
      let (n, read, few, same, leaves) =
        crawl-Leaves g p of_backfill (start_of g db) conn reached in
      main-after db false open_yet
      ∙ ap
          (λ b.
            cursor g
              (run_if g p b (at_least_one (get_closed_crawl_state db g.group).0.backfill_page)
                conn).0)
          listing.0
      ∙ ap (λ s. cursor g (finish_run g p (crawl g p (at_least_one s.backfill_page) conn)).conn)
          (get-state db)
      ∙ set_cursor db (run_of db) same

  -- What a run leaves: the backfill is complete, or the next page is further on in the listing.
  Progress : CrawlState → ℕ → Type 0
  Progress c start =
      (c.backfill_complete ≡ true)
      ⊎ ((c.backfill_complete ≡ false)
          × (at_least_one c.backfill_page ≡ start + g.page_cap)
          × (start + g.page_cap ≤ last))

  page_next :
      (old : ℕ) (page : Option ℕ) (start n : ℕ)
      → page ≡ some (start + n)
      → start + n ≡ start + g.page_cap
      → 1 ≤ start
      → at_least_one (given page old) ≡ start + g.page_cap
  page_next old page start n e same pos =
      ap (λ o. at_least_one (given o old)) e ∙ at_least_one_id (start + n) (omega arith) ∙ same

  fields-Progress :
      (stop : Stop) (start n : ℕ) (c : CrawlFields) (old : CrawlState)
      → 1 ≤ start
      → old.backfill_complete ≡ false
      → Within stop start g.page_cap last
      → Leaves stop start n g.page_cap c
      → Progress (set_fields c old) start
  unfolding Progress set_fields
  fields-Progress page_cap_reached start n c old pos open_yet w h = inr (
    ap (λ b. given b old.backfill_complete) h.2 ∙ open_yet,
    page_next old.backfill_page c.page start n h.1 (rw h.0 refl) pos,
    w,
  )
  fields-Progress range_not_reached start n c old pos open_yet w h = absurd (cc w)
  fields-Progress running start n c old pos open_yet w h =
      inl (ap (λ b. given b old.backfill_complete) h.1)
  fields-Progress target_date start n c old pos open_yet w h =
      inl (ap (λ b. given b old.backfill_complete) h.1)
  fields-Progress (no_next reason) start n c old pos open_yet w h =
      inl (ap (λ b. given b old.backfill_complete) h.1)
  fields-Progress (short_of_cursor reason) start n c old pos open_yet w h =
      inl (ap (λ b. given b old.backfill_complete) h.1)

  main-Progress :
      (db : Db)
      → (cursor g db).backfill_complete ≡ false
      → start_of g db ≤ last
      → Progress (cursor g (main g p db).0) (start_of g db)
  unfolding run_of
  main-Progress db open_yet h =
      let pos = at_least_one_pos (cursor g db).backfill_page in
      let conn = (get_closed_crawl_state db g.group).1 in
      let reached =
        skip_to_page-reach g p last of_backfill no_range listing (start_of g db) pos h in
      let (n, read, few, same, leaves) =
        crawl-Leaves g p of_backfill (start_of g db) conn reached in
      subst (λ c. Progress c (start_of g db)) (sym (main-cursor db open_yet h))
        (fields-Progress _ (start_of g db) n _ (cursor g db) pos open_yet
          (crawl-Within g p last of_backfill no_range listing (start_of g db) conn reached h)
          leaves)

  runs_complete :
      (k : ℕ) (db : Db)
      → (cursor g db).backfill_complete ≡ true
      → (cursor g (runs g p k db)).backfill_complete ≡ true
  unfolding runs
  runs_complete zero db done = done
  runs_complete (suc k) db done =
      runs_complete k (main g p db).0 (ap (λ c. c.backfill_complete) (main_complete db done) ∙ done)

  -- Backfill runs without a newest date set, over a listing whose number of pages stays the same
  -- and which has the page of the cursor, complete the backfill: so many runs are enough that their
  -- caps, from the page of the cursor on, reach past the last page.
  pub runs-Completed :
      (k : ℕ) (db : Db)
      → start_of g db ≤ last
      → last < start_of g db + k * g.page_cap
      → (cursor g (runs g p k db)).backfill_complete ≡ true
  unfolding runs Progress
  runs-Completed zero db here enough = absurd (omega arith)
  runs-Completed (suc k) db here enough = elim (Bool-cases (cursor g db).backfill_complete) [
    | inl done ↦ runs_complete (suc k) db done
    | inr open_yet ↦ elim (main-Progress db open_yet here) [
      | inl done ↦ runs_complete k (main g p db).0 done
      | inr (still, next, within) ↦
          runs-Completed k (main g p db).0 (rw next within)
            (rw next (enough_next last (start_of g db) k g.page_cap enough))
    ]
  ]
