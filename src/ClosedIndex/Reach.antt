-- ===== src/ClosedIndex/Reach.antt =====
-- How far a backfill run gets in a listing that ends.
use panamacompra_collector_b.Prelude.{
  ℕ, zero, suc, ◌+◌, ◌-◌, ◌≤◌, ◌<◌, ◌≡◌, refl, sym, ap, ◌∙◌, inl, inr, true, false, none, some,
  arith, eqb, eqb_iff, Bool-cases, Option-cases, Text,
}
use mathlib.Core.Path.{subst}
use panamacompra_collector_b.Archive.{Db}
use panamacompra_collector_b.ClosedIndex.{
  backfill, Portal, Config, Run, Stop, running, page_cap_reached, target_date, no_next,
  range_not_reached, short_of_cursor, range_end_date,
}
use panamacompra_collector_b.ClosedIndex.Loop.{
  crawl_page, stop_at_last, crawl_from, range_missed, next_page, skip_pages, skip_to_page,
  start_run, crawl,
}
use panamacompra_collector_b.ClosedIndex.Cursor.{read_page}

-- A listing of `last` pages: Next moves on each page before the last, and not on the last.
abbrev pub HasPages : Portal → ℕ → Type 0
HasPages p last =
    (p.click_group ≡ true)
    × ((i : ℕ) → i < last → p.click_next i ≡ none)
    × (reason : Text) × (p.click_next last ≡ some reason)

abbrev pub Within : Stop → ℕ → ℕ → ℕ → Type 0
Within page_cap_reached page left last = page + left ≤ last
Within range_not_reached page left last = true ≡ false
Within other page left last = Unit

Within-suc :
    (stop : Stop) (page left last : ℕ)
    → Within stop (suc page) left last
    → Within stop page (suc left) last
Within-suc page_cap_reached page left last h = omega arith
Within-suc range_not_reached page left last h = h
Within-suc running page left last h = tt
Within-suc target_date page left last h = tt
Within-suc (no_next reason) page left last h = tt
Within-suc (short_of_cursor reason) page left last h = tt

module _ (g : Config) (p : Portal) (last : ℕ) (of_backfill : g.mode ≡ backfill)
    (no_range : g.backfill_end_date ≡ none) (listing : HasPages p last) where
  not_missed : (s : Run) → range_missed g p s ≡ false
  unfolding range_missed range_end_date
  not_missed s = rw (of_backfill, no_range) refl

  not_last : (page : ℕ) → p.click_next page ≡ none → page ≤ last → page < last
  not_last page moved h = elim (Bool-cases (eqb page last)) [
    | inl same ↦
        let at = (eqb_iff page last).0 same in
        let stuck = subst (λ n. p.click_next n ≡ some listing.2) (sym at) listing.3 in
        absurd (cc (moved, stuck))
    | inr other ↦ grind arith
  ]

  crawl_from-Within :
      (left : ℕ) (s : Run)
      → s.page_number ≤ last
      → Within (crawl_from g p left s).stop_reason s.page_number left last
  unfolding crawl_from stop_at_last
  crawl_from-Within zero s h = omega arith
  crawl_from-Within (suc left) s h = elim (Bool-cases (crawl_page g p s).reached_cutoff_date) [
    | inl past ↦ rw (past, crawl_from) tt
    | inr more ↦ elim (Option-cases (p.click_next s.page_number)) [
      | inl moved ↦
          let page = (read_page g p s).1 in
          let t = next_page g p (crawl_page g p s) in
          let at = ap suc page in
          let before = not_last s.page_number moved h in
          let next = crawl_from-Within left t (subst (λ n. n ≤ last) (sym at) before) in
          rw (more, moved, crawl_from)
            (Within-suc _ s.page_number left last
              (subst (λ n. Within (crawl_from g p left t).stop_reason n left last) at next))
      | inr (reason, stuck) ↦ rw (more, stuck, crawl_from, not_missed (crawl_page g p s)) tt
    ]
  ]

  skip_pages-reach :
      (clicks page : ℕ) → page + clicks ≤ last → skip_pages g p clicks page ≡ (page + clicks, none)
  unfolding skip_pages
  skip_pages-reach zero page h = ap (λ n. (n, none)) (omega arith)
  skip_pages-reach (suc clicks) page h =
      rw (listing.1 page (omega arith), skip_pages)
        (skip_pages-reach clicks (suc page) (omega arith) ∙ ap (λ n. (n, none)) (omega arith))

  pub skip_to_page-reach :
      (page : ℕ) → 1 ≤ page → page ≤ last → skip_to_page g p page ≡ (page, none)
  unfolding skip_to_page
  skip_to_page-reach page pos h =
      skip_pages-reach (page - 1) 1 (omega arith) ∙ ap (λ k. (k, none)) (omega arith)

  pub crawl-Within :
      (start : ℕ) (conn : Db)
      → skip_to_page g p start ≡ (start, none)
      → start ≤ last
      → Within (crawl g p start conn).stop_reason start g.page_cap last
  unfolding crawl
  crawl-Within start conn reached h =
      rw (reached, crawl)
        (crawl_from-Within g.page_cap (record (start_run g p conn) { page_number = start }) h)
