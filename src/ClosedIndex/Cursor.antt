-- ===== src/ClosedIndex/Cursor.antt =====
-- The pages that a run reads, and where the next run begins.
use panamacompra_collector_b.Prelude.{
  append_nil, append_assoc, ℕ, zero, suc, ◌+◌, ◌≤◌, ◌≡◌, refl, sym, ap, ◌∙◌, inl, inr, Bool, true,
  false, List, [], ◌∷◌, ◌++◌, arith, Bool-cases, Option-cases, Text,
}
use mathlib.Core.Path.{subst}
use panamacompra_collector_b.ClosedIndex.{
  Portal, Config, Run, Stop, running, page_cap_reached, target_date, no_next, range_not_reached,
  short_of_cursor,
}
use panamacompra_collector_b.ClosedIndex.Loop.{
  crawl_page, range_missed, stop_at_last, stopped, next_page, crawl_from, crawl,
}
use panamacompra_collector_b.ClosedIndex.Kept.{crawl_page-Same}

-- The pages from a page on.
abbrev pub pages : ℕ → ℕ → List ℕ
pages start zero = []
pages start (suc n) = start ∷ pages (suc start) n

abbrev numbers : List (ℕ × ℕ) → List ℕ
numbers [] = []
numbers ((page, rows) ∷ counts) = page ∷ numbers counts

abbrev pub pages_of : Run → List ℕ
pages_of s = numbers s.page_counts

numbers-append : (xs ys : List (ℕ × ℕ)) → numbers (xs ++ ys) ≡ numbers xs ++ numbers ys
numbers-append [] ys = refl
numbers-append ((a, b) ∷ xs) ys = rw (numbers-append xs ys) refl

-- How a run that began at a page and read `n` pages ended, for a number of pages left.
abbrev pub Ends : Stop → ℕ → ℕ → ℕ → Run → Type 0
Ends page_cap_reached start n left t =
    (n ≡ left)
    × (t.page_number ≡ start + n)
    × (t.reached_last_page ≡ false)
    × (t.reached_cutoff_date ≡ false)
Ends range_not_reached start n left t =
    (suc t.page_number ≡ start + n)
    × (t.reached_last_page ≡ false)
    × (t.reached_cutoff_date ≡ false)
Ends target_date start n left t = (suc t.page_number ≡ start + n) × (t.reached_cutoff_date ≡ true)
Ends (no_next reason) start n left t =
    (suc t.page_number ≡ start + n) × (t.reached_last_page ≡ true)
Ends other start n left t = true ≡ false

abbrev pub Crawled : ℕ → Run → Run → Type 0
Crawled left s t =
    (n : ℕ) × (pages_of t ≡ pages_of s ++ pages s.page_number n)
    × (n ≤ left)
    × (t.conn.crawl ≡ s.conn.crawl)
    × Ends t.stop_reason s.page_number n left t

-- One page more at the front of a run.
Ends-suc :
    (stop : Stop) (start n left : ℕ) (t : Run)
    → Ends stop (suc start) n left t
    → Ends stop start (suc n) (suc left) t
Ends-suc page_cap_reached start n left t h = (rw (h.0) refl, grind arith, h.2, h.3)
Ends-suc range_not_reached start n left t h = (let e = h.0 in grind arith, h.1, h.2)
Ends-suc target_date start n left t h = (let e = h.0 in grind arith, h.1)
Ends-suc (no_next reason) start n left t h = (let e = h.0 in grind arith, h.1)
Ends-suc running start n left t h = h
Ends-suc (short_of_cursor reason) start n left t h = h

module _ (g : Config) (p : Portal) where
  -- The pages after one page was read.
  pub read_page :
      (s : Run)
      → (pages_of (crawl_page g p s) ≡ pages_of s ++ s.page_number ∷ [])
        × ((crawl_page g p s).page_number ≡ s.page_number)
        × ((crawl_page g p s).reached_last_page ≡ s.reached_last_page)
        × ((crawl_page g p s).conn.crawl ≡ s.conn.crawl)
  read_page s =
      let same = crawl_page-Same g p s in
      (ap numbers same.0 ∙ numbers-append s.page_counts _, same.1, same.2, same.3)

  -- The last page of a run, whatever the reason is.
  last_page :
      (left : ℕ) (s t : Run)
      → pages_of t ≡ pages_of s ++ s.page_number ∷ []
      → t.conn.crawl ≡ s.conn.crawl
      → Ends t.stop_reason s.page_number 1 (suc left) t
      → Crawled (suc left) s t
  last_page left s t read crawl ends = (1, read, omega arith, crawl, ends)

  more_pages :
      (left : ℕ) (s t : Run)
      → Crawled left (next_page g p (crawl_page g p s)) t
      → Crawled (suc left) s t
  more_pages left s t (n, read, few, crawl, ends) =
      let page = read_page s in
      (
        suc n,
        read
            ∙ rw (page.0, page.1)
                (append_assoc (pages_of s) (s.page_number ∷ []) (pages (suc s.page_number) n)),
        grind arith,
        crawl ∙ page.3,
        Ends-suc t.stop_reason s.page_number n left t
            (subst (λ x. Ends t.stop_reason (suc x) n left t) page.1 ends),
      )

  stuck_page :
      (missed : Bool) (left : ℕ) (s : Run) (reason : Text)
      → s.reached_last_page ≡ false
      → (crawl_page g p s).reached_cutoff_date ≡ false
      → Crawled (suc left) s (stopped g p missed reason (crawl_page g p s))
  stuck_page true left s reason last more =
      let page = read_page s in
      last_page left s (stopped g p true reason (crawl_page g p s)) page.0 page.3
        ((let e = page.1 in grind arith), refl, more)
  stuck_page false left s reason last more =
      let page = read_page s in
      last_page left s (stopped g p false reason (crawl_page g p s)) page.0 page.3
        ((let e = page.1 in grind arith), refl)

  pub crawl_from-Crawled :
      (left : ℕ) (s : Run)
      → s.reached_last_page ≡ false
      → s.reached_cutoff_date ≡ false
      → Crawled left s (crawl_from g p left s)
  unfolding crawl_from stop_at_last
  crawl_from-Crawled zero s last cutoff =
      (zero, sym (append_nil (pages_of s)), ground arith, refl, (refl, omega arith, last, cutoff))
  crawl_from-Crawled (suc left) s last cutoff =
      let page = read_page s in
      elim (Bool-cases (crawl_page g p s).reached_cutoff_date) [
        | inl past ↦
            rw (past, crawl_from)
              (last_page left s (record (crawl_page g p s) { stop_reason = target_date }) page.0
                page.3 ((let e = page.1 in grind arith), past))
        | inr more ↦ elim (Option-cases (p.click_next s.page_number)) [
          | inl moved ↦
              rw (more, moved, crawl_from)
                (more_pages left s (crawl_from g p left (next_page g p (crawl_page g p s)))
                  (crawl_from-Crawled left (next_page g p (crawl_page g p s)) (page.2 ∙ last) more))
          | inr (reason, stuck) ↦
              rw (more, stuck, crawl_from)
                (stuck_page (range_missed g p (crawl_page g p s)) left s reason last more)
        ]
      ]
