-- ===== src/Import/Kept.antt =====
-- An import adds records and overwrites none.
use panamacompra_collector_b.Prelude.{
  ℕ, suc, ◌+◌, ◌≡◌, inl, inr, Bool, true, false, Option, none, some, List, [], ◌∷◌, arith,
  Option-cases, some_inj, length, keep, Text,
}
use mathlib.Core.Path.{subst}
use panamacompra_collector_b.Table
use panamacompra_collector_b.Archive.{Opportunity, Db, find_existing_opportunity, opportunity_key}
use panamacompra_collector_b.Import.{
  Paths, Copy, Counts, no_counts, in_groups, remapped, insert_row, import_one, import_rows,
  import_opportunities,
}

-- What an import keeps: the rows of the archive, and the sum of the two counts for the rows seen.
abbrev pub Keeps : Copy × Counts → Copy × Counts → ℕ → Type 0
Keeps (s, c) (t, d) n =
    ((numero : Text) (row : Opportunity)
      → find_existing_opportunity s.db numero ≡ some row
      → find_existing_opportunity t.db numero ≡ some row)
    × (d.inserted + d.skipped_existing ≡ n + (c.inserted + c.skipped_existing))

module _ (p : Paths) where
  insert_row-find :
      (dry_run : Bool) (new : Opportunity) (db : Db) (numero : Text) (row : Opportunity)
      → find_existing_opportunity db numero ≡ some row
      → find_existing_opportunity (insert_row p dry_run new db) numero ≡ some row
  unfolding insert_row find_existing_opportunity
  insert_row-find true new db numero row e = e
  insert_row-find false new db numero row e =
      Table.find-append_some opportunity_key numero db.opportunities new row e

  Keeps-step : (r t d : Copy × Counts) (n : ℕ) → Keeps r t 1 → Keeps t d n → Keeps r d (suc n)
  Keeps-step (s, c) (t, d) (v, e) n h k = (
    (λ numero row x. k.0 numero row (h.0 numero row x)),
    (let x = h.1 in let y = k.1 in grind arith),
  )

  import_one-Keeps :
      (dry_run : Bool) (row : Opportunity) (found : Option Opportunity) (r t : Copy × Counts)
      → import_one p dry_run row found r ≡ some t
      → Keeps r t 1
  import_one-Keeps dry_run row (some old) (s, c) t e =
      subst (λ x. Keeps (s, c) x 1) (some_inj e) ((λ numero row x. x), ground arith)
  import_one-Keeps dry_run row none (s, c) t e = elim (Option-cases (remapped p row)) [
    | inl crash ↦ absurd (cc (rw crash at e))
    | inr (new, ready) ↦
        subst (λ x. Keeps (s, c) x 1) (some_inj (rw ready at e))
          ((λ numero row x. insert_row-find dry_run new s.db numero row x), ground arith)
  ]

  import_rows-Keeps :
      (dry_run : Bool) (rows : List Opportunity) (r t : Copy × Counts)
      → import_rows p dry_run rows r ≡ some t
      → Keeps r t (length rows)
  unfolding import_rows
  import_rows-Keeps dry_run [] r t e =
      subst (λ x. Keeps r x 0) (some_inj e) ((λ numero row x. x), ground arith)
  import_rows-Keeps dry_run (row ∷ rows) r t e =
      elim (Option-cases
        (import_one p dry_run row (find_existing_opportunity (r.0).db row.numero) r)) [
          | inl crash ↦ absurd (cc (rw crash at e))
          | inr (next, ok) ↦
              Keeps-step r next t (length rows)
                (import_one-Keeps dry_run row (find_existing_opportunity (r.0).db row.numero) r next
                  ok)
                (import_rows-Keeps dry_run rows next t (rw ok at e))
        ]

  -- An import that ends overwrites nothing: every record that was in the archive is there as it
  -- was. And it accounts for each record of the chosen groups in the other archive, as inserted or
  -- as skipped.
  pub import_opportunities-Keeps :
      (remote : Db) (groups : List Text) (dry_run : Bool) (s : Copy) (t : Copy × Counts)
      → import_opportunities p remote groups dry_run s ≡ some t
      → Keeps
          (s, no_counts)
          t
          (length (keep (λ row. in_groups groups row.grupo) remote.opportunities))
  unfolding import_opportunities
  import_opportunities-Keeps remote groups dry_run s t e =
      import_rows-Keeps dry_run (keep (λ row. in_groups groups row.grupo) remote.opportunities)
        (s, no_counts) t e
