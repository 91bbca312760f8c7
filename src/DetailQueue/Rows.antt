-- ===== src/DetailQueue/Rows.antt =====
-- The rows of the queue: which they are, in which order, and what a limit leaves out.
use panamacompra_collector_b.Prelude.{
  ℕ, suc, ◌+◌, ◌≤◌, ◌<◌, ◌≡◌, refl, sym, ap, ◌∙◌, ◌⊎◌, inl, inr, Bool, true, false, ◌&&◌, List, [],
  ◌∷◌, ◌++◌, arith, ltb, leb, Bool-cases, length, keep,
}
use mathlib.Core.Path.{subst}
use panamacompra_collector_b.Archive.{Opportunity}
use panamacompra_collector_b.DetailQueue.{
  order_rows, is_candidate, is_pending, take_pending, pending_rows,
}
use panamacompra_collector_b.DetailQueue.Order.{
  Sorted, count, order_rows-Sorted, count-order_rows, count-keep, keep-Sorted,
}

full_queue :
    (limit taken : ℕ)
    → (ltb 0 limit && leb limit (suc taken)) ≡ true
    → (0 < limit) × (limit ≤ suc taken)
full_queue limit taken e = ground arith

open_queue :
    (limit taken : ℕ)
    → (ltb 0 limit && leb limit (suc taken)) ≡ false
    → 0 < limit
    → suc taken < limit
open_queue limit taken e some_limit = ground arith

module _ (in_group current : Opportunity → Bool) where
  -- What a limit does: without one nothing is left out, and rows are left out only by a full queue.
  abbrev pub Limited : ℕ → ℕ → List Opportunity → Type 0
  Limited limit n rest =
      (limit ≡ 0 → rest ≡ []) × (0 < limit → (n ≤ limit) × ((rest ≡ []) ⊎ (n ≡ limit)))

  abbrev Taken : ℕ → ℕ → List Opportunity → Type 0
  Taken limit taken rows =
      (rest : List Opportunity) × (keep (is_pending in_group current) rows
        ≡ take_pending in_group current limit taken rows ++ rest)
      × Limited limit (taken + length (take_pending in_group current limit taken rows)) rest

  take_pending-Taken :
      (limit taken : ℕ) (rows : List Opportunity)
      → (0 < limit → taken < limit)
      → Taken limit taken rows
  unfolding take_pending keep
  take_pending-Taken limit taken [] h =
      ([], refl, ((λ e. refl), λ some_limit. ((let e = h some_limit in omega arith), inl refl)))
  take_pending-Taken limit taken (r ∷ rows) h = elim (Bool-cases (is_pending in_group current r)) [
    | inr done ↦ rw (done, take_pending) (take_pending-Taken limit taken rows h)
    | inl waits ↦ elim (Bool-cases (ltb 0 limit && leb limit (suc taken))) [
      | inl full ↦
          rw (waits, full, take_pending)
            (
              keep (is_pending in_group current) rows,
              refl,
              (
                (λ e. absurd (let f = full_queue limit taken full in omega arith)),
                λ some_limit. (
                  (let e = h some_limit in omega arith),
                  inr (let e = h some_limit in let f = full_queue limit taken full in omega arith),
                ),
              ),
            )
      | inr more ↦
          let (rest, split, limited) =
            take_pending-Taken limit (suc taken) rows
              (λ some_limit. open_queue limit taken more some_limit) in
          rw (waits, more, take_pending)
            (rest, ap (λ xs. r ∷ xs) split, subst (λ n. Limited limit n rest) (omega arith) limited)
    ]
  ]

  -- The queue holds pending candidates alone, in the order of the statement, and with the rows that
  -- the limit left out, which come after them in that order, it is all of them, each as often as in
  -- the table.
  abbrev pub IsQueue : ℕ → ℕ → List Opportunity → List Opportunity → Type 0
  IsQueue limit max_attempts rows queue =
      (rest : List Opportunity) × Sorted (queue ++ rest)
      × ((p : Opportunity → Bool)
          → count p (queue ++ rest)
            ≡ count
                (λ r.
                  (p r && is_pending in_group current r)
                  && is_candidate in_group current max_attempts r)
                rows)
      × Limited limit (length queue) rest

  -- The queue, followed by the rows that the limit left out, is in the order of the statement and
  -- holds each row that is pending, in the groups and under the limit of attempts as often as the
  -- table does, and no other row. Without a limit nothing is left out; with one the queue is no
  -- longer than it, and leaves rows out only if it is as long.
  pub pending_rows-IsQueue :
      (limit max_attempts : ℕ) (rows : List Opportunity)
      → IsQueue limit max_attempts rows (pending_rows in_group current limit max_attempts rows)
  unfolding pending_rows
  pending_rows-IsQueue limit max_attempts rows =
      let candidates = keep (is_candidate in_group current max_attempts) rows in
      let (rest, split, limited) = take_pending-Taken limit 0 (order_rows candidates) (λ h. h) in
      (
        rest,
        subst Sorted split (keep-Sorted _ (order_rows candidates) (order_rows-Sorted candidates)),
        (λ p.
            ap (count p) (sym split)
            ∙ count-keep p _ (order_rows candidates)
            ∙ count-order_rows _ candidates
            ∙ count-keep _ (is_candidate in_group current max_attempts) rows),
        subst (λ n. Limited limit n rest) (omega arith) limited,
      )
