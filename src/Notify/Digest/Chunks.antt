-- ===== src/Notify/Digest/Chunks.antt =====
-- The chunks of a digest: together they are the rows, and none is longer than a message allows.
use panamacompra_collector_b.Prelude.{
  ℕ, zero, suc, ◌≤◌, ◌<◌, ◌≡◌, refl, List, [], ◌∷◌, ◌++◌, arith, length, take-drop, length-take_le,
  length-drop_le, drop, Text,
}
use panamacompra_collector_b.Archive.{Opportunity}
use panamacompra_collector_b.Notify.{Desk}
use panamacompra_collector_b.Notify.Digest.{chunks, with_texts, build_index_digest_messages}

-- The chunks put together again, and the bound on each.
abbrev pub rows_of : List (List Opportunity × Text) → List Opportunity
rows_of [] = []
rows_of ((chunk, text) ∷ rest) = chunk ++ rows_of rest

abbrev pub Bounded : ℕ → List (List Opportunity × Text) → Type 0
Bounded size [] = Unit
Bounded size ((chunk, text) ∷ rest) = (0 < length chunk) × (length chunk ≤ size) × Bounded size rest

abbrev pub Splits : ℕ → List Opportunity → List (List Opportunity × Text) → Type 0
Splits size rows messages = (rows_of messages ≡ rows) × Bounded size messages

module _ (d : Desk) (digest_text : ℕ → ℕ → List Opportunity → Text) where
  chunks-Splits :
      (fuel n part total : ℕ) (rows : List Opportunity)
      → length rows ≤ fuel
      → Splits (suc n) rows (with_texts d digest_text part total (chunks fuel (suc n) rows))
  unfolding chunks
  chunks-Splits zero n part total [] h = (refl, tt)
  chunks-Splits zero n part total (r ∷ rows) h = absurd (grind arith)
  chunks-Splits (suc fuel) n part total [] h = (refl, tt)
  chunks-Splits (suc fuel) n part total (r ∷ rows) h =
      let rest =
        chunks-Splits fuel n (suc part) total (drop n rows)
          (let shorter = length-drop_le n rows in grind arith) in
      (
        rw (rest.0, take-drop n rows) refl,
        (ground arith, (let short = length-take_le n rows in grind arith), rest.1),
      )

  -- The digest messages of a list of new records carry exactly these records, in their order and
  -- each once: the chunks are not empty, have at most the configured number of records, and put
  -- together again they are the list.
  pub build_index_digest_messages-Splits :
      (n : ℕ) (rows : List Opportunity)
      → Splits (suc n) rows (build_index_digest_messages d digest_text (suc n) rows)
  unfolding build_index_digest_messages
  build_index_digest_messages-Splits n rows =
      chunks-Splits (length rows) n 1 (length (chunks (length rows) (suc n) rows)) rows
        (ground arith)
