-- ===== src/Notify/Digest.antt =====
-- The batch steps: the digests of new records, the retry of what was not announced, the baseline
-- and the refresh of the snapshots. The text of a digest message is a parameter.
pub mod Chunks
use panamacompra_collector_b.Prelude.{
  ℤ, pos, negsuc, ℕ, zero, suc, ◌+◌, true, false, Option, none, some, List, [], ◌∷◌, if◌then◌else◌,
  length, take, drop, any, Text, codes, ◌==◌, truthy, member,
}
use panamacompra_collector_b.Archive.{Opportunity, Db, find_existing_opportunity}
use panamacompra_collector_b.Notify.{Desk, Node, Profile, allowed_match_line_for, status_value}
use panamacompra_collector_b.Notify.Deliver.{
  mark_notified, mark_snapshot, export_record_calendar, record_send_outcome, send_text,
}
use panamacompra_collector_b.Notify.Record.{
  with_db, settle_silently, ok, expired, too_far, deadline_decision, notify_saved_record,
}

-- `index_digest_records_per_message` and `index_digest_threshold`, of what `cfg_int` returns.
unfoldable pub index_digest_records_per_message : Option ℤ → ℕ
index_digest_records_per_message none = 100
index_digest_records_per_message (some (pos zero)) = 1
index_digest_records_per_message (some (pos (suc n))) = suc n
index_digest_records_per_message (some (negsuc n)) = 1

unfoldable pub index_digest_threshold : List Profile → Option ℤ → ℕ
index_digest_threshold profiles value =
    if any (λ profile. member (codes "index") profile.purposes) profiles
    then 0
    else elim value [ none ↦ 1 | some (pos n) ↦ n | some (negsuc n) ↦ 0 ]

-- The slices of `records_per_message` rows; there are no more of them than rows.
unfoldable pub chunks {ℓ} : {A : Type ℓ} → ℕ → ℕ → List A → List (List A)
chunks zero size rows = []
chunks (suc fuel) size [] = []
chunks (suc fuel) size (r ∷ rows) = take size (r ∷ rows) ∷ chunks fuel size (drop size (r ∷ rows))

module _ (d : Desk) (digest_text : ℕ → ℕ → List Opportunity → Text) where
  abbrev pub with_texts : ℕ → ℕ → List (List Opportunity) → List (List Opportunity × Text)
  with_texts part total [] = []
  with_texts part total (chunk ∷ rest) =
      (chunk, digest_text part total chunk) ∷ with_texts (suc part) total rest

  unfoldable pub build_index_digest_messages : ℕ → List Opportunity → List (List Opportunity × Text)
  build_index_digest_messages size rows =
      let parts = chunks (length rows) size rows in with_texts 1 (length parts) parts

  -- The outcome of a message that failed, on every record of its chunk.
  abbrev or_default : Text → Text
  or_default [] = codes "index digest send failed"
  or_default (c ∷ error) = c ∷ error

  unfoldable pub failed_rows : Text → List Opportunity → Db → Db
  failed_rows error [] db = db
  failed_rows error (row ∷ rows) db =
      failed_rows error rows (record_send_outcome (some row.numero) (or_default error) db)

  unfoldable pub accepted_row : Opportunity → Db → Db
  accepted_row row db =
      mark_notified d row.numero
        (export_record_calendar d row (record_send_outcome (some row.numero) [] db))

  unfoldable pub accepted_rows : List Opportunity → Db → Db
  accepted_rows [] db = db
  accepted_rows (row ∷ rows) db = accepted_rows rows (accepted_row row db)

  -- Messages sent and records announced.
  abbrev count : ℕ → Node × ℕ × ℕ → Node × ℕ × ℕ
  count n (s, messages, records) = (s, suc messages, n + records)

  unfoldable pub send_digests : List (List Opportunity × Text) → Node → Node × ℕ × ℕ
  send_digests [] s = (s, 0, 0)
  send_digests ((rows, text) ∷ rest) s =
      let r = send_text d text (codes "index") (codes "new") none s in
      elim r.1 [
        | false ↦ (record (r.0) { db = failed_rows (r.0).last_send_error rows (r.0).db }, 0, 0)
        | true ↦
            count (length rows)
              (send_digests rest (record (r.0) { db = accepted_rows rows (r.0).db }))
      ]

  unfoldable pub announce_index_digest : ℕ → List Opportunity → Node → Node × ℕ × ℕ
  announce_index_digest size rows = send_digests (build_index_digest_messages size rows)

module _ (d : Desk) where
  abbrev with_row : Opportunity → Node × List Opportunity → Node × List Opportunity
  with_row row (s, rows) = (s, row ∷ rows)

  -- What the guards make of one row: the archive after them, and whether the row is eligible.
  unfoldable pub eligibility : Text → Option Opportunity → Node → Node × Option Opportunity
  eligibility numero none s = (s, none)
  eligibility numero (some row) s =
      if truthy row.notified_at then (s, none) else elim (deadline_decision d row) [
        | expired ↦ (settle_silently d numero s, none)
        | too_far ↦ (s, none)
        | ok ↦ elim (allowed_match_line_for d row (codes "index")) [
          | none ↦ (settle_silently d numero s, none)
          | some line ↦ (s, some row)
        ]
      ]

  unfoldable pub collect_from : List Text → Node → Node × List Opportunity
  collect_from [] s = (s, [])
  collect_from (numero ∷ numeros) s =
      let r = eligibility numero (find_existing_opportunity s.db numero) s in
      let rest = collect_from numeros (r.0) in
      elim r.1 [ none ↦ rest | some row ↦ with_row row rest ]

  unfoldable pub collect_digest_rows : List Text → Node → Node × List Opportunity
  collect_digest_rows numeros s = if d.baseline then collect_from numeros s else (s, [])

  -- The loop of `flush_unannounced`, over the numbers that its query returns.
  unfoldable pub flush_each : List Text → Node → Node × ℕ
  flush_each [] s = (s, 0)
  flush_each (numero ∷ numeros) s =
      let r = notify_saved_record d numero s in
      let rest = flush_each numeros (r.0) in (rest.0, if r.1 then suc rest.1 else rest.1)

  -- The loop of `sync_snapshots`.
  unfoldable pub sync_one : Text → Option Opportunity → Node → Node × ℕ
  sync_one numero none s = (s, 0)
  sync_one numero (some row) s =
      if elim row.last_notified_signature [
        | none ↦ false
        | some old ↦ old == d.stable_hash (status_value row) (d.items_hash row.detail_json_path)
      ]
      then (s, 0)
      else (with_db d (λ db. mark_snapshot d row.numero (export_record_calendar d row db)) s, 1)

  unfoldable pub sync_each : List Text → Node → Node × ℕ
  sync_each [] s = (s, 0)
  sync_each (numero ∷ numeros) s =
      let r = sync_one numero (find_existing_opportunity s.db numero) s in
      let rest = sync_each numeros (r.0) in (rest.0, r.1 + rest.1)
