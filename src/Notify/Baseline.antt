-- ===== src/Notify/Baseline.antt =====
-- The baselines of the notifier: what an installation had before messages could be sent is taken
-- as announced.
use panamacompra_collector_b.Prelude.{
  truthy, Option-cases, ◌⊎◌, ◌∙◌, ◌≡◌, refl, sym, inl, inr, Bool, true, false, not, ◌&&◌, ◌||◌,
  Option, none, some, List, [], ◌∷◌, map, ltb, eqb, if◌then◌else◌, Bool-cases, All, Text, ◌==◌,
  is_empty, or_empty,
}
use mathlib.Core.Path.{subst}
use panamacompra_collector_b.Table
use panamacompra_collector_b.Archive.{
  EveryRow-of_All, find_existing_opportunity, Opportunity, Notice, Db, opportunity_key,
  update_opportunity,
}
use panamacompra_collector_b.Notify.{Desk, Node, waha_usable}
use panamacompra_collector_b.Notify.Record.{notify_saved_record, announce_row}
use panamacompra_collector_b.Notify.Deliver.{set_notice, mark_snapshot, snapshot}

-- `a < b` on texts, as SQLite compares them, and `a >= b` in Python: by code points.
unfoldable pub text_before : Text → Text → Bool
text_before [] [] = false
text_before [] (b ∷ t) = true
text_before (a ∷ s) [] = false
text_before (a ∷ s) (b ∷ t) = ltb a b || (eqb a b && text_before s t)

abbrev is_null {ℓ} : {A : Type ℓ} → Option A → Bool
is_null none = true
is_null (some a) = false

-- UPDATE opportunities SET … WHERE a test.
unfoldable pub update_where : (Opportunity → Bool) → (Notice → Notice) → Db → Db
update_where test f db = record db {
  opportunities = map (λ row. if test row then set_notice f row else row) db.opportunities;
}

module _ (d : Desk) where
  abbrev pub numbers : List Opportunity → List Text
  numbers [] = []
  numbers (row ∷ rows) =
      let rest = numbers rows in if is_null row.notified_at then row.numero ∷ rest else rest

  unfoldable pub mark_snapshots : List Text → Db → Db
  mark_snapshots [] db = db
  mark_snapshots (numero ∷ numeros) db = mark_snapshots numeros (mark_snapshot d numero db)

  abbrev announced_at : Notice → Notice
  announced_at old = record old { notified_at = some d.now_str }

  -- Whether the baseline was made, and the archive; the marker file exists from then on.
  unfoldable pub ensure_baseline : Db → Db × Bool
  ensure_baseline db =
      if d.baseline then (db, false) else if not (waha_usable d) then (db, false) else (
        mark_snapshots (numbers db.opportunities)
            (update_where (λ row. is_null row.notified_at) announced_at db),
        true,
      )

  abbrev detail_at : Notice → Notice
  detail_at old = record old { detail_notified_at = old.notified_at }

  abbrev owed : Opportunity → Bool
  owed row = not (is_null row.notified_at) && is_null row.detail_notified_at

  -- The start of the run, or the empty text where the main baseline is of this run.
  unfoldable pub detail_cutoff : Text → Text → Text
  detail_cutoff main_baseline_time since =
      if is_empty since
        || (not (is_empty main_baseline_time) && not (text_before main_baseline_time since))
      then []
      else since

  -- `marker` is whether the marker file of the detail baseline exists.
  unfoldable pub ensure_detail_baseline : Bool → Text → Text → Db → Db × Bool
  ensure_detail_baseline marker main_baseline_time since db =
      let cutoff = detail_cutoff main_baseline_time since in
      if marker
      then (db, false)
      else if not (waha_usable d)
      then (db, false)
      else if is_empty cutoff
      then (update_where owed detail_at db, true)
      else (
        update_where (λ row. owed row && text_before (or_empty row.notified_at) cutoff) detail_at
            db,
        true,
      )

-- The record is taken as announced: the notifier tests the truth of the column.
abbrev pub HasNotice : Opportunity → Type 0
HasNotice row = truthy row.notified_at ≡ true

-- The column is NULL or has a text that is not empty, as every statement of the code leaves it.
abbrev pub HasClock : Opportunity → Type 0
HasClock row = (row.notified_at ≡ none) ⊎ (truthy row.notified_at ≡ true)

abbrev pub AllNoticed : Db → Type 0
AllNoticed db = All HasNotice db.opportunities

-- The guards of `ensure_baseline`: the archive that it makes when it reports that it made one.
abbrev guarded : Bool → Bool → Db → Db → Db × Bool
guarded had usable db made =
    if had then (db, false) else if not usable then (db, false) else (made, true)

made_is :
    (had usable : Bool) (db made : Db)
    → (guarded had usable db made).1 ≡ true
    → (guarded had usable db made).0 ≡ made
made_is true usable db made h = absurd (cc h)
made_is false true db made h = refl
made_is false false db made h = absurd (cc h)

module _ (d : Desk) where
  update-All :
      (f : Opportunity → Opportunity)
      → ((r : Opportunity) → (f r).notified_at ≡ r.notified_at)
      → (k : Text) (rows : List Opportunity) → All HasNotice rows
      → All HasNotice (Table.update opportunity_key k f rows)
  unfolding Table.update
  update-All f fixes k [] h = tt
  update-All f fixes k (r ∷ rows) h = elim (Bool-cases (r.numero == k)) [
    | inl same ↦ rw same (rw (fixes r) (h.0), update-All f fixes k rows h.1)
    | inr other ↦ rw other (h.0, update-All f fixes k rows h.1)
  ]

  mark_snapshots-AllNoticed :
      (numeros : List Text) (db : Db) → AllNoticed db → AllNoticed (mark_snapshots d numeros db)
  unfolding mark_snapshots mark_snapshot update_opportunity snapshot
  mark_snapshots-AllNoticed [] db h = h
  mark_snapshots-AllNoticed (numero ∷ numeros) db h =
      mark_snapshots-AllNoticed numeros (mark_snapshot d numero db)
        (update-All _ (λ r. refl) numero db.opportunities h)

  update_where-AllNoticed :
      (rows : List Opportunity)
      → truthy (some d.now_str) ≡ true
      → All HasClock rows
      → All HasNotice (
          map
            (λ row. if is_null row.notified_at then set_notice (announced_at d) row else row)
            rows)
  update_where-AllNoticed [] clock h = tt
  update_where-AllNoticed (r ∷ rows) clock h = elim (Option-cases r.notified_at) [
    | inl fresh ↦ rw fresh (clock, update_where-AllNoticed rows clock h.1)
    | inr (time, marked) ↦ rw marked (
      (elim h.0 [
        | inl null ↦ absurd (let p : some time ≡ none = sym marked ∙ null in cc p)
        | inr filled ↦ rw marked at filled
      ]),
      update_where-AllNoticed rows clock h.1,
    )
  ]

  ensure_baseline-AllNoticed :
      (db : Db)
      → truthy (some d.now_str) ≡ true
      → All HasClock db.opportunities
      → (ensure_baseline d db).1 ≡ true
      → AllNoticed (ensure_baseline d db).0
  unfolding ensure_baseline update_where
  ensure_baseline-AllNoticed db clock stored made =
      subst AllNoticed (sym (made_is d.baseline (waha_usable d) db _ made)) (
        mark_snapshots-AllNoticed (numbers d db.opportunities) _
          (update_where-AllNoticed db.opportunities clock stored))

  -- A record that is taken as announced is not announced.
  silent :
      (e : Desk) (numero : Text) (s : Node)
      → AllNoticed s.db
      → notify_saved_record e numero s ≡ (s, false)
  unfolding notify_saved_record announce_row
  silent e numero s h = elim (Bool-cases (waha_usable e && e.baseline)) [
    | inr off ↦ rw off refl
    | inl on ↦ elim (Option-cases (find_existing_opportunity s.db numero)) [
      | inl absent ↦ rw (on, absent) refl
      | inr (row, found) ↦ rw (on, found, EveryRow-of_All HasNotice s.db h numero row found) refl
    ]
  ]

  -- The clock has a text, and each record of the archive has NULL or a text that is not empty in
  -- notified_at. When the baseline is made, every record that is in the archive then has a text
  -- that is not empty there, and notify_saved_record announces none of them from then on: for
  -- every NUMERO it sends nothing and leaves the archive and the client as they are.
  pub ensure_baseline-notify_saved_record :
      (db : Db) (s : Node) (numero : Text)
      → truthy (some d.now_str) ≡ true
      → All HasClock db.opportunities
      → (ensure_baseline d db).1 ≡ true
      → AllNoticed (ensure_baseline d db).0
        × (notify_saved_record
              (record d { baseline = true })
              numero
              (record s { db = (ensure_baseline d db).0 })
            ≡ (record s { db = (ensure_baseline d db).0 }, false))
  ensure_baseline-notify_saved_record db s numero clock stored made =
      let noticed = ensure_baseline-AllNoticed db clock stored made in
      (
        noticed,
        silent (record d { baseline = true }) numero (record s { db = (ensure_baseline d db).0 })
            noticed,
      )
