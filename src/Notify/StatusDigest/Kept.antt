-- ===== src/Notify/StatusDigest/Kept.antt =====
-- What the marks of a digest of status changes leave alone: the tracking of other records.
use panamacompra_collector_b.Prelude.{
  any, ◌≡◌, refl, sym, ◌∙◌, ◌⊎◌, inl, inr, Bool, true, false, not, ◌&&◌, Option, none, some, List,
  [], ◌∷◌, ◌++◌, if◌then◌else◌, Bool-cases, Option-cases, All, Text, ◌==◌, ==_iff,
}
use panamacompra_collector_b.Table
use panamacompra_collector_b.Archive.{
  Opportunity, Tracking, Db, find_existing_opportunity, update_opportunity, opportunity_key,
}
use panamacompra_collector_b.Waha.Send.{Client}
use panamacompra_collector_b.Notify.{Desk, Node, Profile}
use panamacompra_collector_b.Notify.Deliver.{
  mark_snapshot, clear_status_change, export_record_calendar, record_send_outcome, settle_send,
  send_matching, send_all, send_text, Ended, ended, broken,
}
use panamacompra_collector_b.Notify.StatusDigest.{
  Change, failed_changes, accepted_change, accepted_changes, mark_change, Step, at_outcome,
  at_snapshot, at_clear,
}

-- The record has a row with this tracking: its status flag, its pending change and its closing.
abbrev pub HasTracking : Tracking → Text → Db → Type 0
HasTracking t numero db =
    (row : Opportunity) × (find_existing_opportunity db numero ≡ some row) × (row.tracking ≡ t)

-- One of the changes is of that record.
abbrev pub concerns : Text → List Change → Bool
concerns numero changes = any (λ (change : Change). change.row.numero == numero) changes

module _ (t : Tracking) (numero : Text) where
  update-HasTracking :
      (f : Opportunity → Opportunity)
      → ((r : Opportunity) → (f r).numero ≡ r.numero)
      → (k : Text) (db : Db)
      → (k == numero ≡ false) ⊎ ((r : Opportunity) → (f r).tracking ≡ r.tracking)
      → HasTracking t numero db
      → HasTracking t numero (update_opportunity k f db)
  unfolding find_existing_opportunity update_opportunity
  update-HasTracking f keeps k db fixes (row, e, q) = elim (Bool-cases (k == numero)) [
    | inl same ↦ elim fixes [
      | inl other ↦ absurd (cc (sym other ∙ same))
      | inr fixed ↦ (
        f row,
        Table.find-update opportunity_key f keeps k numero db.opportunities
            ∙ rw (same, (==_iff k numero).0 same, e) refl,
        fixed row ∙ q,
      )
    ]
    | inr other ↦ (
      row,
      Table.find-update opportunity_key f keeps k numero db.opportunities ∙ rw (other, e) refl,
      q,
    )
  ]

  outcome-HasTracking :
      (k : Option Text) (error : Text) (db : Db)
      → HasTracking t numero db
      → HasTracking t numero (record_send_outcome k error db)
  unfolding record_send_outcome
  outcome-HasTracking none error db h = h
  outcome-HasTracking (some k) error db h =
      update-HasTracking _ (λ r. refl) k db (inr (λ r. refl)) h

  pub failed_changes-HasTracking :
      (error : Text) (chunk : List Change) (db : Db)
      → HasTracking t numero db
      → HasTracking t numero (failed_changes error chunk db)
  unfolding failed_changes
  failed_changes-HasTracking error [] db h = h
  failed_changes-HasTracking error (change ∷ chunk) db h =
      failed_changes-HasTracking error chunk _
        (outcome-HasTracking (some change.row.numero) error db h)

  module _ (d : Desk) where
    calendar-HasTracking :
        (row : Opportunity) (db : Db)
        → HasTracking t numero db
        → HasTracking t numero (export_record_calendar d row db)
    unfolding export_record_calendar
    calendar-HasTracking row db h = elim (Option-cases (d.calendar_export row)) [
      | inl e ↦ rw (e, export_record_calendar) h
      | inr (path, e) ↦
          rw (e, export_record_calendar)
            (update-HasTracking _ (λ r. refl) row.numero db (inr (λ r. refl)) h)
    ]

    mark_change-HasTracking :
        (clears : Bool) (step : Option Step) (change : Change) (db : Db)
        → (change.row.numero == numero) ≡ false
        → HasTracking t numero db
        → HasTracking t numero (mark_change d clears step change db).0
    unfolding mark_snapshot clear_status_change
    mark_change-HasTracking clears step change db other h = by_step clears step
      where
        exported : HasTracking t numero (
            export_record_calendar d change.row
              (record_send_outcome (some change.row.numero) [] db))
        exported =
            calendar-HasTracking change.row _ (outcome-HasTracking (some change.row.numero) [] db h)

        by_step :
            (clears : Bool) (step : Option Step)
            → HasTracking t numero (mark_change d clears step change db).0
        by_step clears (some at_outcome) = h
        by_step clears (some at_snapshot) = exported
        by_step clears (some at_clear) =
            update-HasTracking _ (λ r. refl) change.row.numero _ (inl other) exported
        by_step false none =
            update-HasTracking _ (λ r. refl) change.row.numero _ (inl other) exported
        by_step true none =
            update-HasTracking _ (λ r. refl) change.row.numero _ (inl other)
              (update-HasTracking _ (λ r. refl) change.row.numero _ (inl other) exported)

    abbrev Other : Change → Type 0
    Other change = (change.row.numero == numero) ≡ false

    pub accepted_changes-HasTracking :
        (clears : Text → Bool) (breaks : Text → Option Step) (chunk : List Change) (db : Db)
        → All Other chunk
        → HasTracking t numero db
        → HasTracking t numero (accepted_changes d clears breaks chunk db).0
    unfolding accepted_changes accepted_change
    accepted_changes-HasTracking clears breaks [] db others h = h
    accepted_changes-HasTracking clears breaks (change ∷ chunk) db others h =
        accepted_changes-HasTracking clears breaks chunk _ others.1 (
          mark_change-HasTracking (clears change.row.numero) (breaks change.row.numero) change db
            others.0 h)

    settle-HasTracking :
        (text purpose : Text) (s : Node) (r : Client × Ended)
        → HasTracking t numero s.db
        → HasTracking t numero (settle_send d text purpose none s r).0.db
    unfolding settle_send record_send_outcome
    settle-HasTracking text purpose s (c, ended false) h = h
    settle-HasTracking text purpose s (c, ended true) h = h
    settle-HasTracking text purpose s (c, broken error) h = h

    if_either :
        (b : Bool) (r v : Node × Bool)
        → HasTracking t numero r.0.db
        → HasTracking t numero v.0.db
        → HasTracking t numero (if b then r else v).0.db
    if_either true r v h k = h
    if_either false r v h k = k

    matching-HasTracking :
        (text purpose chat : Text) (b : Bool) (ps : List Profile) (s : Node)
        → HasTracking t numero s.db
        → HasTracking t numero (send_matching d text purpose none b chat ps s).0.db
    unfolding send_matching
    matching-HasTracking text purpose chat b ps s h =
        if_either (not b && _) (s, false)
          (settle_send d text purpose none s (send_all d text purpose b chat ps s.client)) h
          (settle-HasTracking text purpose s _ h)

    pub send_text-HasTracking :
        (text purpose event : Text) (s : Node)
        → HasTracking t numero s.db
        → HasTracking t numero (send_text d text purpose event none s).0.db
    unfolding send_text
    send_text-HasTracking text purpose event s h =
        if_either (d.record_events_respect_filter && not (d.enabled_for_event event)) _ _ h
          (matching-HasTracking text purpose _ _ _ (record s { last_send_error = [] }) h)

    pub concerns-append :
        (xs ys : List Change)
        → (concerns numero xs ≡ true) ⊎ (concerns numero ys ≡ true)
        → concerns numero (xs ++ ys) ≡ true
    unfolding any
    concerns-append [] ys (inl e) = absurd (cc e)
    concerns-append [] ys (inr e) = e
    concerns-append (x ∷ xs) ys h = elim (Bool-cases (x.row.numero == numero)) [
      | inl same ↦ rw same refl
      | inr other ↦
          rw other (concerns-append xs ys (elim h [ inl e ↦ inl (rw other at e) | inr e ↦ inr e ]))
    ]

    pub concerns-Other : (chunk : List Change) → concerns numero chunk ≡ false → All Other chunk
    unfolding any
    concerns-Other [] e = tt
    concerns-Other (change ∷ chunk) e = elim (Bool-cases (change.row.numero == numero)) [
      | inl same ↦ absurd (cc (rw same at e))
      | inr other ↦ (other, concerns-Other chunk (rw other at e))
    ]
