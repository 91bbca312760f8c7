-- ===== src/Notify/Once.antt =====
-- The mark of the announcement through the operations of the notifier.
pub mod Saved
use panamacompra_collector_b.Prelude.{
  ◌-◌, ◌≡◌, refl, sym, ◌∙◌, inl, inr, Bool, true, false, not, ◌&&◌, Option, none, some, List, [],
  if◌then◌else◌, Bool-cases, Option-cases, Text, ◌==◌, ==_iff, truthy,
}
use mathlib.Core.Path.{subst}
use panamacompra_collector_b.Table
use panamacompra_collector_b.Archive.{
  Opportunity, Db, find_existing_opportunity, update_opportunity, opportunity_key,
}
use panamacompra_collector_b.Waha.Send.{Client}
use panamacompra_collector_b.Notify.{Desk, Node, Profile}
use panamacompra_collector_b.Notify.Deliver.{
  mark_detail_notified, export_record_calendar, record_send_outcome, settle_send, send_matching,
  send_text, Ended, ended, broken, send_all,
}

-- The record has a row, whose mark of the announcement has a property.
abbrev pub HasMark : (Option Text → Type 0) → Text → Db → Type 0
HasMark Q numero db =
    (row : Opportunity) × (find_existing_opportunity db numero ≡ some row) × Q row.notified_at

abbrev pub Set : Option Text → Type 0
Set mark = truthy mark ≡ true

abbrev pub Unset : Option Text → Type 0
Unset mark = truthy mark ≡ false

-- An update of a row that keeps its number is seen by the next query.
pub find-update_opportunity :
    (f : Opportunity → Opportunity)
    → ((r : Opportunity) → (f r).numero ≡ r.numero)
    → (numero : Text) (db : Db) (row : Opportunity) → find_existing_opportunity db numero ≡ some row
    → find_existing_opportunity (update_opportunity numero f db) numero ≡ some (f row)
unfolding find_existing_opportunity update_opportunity
find-update_opportunity f keeps numero db row e =
    Table.find-update_self opportunity_key f keeps numero db.opportunities ∙ rw e refl

module _ (Q : Option Text → Type 0) where
  if_either :
      (b : Bool) (r t : Node × Bool) (numero : Text)
      → HasMark Q numero (r.0).db
      → HasMark Q numero (t.0).db
      → HasMark Q numero ((if b then r else t).0).db
  if_either true r t numero h k = h
  if_either false r t numero h k = k

  pub update_opportunity-HasMark :
      (f : Opportunity → Opportunity)
      → ((r : Opportunity) → (f r).numero ≡ r.numero)
      → ((r : Opportunity) → (f r).notified_at ≡ r.notified_at)
      → (k numero : Text) (db : Db) → HasMark Q numero db
      → HasMark Q numero (update_opportunity k f db)
  unfolding find_existing_opportunity update_opportunity
  update_opportunity-HasMark f keeps fixes k numero db (row, e, q) =
      elim (Bool-cases (k == numero)) [
        | inl same ↦ (
          f row,
          Table.find-update opportunity_key f keeps k numero db.opportunities
              ∙ rw (same, (==_iff k numero).0 same, e) refl,
          subst Q (sym (fixes row)) q,
        )
        | inr other ↦ (
          row,
          Table.find-update opportunity_key f keeps k numero db.opportunities ∙ rw (other, e) refl,
          q,
        )
      ]

  pub record_send_outcome-HasMark :
      (k : Option Text) (error numero : Text) (db : Db)
      → HasMark Q numero db
      → HasMark Q numero (record_send_outcome k error db)
  unfolding record_send_outcome
  record_send_outcome-HasMark none error numero db h = h
  record_send_outcome-HasMark (some k) error numero db h =
      update_opportunity-HasMark _ (λ r. refl) (λ r. refl) k numero db h

  module _ (d : Desk) where
    pub mark_detail_notified-HasMark :
        (k numero : Text) (db : Db)
        → HasMark Q numero db
        → HasMark Q numero (mark_detail_notified d k db)
    unfolding mark_detail_notified
    mark_detail_notified-HasMark k numero db h =
        update_opportunity-HasMark _ (λ r. refl) (λ r. refl) k numero db h

    pub export_record_calendar-HasMark :
        (row : Opportunity) (numero : Text) (db : Db)
        → HasMark Q numero db
        → HasMark Q numero (export_record_calendar d row db)
    unfolding export_record_calendar
    export_record_calendar-HasMark row numero db h = elim (Option-cases (d.calendar_export row)) [
      | inl unwritten ↦ rw (unwritten, export_record_calendar) h
      | inr (path, written) ↦
          rw (written, export_record_calendar)
            (update_opportunity-HasMark _ (λ r. refl) (λ r. refl) row.numero numero db h)
    ]

    settle_send-HasMark :
        (text purpose : Text) (k : Option Text) (numero : Text) (s : Node) (r : Client × Ended)
        → HasMark Q numero s.db
        → HasMark Q numero ((settle_send d text purpose k s r).0).db
    unfolding settle_send
    settle_send-HasMark text purpose k numero s (c, ended false) h = h
    settle_send-HasMark text purpose k numero s (c, ended true) h =
        record_send_outcome-HasMark k [] numero s.db h
    settle_send-HasMark text purpose k numero s (c, broken error) h =
        record_send_outcome-HasMark k error numero s.db h

    send_matching-HasMark :
        (text purpose : Text) (k : Option Text) (b : Bool) (chat : Text) (ps : List Profile)
        (numero : Text) (s : Node)
        → HasMark Q numero s.db
        → HasMark Q numero ((send_matching d text purpose k b chat ps s).0).db
    unfolding send_matching
    send_matching-HasMark text purpose k b chat ps numero s h =
        if_either (not b && _) (s, false)
          (settle_send d text purpose k s (send_all d text purpose b chat ps s.client)) numero h
          (settle_send-HasMark text purpose k numero s _ h)

    -- Sending a message touches no mark of any record.
    pub send_text-HasMark :
        (text purpose event : Text) (k : Option Text) (numero : Text) (s : Node)
        → HasMark Q numero s.db
        → HasMark Q numero ((send_text d text purpose event k s).0).db
    unfolding send_text
    send_text-HasMark text purpose event k numero s h =
        if_either (d.record_events_respect_filter && not (d.enabled_for_event event)) _ _ numero h
          (send_matching-HasMark text purpose k _ _ _ numero (record s { last_send_error = [] }) h)
