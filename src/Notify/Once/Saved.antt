-- ===== src/Notify/Once/Saved.antt =====
-- A record is announced once, and stays unannounced until a message is accepted.
use panamacompra_collector_b.Prelude.{
  ◌≡◌, refl, inl, inr, Bool, true, false, ◌&&◌, Option, none, some, Bool-cases, Text, codes, truthy,
}
use panamacompra_collector_b.Archive.{Opportunity, Db, find_existing_opportunity}
use panamacompra_collector_b.Notify.{Desk, Node, allowed_match_line_for, waha_usable}
use panamacompra_collector_b.Notify.Deliver.{mark_row, mark_notified, export_record_calendar}
use panamacompra_collector_b.Notify.Record.{
  saved, Decision, ok, expired, too_far, deadline_decision, announced, if_sent, announce_matching,
  announce_by, announce_row, notify_saved_record,
}
use panamacompra_collector_b.Notify.Once.{
  HasMark, Set, Unset, find-update_opportunity, mark_detail_notified-HasMark,
  export_record_calendar-HasMark, send_text-HasMark,
}

-- Whatever mark the row had.
abbrev Whatever : Option Text → Type 0
Whatever mark = Unit

module _ (d : Desk) where
  -- A record that is marked as announced is left alone.
  notify_saved_record-marked :
      (numero : Text) (s : Node)
      → HasMark Set numero s.db
      → notify_saved_record d numero s ≡ (s, false)
  unfolding notify_saved_record announce_row
  notify_saved_record-marked numero s (row, e, marked) =
      elim (Bool-cases (waha_usable d && d.baseline)) [
        | inl usable ↦ rw (usable, e, marked) refl
        | inr unusable ↦ rw unusable refl
      ]

  mark_notified-Set :
      (numero : Text) (db : Db)
      → truthy (some d.now_str) ≡ true
      → HasMark Whatever numero db
      → HasMark Set numero (mark_notified d numero db)
  unfolding mark_notified
  mark_notified-Set numero db clock (row, e, h) =
      (mark_row d row, find-update_opportunity (mark_row d) (λ r. refl) numero db row e, clock)

  announced-Set :
      (row : Opportunity) (numero : Text) (s : Node)
      → truthy (some d.now_str) ≡ true
      → HasMark Whatever numero s.db
      → HasMark Set numero (announced d row numero s).db
  unfolding announced
  announced-Set row numero s clock h =
      let marked =
        mark_notified-Set numero (export_record_calendar d row s.db) clock
          (export_record_calendar-HasMark Whatever d row numero s.db h) in
      elim (Bool-cases (saved d row)) [
        | inl present ↦ rw present (mark_detail_notified-HasMark Set d numero numero _ marked)
        | inr pending ↦ rw pending marked
      ]

  if_sent-Set :
      (row : Opportunity) (numero : Text) (r : Node × Bool)
      → truthy (some d.now_str) ≡ true
      → HasMark Whatever numero (r.0).db
      → (if_sent d (announced d row numero) r).1 ≡ true
      → HasMark Set numero ((if_sent d (announced d row numero) r).0).db
  unfolding if_sent
  if_sent-Set row numero (s, true) clock h sent = announced-Set row numero s clock h
  if_sent-Set row numero (s, false) clock h sent = absurd (cc sent)

  announce_matching-Set :
      (row : Opportunity) (numero : Text) (line : Option Text) (s : Node)
      → truthy (some d.now_str) ≡ true
      → HasMark Whatever numero s.db
      → (announce_matching d row numero line s).1 ≡ true
      → HasMark Set numero ((announce_matching d row numero line s).0).db
  unfolding announce_matching
  announce_matching-Set row numero none s clock h sent = absurd (cc sent)
  announce_matching-Set row numero (some line) s clock h sent =
      if_sent-Set row numero _ clock (send_text-HasMark Whatever d _ _ _ _ numero s h) sent

  announce_by-Set :
      (row : Opportunity) (numero : Text) (decision : Decision) (s : Node)
      → truthy (some d.now_str) ≡ true
      → HasMark Whatever numero s.db
      → (announce_by d row numero decision s).1 ≡ true
      → HasMark Set numero ((announce_by d row numero decision s).0).db
  unfolding announce_by
  announce_by-Set row numero expired s clock h sent = absurd (cc sent)
  announce_by-Set row numero too_far s clock h sent = absurd (cc sent)
  announce_by-Set row numero ok s clock h sent =
      announce_matching-Set row numero (allowed_match_line_for d row (codes "index")) s clock h sent

  announce_row-Set :
      (numero : Text) (found : Option Opportunity) (s : Node)
      → find_existing_opportunity s.db numero ≡ found
      → truthy (some d.now_str) ≡ true
      → (announce_row d numero found s).1 ≡ true
      → HasMark Set numero ((announce_row d numero found s).0).db
  unfolding announce_row
  announce_row-Set numero none s e clock sent = absurd (cc sent)
  announce_row-Set numero (some row) s e clock sent = elim (Bool-cases (truthy row.notified_at)) [
    | inl marked ↦ absurd (cc (rw marked at sent))
    | inr fresh ↦ rw fresh (
        announce_by-Set row numero (deadline_decision d row) s clock (row, e, tt)
          (rw fresh at sent))
  ]

  notify_saved_record-Set :
      (numero : Text) (s : Node)
      → truthy (some d.now_str) ≡ true
      → (notify_saved_record d numero s).1 ≡ true
      → HasMark Set numero ((notify_saved_record d numero s).0).db
  unfolding notify_saved_record
  notify_saved_record-Set numero s clock sent = elim (Bool-cases (waha_usable d && d.baseline)) [
    | inl usable ↦ rw usable (
        announce_row-Set numero (find_existing_opportunity s.db numero) s refl clock
          (rw usable at sent))
    | inr unusable ↦ absurd (cc (rw unusable at sent))
  ]

  -- With a clock that writes a text that is not empty: after a call that reported that the record
  -- was announced, a further call for the same record sends nothing and changes nothing.
  pub notify_saved_record-once :
      (numero : Text) (s : Node)
      → truthy (some d.now_str) ≡ true
      → (notify_saved_record d numero s).1 ≡ true
      → notify_saved_record d numero ((notify_saved_record d numero s).0)
        ≡ ((notify_saved_record d numero s).0, false)
  notify_saved_record-once numero s clock sent =
      notify_saved_record-marked numero ((notify_saved_record d numero s).0)
        (notify_saved_record-Set numero s clock sent)

  if_sent-kept :
      (f : Node → Node) (numero : Text) (r : Node × Bool)
      → HasMark Unset numero (r.0).db
      → (if_sent d f r).1 ≡ false
      → HasMark Unset numero ((if_sent d f r).0).db
  unfolding if_sent
  if_sent-kept f numero (s, true) h unsent = absurd (cc unsent)
  if_sent-kept f numero (s, false) h unsent = h

  -- A message that was not accepted is not forgotten: an unannounced record whose deadline and filters allow its
  -- announcement, and whose announcement fails, is still unannounced afterwards.
  pub notify_saved_record-retried :
      (numero : Text) (s : Node) (row : Opportunity) (line : Text)
      → find_existing_opportunity s.db numero ≡ some row
      → truthy row.notified_at ≡ false
      → deadline_decision d row ≡ ok
      → allowed_match_line_for d row (codes "index") ≡ some line
      → (notify_saved_record d numero s).1 ≡ false
      → HasMark Unset numero ((notify_saved_record d numero s).0).db
  unfolding notify_saved_record announce_row announce_by announce_matching
  notify_saved_record-retried numero s row line e fresh due allowed unsent =
      elim (Bool-cases (waha_usable d && d.baseline)) [
        | inl usable ↦
            rw (usable, e, fresh, due, allowed)
              (if_sent-kept _ numero _ (send_text-HasMark Unset d _ _ _ _ numero s (row, e, fresh))
                (rw (usable, e, fresh, due, allowed) at unsent))
        | inr unusable ↦ rw unusable (row, e, fresh)
      ]
