-- ===== src/Index/History.antt =====
-- The audit trail `opportunity_status_history`: what a sighting appends, and that the trail of a
-- record always ends where the record stands.
use panamacompra_collector_b.Prelude.{
  ◌≡◌, refl, inl, inr, false, Option, none, some, List, [], ◌∷◌, ◌++◌, arith, if◌then◌else◌,
  Bool-cases, Option-cases, some_inj, Text, ◌==◌, ==_refl, ==_iff, or_empty, coalesce,
}
use mathlib.Core.List.{append-nil}
use panamacompra_collector_b.Unicode.{Unicode}
use panamacompra_collector_b.Archive.{
  Listing, Opportunity, StatusEvent, IndexRow, Db, find_existing_opportunity,
}
use panamacompra_collector_b.Index.{
  transitioned, refresh, new_opportunity, status_event, update_index, insert_index,
  insert_or_update_index,
}
use panamacompra_collector_b.Index.Refresh.{seen_as, find-insert_or_update_index}

-- The latest event of a NUMERO: SELECT … WHERE numero = ? ORDER BY id DESC LIMIT 1.
unfoldable pub last_event : Text → List StatusEvent → Option StatusEvent
last_event numero [] = none
last_event numero (e ∷ es) =
    coalesce (last_event numero es) (if e.numero == numero then some e else none)

pub last_event-append :
    (numero : Text) (es : List StatusEvent) (e : StatusEvent)
    → last_event numero (es ++ e ∷ [])
      ≡ (if e.numero == numero then some e else last_event numero es)
unfolding last_event
last_event-append numero [] e = ground arith
last_event-append numero (x ∷ es) e = ground (arith, last_event-append numero es e)

-- The event ends in the state of the row.
abbrev pub EndsAt : Listing → StatusEvent → Type 0
EndsAt l e = (or_empty e.new_grupo ≡ or_empty l.grupo) × (or_empty e.new_estado ≡ or_empty l.estado)

-- The trail agrees with the table: an event is of a record that is there, and the last event of
-- a record ends in its current group and state.
abbrev pub HasTrail : Db → Type 0
HasTrail db =
    (numero : Text) (e : StatusEvent)
    → last_event numero db.history ≡ some e
    → (r : Opportunity) × (find_existing_opportunity db numero ≡ some r) × EndsAt r.listing e

-- The events that a sighting appends, given the row that was there.
abbrev pub appended : Unicode → Option Opportunity → IndexRow → Text → List StatusEvent
appended u none row source = []
appended u (some found) row source =
    if transitioned found.listing row.listing then status_event u found row source ∷ [] else []

transitioned_same_state :
    (before after : Listing)
    → transitioned before after ≡ false
    → (or_empty before.grupo ≡ or_empty after.grupo)
      × (or_empty before.estado ≡ or_empty after.estado)
unfolding transitioned
transitioned_same_state before after h = ground (
  arith,
  ==_iff (or_empty before.grupo) (or_empty after.grupo),
  ==_iff (or_empty before.estado) (or_empty after.estado),
)

module _ (u : Unicode) (db : Db) (row : IndexRow) (source : Text) where
  history-update_index :
      (found : Opportunity)
      → (update_index u db found row source).history
        ≡ db.history ++ appended u (some found) row source
  unfolding update_index
  history-update_index found = elim (Bool-cases (transitioned found.listing row.listing)) [
    | inl e ↦ rw e refl
    | inr e ↦ rw (e, append-nil) refl
  ]

  -- A sighting appends exactly one event, from the state that the row had to the state seen, if
  -- the group or the state of a known record changed, and nothing otherwise. It rewrites no
  -- earlier event.
  pub history-insert_or_update_index :
      (insert_or_update_index u db row source).1.history
      ≡ db.history ++ appended u (find_existing_opportunity db row.numero) row source
  unfolding insert_or_update_index insert_index
  history-insert_or_update_index = elim (Option-cases (find_existing_opportunity db row.numero)) [
    | inl e ↦ rw (e, insert_or_update_index, append-nil) refl
    | inr (found, e) ↦ rw (e, insert_or_update_index) (history-update_index found)
  ]

  seen_as-trail :
      (o : Option Opportunity) (e : StatusEvent)
      → ((e : StatusEvent)
          → last_event row.numero db.history ≡ some e
          → (r : Opportunity) × (o ≡ some r) × EndsAt r.listing e)
      → last_event row.numero (db.history ++ appended u o row source) ≡ some e
      → EndsAt (seen_as u o row).listing e
  unfolding refresh new_opportunity status_event
  seen_as-trail none e trail h = let (r, absent, _) = trail e (rw append-nil at h) in cc absent
  seen_as-trail (some found) e trail h =
      elim (Bool-cases (transitioned found.listing row.listing)) [
        | inl moved ↦ ground (
          arith,
          last_event-append row.numero db.history (status_event u found row source),
          ==_refl row.numero,
        )
        | inr still ↦
            let (r, same, ends) = trail e (rw (still, append-nil) at h) in
            let state = transitioned_same_state found.listing row.listing still in
            (cc (some_inj same), cc (some_inj same))
      ]

  last_event-appended_ne :
      (o : Option Opportunity) (numero : Text)
      → (row.numero == numero) ≡ false
      → last_event numero (db.history ++ appended u o row source) ≡ last_event numero db.history
  unfolding status_event
  last_event-appended_ne none numero other = rw append-nil refl
  last_event-appended_ne (some found) numero other =
      elim (Bool-cases (transitioned found.listing row.listing)) [
        | inl moved ↦
            rw moved (
              ground (arith, last_event-append numero db.history (status_event u found row source)))
        | inr still ↦ rw (still, append-nil) refl
      ]

  -- A sighting keeps the trail in agreement with the table: each event is of a record that is
  -- there, and the last event of a record ends in the group and the state that the table has.
  pub insert_or_update_index-HasTrail :
      HasTrail db → HasTrail (insert_or_update_index u db row source).1
  insert_or_update_index-HasTrail trail numero e h =
      let seen = find_existing_opportunity db row.numero in
      let h' = rw history-insert_or_update_index at h in
      rw (find-insert_or_update_index u db row source numero)
        (elim (Bool-cases (row.numero == numero)) [
          | inl same ↦
              let at_row = (==_iff row.numero numero).0 same in
              rw same (
                seen_as u seen row,
                refl,
                seen_as-trail seen e (trail row.numero) (rw (← at_row) at h'),
              )
          | inr other ↦
              rw other (trail numero e (rw (last_event-appended_ne seen numero other) at h'))
        ])
