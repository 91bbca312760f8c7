-- ===== src/Index/Seen.antt =====
-- What a sighting leaves in the archive, column by column: `insert_or_update_index` against a
-- description that computes nothing.
use panamacompra_collector_b.Prelude.{
  sym, ◌∙◌, ◌⊎◌, or_empty, ==_iff, ==_refl, ◌≡◌, refl, inl, inr, Bool, true, false, Option, none,
  some, if◌then◌else◌, Bool-cases, Text, codes, ◌==◌, truthy,
}
use panamacompra_collector_b.Unicode.{Unicode}
use panamacompra_collector_b.Archive.{
  Listing, Opportunity, IndexRow, Db, find_existing_opportunity, no_tracking, no_notice, Tracking,
}
use panamacompra_collector_b.Index.{
  transitioned, track, refresh, change_code, new_opportunity, insert_or_update_index,
}
use panamacompra_collector_b.Index.Refresh.{seen_as, find-insert_or_update_index}

-- The tracking columns after a change of the group or the state to `code` at time `seen`: the flag
-- and its time are of this change, the closing time is there exactly for a closure, and the change
-- is left for the notifier where the record was announced.
pub record IsMoved (announced : Bool) (code seen : Text) (before after : Tracking) : Type 0 where
  pub flag : after.status_flag ≡ some code
  pub updated : after.status_updated_at ≡ some seen
  pub closed : after.closed_at ≡ (if code == codes "cerrada" then some seen else none)
  pub pending :
      after.pending_status_change ≡ (if announced then some code else before.pending_status_change)

-- The row of a NUMERO that is new.
pub record IsNew (row : IndexRow) (after : Opportunity) : Type 0 where
  pub listing : after.listing ≡ row.listing
  pub origin : after.origin ≡ row.origin
  pub tracking : after.tracking ≡ no_tracking
  pub notice : after.notice ≡ no_notice
  pub detail_status : after.detail_status ≡ row.detail_status
  pub date_guess : after.finish_date_guess ≡ row.finish_date_guess
  pub attempts : after.detail_attempts ≡ 0
  pub saved : after.detail_saved_at ≡ none

-- The group and the state are as they were, NULL being read as the empty text.
abbrev pub SameStatus : Listing → Listing → Type 0
SameStatus before after =
    (or_empty before.grupo ≡ or_empty after.grupo)
    × (or_empty before.estado ≡ or_empty after.estado)

SameStatus-cases :
    (before after : Listing)
    → ((transitioned before after ≡ false) × SameStatus before after)
      ⊎ ((transitioned before after ≡ true) × ¬ (SameStatus before after))
unfolding transitioned
SameStatus-cases before after =
    let groups = ==_iff (or_empty before.grupo) (or_empty after.grupo) in
    let states = ==_iff (or_empty before.estado) (or_empty after.estado) in
    elim (Bool-cases (or_empty before.grupo == or_empty after.grupo)) [
      | inr e ↦ inr (rw e refl, λ h. absurd (let p : true ≡ false = sym (groups.1 h.0) ∙ e in cc p))
      | inl e ↦ elim (Bool-cases (or_empty before.estado == or_empty after.estado)) [
        | inl f ↦ inl (rw (e, f) refl, (groups.0 e, states.0 f))
        | inr f ↦
            inr
              (rw (e, f) refl, λ h. absurd (let p : true ≡ false = sym (states.1 h.1) ∙ f in cc p))
      ]
    ]

module _ (u : Unicode) where
  -- The tracking columns after a sighting: left alone where the status is the same.
  abbrev pub TrackedAs : Opportunity → IndexRow → Opportunity → Type 0
  TrackedAs old row after =
      (SameStatus old.listing row.listing × (after.tracking ≡ old.tracking))
      ⊎ (¬ (SameStatus old.listing row.listing)
          × IsMoved (truthy old.notified_at) (change_code u old.listing row.listing) row.last_seen
              old.tracking after.tracking)

  -- The row of a NUMERO that was in the archive as `old`.
  pub record IsSeenAgain (old : Opportunity) (row : IndexRow) (after : Opportunity) : Type 0 where
    pub listing : after.listing ≡ row.listing
    pub origin : after.origin ≡ old.origin
    pub detail : after.detail ≡ old.detail
    pub notice : after.notice ≡ old.notice
    pub tracked : TrackedAs old row after

  abbrev pub IsSeen : Option Opportunity → IndexRow → Opportunity → Type 0
  IsSeen none row after = IsNew row after
  IsSeen (some old) row after = IsSeenAgain old row after

  track-IsMoved :
      (old : Opportunity) (row : IndexRow)
      → transitioned old.listing row.listing ≡ true
      → IsMoved
          (truthy old.notified_at)
          (change_code u old.listing row.listing)
          row.last_seen
          old.tracking
          (track u old row old.tracking)
  unfolding track
  track-IsMoved old row moved = rw moved (record {
    flag = refl;
    updated = refl;
    closed = refl;
    pending = elim (Bool-cases (truthy old.notified_at)) [
      | inl was ↦ rw was refl
      | inr never ↦ rw never refl
    ];
  })

  track-same :
      (old : Opportunity) (row : IndexRow)
      → transitioned old.listing row.listing ≡ false
      → track u old row old.tracking ≡ old.tracking
  unfolding track
  track-same old row same = rw same refl

  seen_as-IsSeen : (old : Option Opportunity) (row : IndexRow) → IsSeen old row (seen_as u old row)
  unfolding new_opportunity refresh
  seen_as-IsSeen none row = record {
    listing = refl;
    origin = refl;
    tracking = refl;
    notice = refl;
    detail_status = refl;
    date_guess = refl;
    attempts = refl;
    saved = refl;
  }
  seen_as-IsSeen (some old) row = record {
    listing = refl;
    origin = refl;
    detail = refl;
    notice = refl;
    tracked = elim (SameStatus-cases old.listing row.listing) [
      | inl (same, as_before) ↦ inl (as_before, track-same old row same)
      | inr (moved, other) ↦ inr (other, track-IsMoved old row moved)
    ];
  }

  -- After a sighting, the archive has a row for the NUMERO that was sighted, and every other
  -- NUMERO has the row that it had, or none. The row of a new NUMERO has the columns of the
  -- sighting and empty tracking and notice. A row that was there takes the listing of the sighting
  -- and keeps its other columns; when the group or the state has changed, NULL being read as the
  -- empty text, its flag is the code of the change, its flag time is that of the sighting, its
  -- closing time too if the code is "cerrada" and NULL otherwise, and the change becomes pending
  -- if the record was announced; when neither has changed, its tracking columns stay.
  pub insert_or_update_index-IsSeen :
      (db : Db) (row : IndexRow) (source numero : Text)
      → ((after : Opportunity) × (find_existing_opportunity
              (insert_or_update_index u db row source).1
              row.numero
            ≡ some after)
          × IsSeen (find_existing_opportunity db row.numero) row after)
        × ((row.numero ≡ numero)
            ⊎ (find_existing_opportunity (insert_or_update_index u db row source).1 numero
                ≡ find_existing_opportunity db numero))
  insert_or_update_index-IsSeen db row source numero = (
    (
      seen_as u (find_existing_opportunity db row.numero) row,
      rw (find-insert_or_update_index u db row source row.numero, ==_refl row.numero) refl,
      seen_as-IsSeen (find_existing_opportunity db row.numero) row,
    ),
    elim (Bool-cases (row.numero == numero)) [
      | inl same ↦ inl ((==_iff row.numero numero).0 same)
      | inr other ↦ inr (rw (find-insert_or_update_index u db row source numero, other) refl)
    ],
  )
