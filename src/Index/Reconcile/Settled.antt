-- ===== src/Index/Reconcile/Settled.antt =====
-- The loop of `reconcile_legacy_status_history` as one pass over the table, and its idempotence.
use panamacompra_collector_b.Prelude.{
  ℕ, suc, ◌+◌, ◌≡◌, refl, sym, ap, ◌∙◌, inl, inr, Bool, true, false, not, ◌&&◌, List, [], ◌∷◌, ◌++◌,
  map, arith, if◌then◌else◌, Bool-cases, if-not, length, keep, ==_refl,
}
use mathlib.Core.List.{append_assoc, append-nil}
use panamacompra_collector_b.Table
use panamacompra_collector_b.Unicode.{Unicode}
use panamacompra_collector_b.Archive.{
  Opportunity, StatusEvent, Db, HasUniqueKeys, opportunity_key, update_opportunity,
}
use panamacompra_collector_b.Index.Reconcile.{
  is_candidate, has_flag, expected_code, settle_tracking, legacy_event, reconcile_one,
  reconcile_from, reconcile_legacy_status_history,
}

module _ (u : Unicode) where
  -- A candidate whose flag does not say what its state says.
  unfoldable pub is_stale : Opportunity → Bool
  is_stale r = is_candidate r && not (has_flag r.status_flag (expected_code u r))

  unfoldable pub settle : Opportunity → Opportunity
  settle r = if is_stale r then settle_tracking u r r else r

  -- The pass that the loop implements.
  unfoldable pub reconciled : Db → Db × ℕ
  reconciled db =
      let stale = keep is_stale db.opportunities in
      (
        record db {
          opportunities = map settle db.opportunities;
          history = db.history ++ map (legacy_event u) stale;
        },
        length stale,
      )

  pub key-settle : (r : Opportunity) → (settle r).numero ≡ r.numero
  unfolding settle settle_tracking
  key-settle r = ground arith

  -- The database after one stale candidate.
  abbrev settled_one : Opportunity → Db → Db
  settled_one r db = record (update_opportunity r.numero (settle_tracking u r) db) {
    history = db.history ++ legacy_event u r ∷ [];
  }

  reconcile_one-eq :
      (c : Opportunity) (db : Db) (n : ℕ)
      → reconcile_one u c (db, n) ≡ (
          if has_flag c.status_flag (expected_code u c) then (db, n) else (settled_one c db, n + 1))
  unfolding reconcile_one
  reconcile_one-eq c db n = refl

  reconcile_from-step :
      (r : Opportunity) (rest : List Opportunity) (db : Db) (n : ℕ)
      → reconcile_from u (keep is_candidate (r ∷ rest)) (db, n)
        ≡ reconcile_from u
            (keep is_candidate rest)
            (if is_stale r then (settled_one r db, n + 1) else (db, n))
  unfolding reconcile_from keep is_stale
  reconcile_from-step r rest db n = elim (Bool-cases (is_candidate r)) [
    | inl c ↦ rw c (
        ap (reconcile_from u (keep is_candidate rest))
          (reconcile_one-eq r db n ∙ if-not (has_flag r.status_flag (expected_code u r)) _ _))
    | inr c ↦ rw c refl
  ]

  -- The two ways in which the loop's accumulators are grouped.
  regroup :
      (r : Opportunity) (before after : List Opportunity) (db : Db) (events : List StatusEvent)
      (n k : ℕ)
      → ◌≡◌ {A = Db × ℕ}
          (
            record (settled_one r db) {
              opportunities = (before ++ settle r ∷ []) ++ after;
              history = (settled_one r db).history ++ events;
            },
            n + 1 + k,
          )
          (
            record db {
              opportunities = before ++ settle r ∷ after;
              history = db.history ++ legacy_event u r ∷ events;
            },
            n + suc k,
          )
  unfolding update_opportunity
  regroup r before after db events n k =
      rw
        (
          append_assoc before (settle r ∷ []) after,
          append_assoc db.history (legacy_event u r ∷ []) events,
        )
        (ap
          (λ (m : ℕ). (
            record db {
              opportunities = before ++ settle r ∷ after;
              history = db.history ++ legacy_event u r ∷ events;
            },
            m,
          ))
          (omega arith))

  opportunities-settled_one :
      (r : Opportunity) (before rest : List Opportunity) (db : Db)
      → db.opportunities ≡ before ++ r ∷ rest
      → HasUniqueKeys db
      → is_stale r ≡ true
      → (settled_one r db).opportunities ≡ before ++ settle r ∷ rest
  unfolding update_opportunity settle
  opportunities-settled_one r before rest db e unique stale =
      rw (e, stale)
        (Table.update-middle opportunity_key before (settle_tracking u r) r rest (rw e at unique))

  settled_one-HasUniqueKeys :
      (r : Opportunity) (db : Db) → HasUniqueKeys db → HasUniqueKeys (settled_one r db)
  unfolding update_opportunity settle_tracking
  settled_one-HasUniqueKeys r db unique =
      Table.update-Unique opportunity_key (settle_tracking u r) (λ x. refl) r.numero
        db.opportunities unique

  settle_fine : (r : Opportunity) → is_stale r ≡ false → settle r ≡ r
  unfolding settle
  settle_fine r fine = rw fine refl

  reconcile_from-eq :
      (rest before : List Opportunity) (db : Db) (n : ℕ)
      → db.opportunities ≡ before ++ rest
      → HasUniqueKeys db
      → reconcile_from u (keep is_candidate rest) (db, n) ≡ (
        record db {
          opportunities = before ++ map settle rest;
          history = db.history ++ map (legacy_event u) (keep is_stale rest);
        },
        n + length (keep is_stale rest),
      )
  unfolding reconcile_from keep
  reconcile_from-eq [] before db n e unique = ground (arith, append-nil db.history)
  reconcile_from-eq (r ∷ rest) before db n e unique =
      rw (reconcile_from-step r rest db n) (elim (Bool-cases (is_stale r)) [
        | inl stale ↦ rw stale (
            reconcile_from-eq rest (before ++ settle r ∷ []) (settled_one r db) (n + 1)
              (opportunities-settled_one r before rest db e unique stale
                ∙ sym (append_assoc before (settle r ∷ []) rest))
              (settled_one-HasUniqueKeys r db unique)
            ∙ regroup r before (map settle rest) db (map (legacy_event u) (keep is_stale rest)) n
                (length (keep is_stale rest)))
        | inr fine ↦ rw fine (
            reconcile_from-eq rest (before ++ r ∷ []) db n
              (e ∙ sym (append_assoc before (r ∷ []) rest)) unique
            ∙ ground (arith, append_assoc before (r ∷ []) (map settle rest), settle_fine r fine))
      ])

  pub reconcile_legacy_status_history-eq :
      (db : Db) → HasUniqueKeys db → reconcile_legacy_status_history u db ≡ reconciled db
  unfolding reconcile_legacy_status_history reconciled
  reconcile_legacy_status_history-eq db unique =
      reconcile_from-eq db.opportunities [] db 0 refl unique ∙ ground arith

  is_stale-settle : (r : Opportunity) → is_stale (settle r) ≡ false
  unfolding settle is_stale settle_tracking expected_code
  is_stale-settle r = elim (Bool-cases (is_stale r)) [
    | inl stale ↦ ground (arith, ==_refl (expected_code u r))
    | inr fine ↦ rw (settle_fine r fine) fine
  ]

  keep-settled : (t : List Opportunity) → keep is_stale (map settle t) ≡ []
  unfolding keep
  keep-settled [] = refl
  keep-settled (r ∷ t) = rw (is_stale-settle r) (keep-settled t)

  map-settled : (t : List Opportunity) → map settle (map settle t) ≡ map settle t
  map-settled [] = refl
  map-settled (r ∷ t) =
      rw (settle_fine (settle r) (is_stale-settle r)) (ap (λ x. settle r ∷ x) (map-settled t))

  -- Running the reconciliation again changes nothing and reports that it reconciled no record.
  pub reconcile_legacy_status_history_idem :
      (db : Db)
      → HasUniqueKeys db
      → reconcile_legacy_status_history u (reconcile_legacy_status_history u db).0
        ≡ ((reconcile_legacy_status_history u db).0, 0)
  unfolding reconciled
  reconcile_legacy_status_history_idem db unique =
      rw (reconcile_legacy_status_history-eq db unique) (
        rw
          (reconcile_legacy_status_history-eq (reconciled db).0
            (Table.map-Unique opportunity_key settle key-settle db.opportunities unique))
          (rw (map-settled db.opportunities, keep-settled db.opportunities, append-nil) refl))
