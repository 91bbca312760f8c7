-- ===== src/Index/Refresh.antt =====
-- `insert_or_update_index` as a map from NUMERO to archive rows: what a sighting changes in the
-- row of its NUMERO, and that it changes no other.
use panamacompra_collector_b.Prelude.{
  ◌≡◌, refl, inl, inr, Option, none, some, arith, if◌then◌else◌, Bool-cases, Option-cases, some_inj,
  Text, codes, ◌==◌, ==_iff,
}
use panamacompra_collector_b.Table
use mathlib.Core.Path.{subst}
use panamacompra_collector_b.Unicode.{Unicode}
use panamacompra_collector_b.Archive.{
  Opportunity, IndexRow, Db, find_existing_opportunity, HasUniqueKeys, opportunity_key, EveryRow,
}
use panamacompra_collector_b.Index.{
  get_or, status_code_aliases, transitioned, refresh, update_index, insert_index, new_opportunity,
  insert_or_update_index,
}

-- The alias table maps every code to itself.
get_or-aliases : (code : Text) → get_or status_code_aliases code code ≡ code
unfolding get_or
get_or-aliases code = ground (
  arith,
  ==_iff (codes "abierta") code,
  ==_iff (codes "cerrada") code,
  ==_iff (codes "cancelada") code,
  ==_iff (codes "programada") code,
  ==_iff (codes "desierta") code,
  ==_iff (codes "adjudicada") code,
)

module _ (u : Unicode) where
  -- The row that a sighting of `row` leaves under its NUMERO, given the row that was there.
  abbrev pub seen_as : Option Opportunity → IndexRow → Opportunity
  seen_as none row = new_opportunity row
  seen_as (some found) row = refresh u found row found

  pub opportunities-update_index :
      (db : Db) (found : Opportunity) (row : IndexRow) (source : Text)
      → (update_index u db found row source).opportunities
        ≡ Table.update opportunity_key row.numero (refresh u found row) db.opportunities
  unfolding update_index
  opportunities-update_index db found row source =
      elim (Bool-cases (transitioned found.listing row.listing)) [
        | inl e ↦ rw e refl
        | inr e ↦ rw e refl
      ]

  find-update_index :
      (db : Db) (found : Opportunity) (row : IndexRow) (source numero : Text)
      → find_existing_opportunity db row.numero ≡ some found
      → find_existing_opportunity (update_index u db found row source) numero ≡ (
          if row.numero == numero
          then some (refresh u found row found)
          else find_existing_opportunity db numero)
  unfolding find_existing_opportunity refresh
  find-update_index db found row source numero h =
      rw (opportunities-update_index db found row source) (
        rw
          (
            Table.find-update opportunity_key (refresh u found row) (λ r. refl) row.numero numero
                db.opportunities,
            h,
          )
          refl)

  find-insert_index :
      (db : Db) (row : IndexRow) (numero : Text)
      → find_existing_opportunity db row.numero ≡ none
      → find_existing_opportunity (insert_index db row) numero ≡ (
          if row.numero == numero
          then some (new_opportunity row)
          else find_existing_opportunity db numero)
  unfolding find_existing_opportunity insert_index
  find-insert_index db row numero h =
      Table.find-append_new opportunity_key numero db.opportunities (new_opportunity row) h

  module _ (db : Db) (row : IndexRow) (source : Text) where
    -- Looking a NUMERO up after a sighting: the sighted one has its new or refreshed row, and
    -- every other one has the row that it had.
    pub find-insert_or_update_index :
        (numero : Text)
        → find_existing_opportunity (insert_or_update_index u db row source).1 numero ≡ (
            if row.numero == numero
            then some (seen_as (find_existing_opportunity db row.numero) row)
            else find_existing_opportunity db numero)
    unfolding insert_or_update_index
    find-insert_or_update_index numero =
        elim (Option-cases (find_existing_opportunity db row.numero)) [
          | inl e ↦ rw (e, insert_or_update_index) (find-insert_index db row numero e)
          | inr (found, e) ↦
              rw (e, insert_or_update_index) (find-update_index db found row source numero e)
        ]

    -- A sighting keeps the primary key of `opportunities`.
    pub insert_or_update_index-HasUniqueKeys :
        HasUniqueKeys db → HasUniqueKeys (insert_or_update_index u db row source).1
    unfolding insert_or_update_index insert_index find_existing_opportunity refresh
    insert_or_update_index-HasUniqueKeys unique =
        elim (Option-cases (find_existing_opportunity db row.numero)) [
          | inl e ↦
              rw (e, insert_or_update_index)
                (Table.append-Unique opportunity_key db.opportunities (new_opportunity row) unique
                  e)
          | inr (found, e) ↦
              rw (e, insert_or_update_index)
                (rw (opportunities-update_index db found row source) (
                  Table.update-Unique opportunity_key (refresh u found row) (λ r. refl) row.numero
                    db.opportunities unique))
        ]

    -- A property of rows is kept by a sighting that gives it to the row of its NUMERO.
    pub insert_or_update_index-EveryRow :
        (P : Opportunity → Type 0)
        → P (new_opportunity row)
        → ((found : Opportunity) → P found → P (refresh u found row found))
        → EveryRow P db
        → EveryRow P (insert_or_update_index u db row source).1
    insert_or_update_index-EveryRow P fresh again every numero r e =
        elim (Bool-cases (row.numero == numero)) [
          | inl same ↦
              let e' = rw (find-insert_or_update_index numero, same) at e in
              elim (Option-cases (find_existing_opportunity db row.numero)) [
                | inl absent ↦ subst P (some_inj (rw absent at e')) fresh
                | inr (found, present) ↦
                    subst P (some_inj (rw present at e'))
                      (again found (every row.numero found present))
              ]
          | inr other ↦ every numero r (rw (find-insert_or_update_index numero, other) at e)
        ]
