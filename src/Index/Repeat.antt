-- ===== src/Index/Repeat.antt =====
-- `insert_or_update_index` applied twice to one row: the deduplication on which the collectors
-- rely when they see a listing row again.
use panamacompra_collector_b.Prelude.{
  ◌≡◌, refl, ap, false, Option, none, some, arith, Text, ==_refl, or_empty,
}
use panamacompra_collector_b.Table
use panamacompra_collector_b.Unicode.{Unicode}
use panamacompra_collector_b.Archive.{
  Listing, Opportunity, IndexRow, Db, HasUniqueKeys, find_existing_opportunity, opportunity_key,
}
use panamacompra_collector_b.Index.{
  existing, transitioned, refresh, new_opportunity, update_index, insert_or_update_index,
}
use panamacompra_collector_b.Index.Refresh.{
  seen_as, find-insert_or_update_index, insert_or_update_index-HasUniqueKeys,
}

transitioned_refl : (l : Listing) → transitioned l l ≡ false
unfolding transitioned
transitioned_refl l = rw (==_refl (or_empty l.grupo), ==_refl (or_empty l.estado))

transitioned_same : (before after : Listing) → before ≡ after → transitioned before after ≡ false
transitioned_same before after h = rw h (transitioned_refl after)

module _ (u : Unicode) where
  listing-seen_as :
      (o : Option Opportunity) (row : IndexRow) → (seen_as u o row).listing ≡ row.listing
  unfolding refresh new_opportunity
  listing-seen_as none row = refl
  listing-seen_as (some found) row = refl

  -- A row whose listing is seen again as it is stays as it is.
  refresh_fixed :
      (r : Opportunity) (row : IndexRow) → r.listing ≡ row.listing → refresh u r row r ≡ r
  unfolding refresh
  refresh_fixed r row h = ground (arith, transitioned_refl row.listing)

  update_index_fixed :
      (db : Db) (r : Opportunity) (row : IndexRow) (source : Text)
      → HasUniqueKeys db
      → find_existing_opportunity db row.numero ≡ some r
      → r.listing ≡ row.listing
      → update_index u db r row source ≡ db
  unfolding update_index find_existing_opportunity
  update_index_fixed db r row source unique h same =
      rw (transitioned_same r.listing row.listing same) (λ i. record db {
        opportunities =
            Table.update_fixed opportunity_key row.numero (refresh u r row) db.opportunities r
              unique h (refresh_fixed r row same) i;
      })

  -- A row that is seen twice leaves the archive, its history and the CSV as the first sighting
  -- left them, whatever pipeline sees it the second time; and the second sighting reports it as
  -- existing.
  pub insert_or_update_index_idem :
      (db : Db) (row : IndexRow) (source again : Text)
      → HasUniqueKeys db
      → insert_or_update_index u (insert_or_update_index u db row source).1 row again
        ≡ (existing, (insert_or_update_index u db row source).1)
  unfolding insert_or_update_index
  insert_or_update_index_idem db row source again unique =
      let db' = (insert_or_update_index u db row source).1 in
      let r = seen_as u (find_existing_opportunity db row.numero) row in
      let found : find_existing_opportunity db' row.numero ≡ some r =
        rw (find-insert_or_update_index u db row source row.numero, ==_refl row.numero) refl in
      rw (found, insert_or_update_index)
        (ap (λ (d : Db). (existing, d))
          (update_index_fixed db' r row again
            (insert_or_update_index-HasUniqueKeys u db row source unique) found
            (listing-seen_as (find_existing_opportunity db row.numero) row)))
