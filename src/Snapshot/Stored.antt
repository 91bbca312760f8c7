-- ===== src/Snapshot/Stored.antt =====
-- The import keeps the archive and accounts for every record of the snapshot.
use panamacompra_collector_b.Prelude.{
  ℕ, suc, ◌+◌, ◌≤◌, ◌≡◌, refl, sym, ap, ◌∙◌, inl, inr, Bool, true, false, ◌&&◌, some, List, [], ◌∷◌,
  arith, Bool-cases, length, All, Text, codes, ◌==◌, ==_refl, ==_iff, truthy, or_empty, member,
}
use mathlib.Core.Path.{subst}
use panamacompra_collector_b.Archive.{Opportunity, Db, find_existing_opportunity}
use panamacompra_collector_b.Index.{Outcome, new, existing, insert_or_update_index}
use panamacompra_collector_b.Index.Refresh.{seen_as, find-insert_or_update_index}
use panamacompra_collector_b.Index.Status.{IsKept, insert_or_update_index-IsKept}
use panamacompra_collector_b.Snapshot.{Scope, Entry}
use panamacompra_collector_b.Snapshot.Store.{
  Disk, Stats, row_of, counted, store, import_if, import_record, import_from, import_records,
}

-- Each record of one archive is in the other, with its origin, its detail download and its
-- notification columns.
abbrev pub Keeps : Db → Db → Type 0
Keeps db db' =
    (numero : Text) (r : Opportunity)
    → find_existing_opportunity db numero ≡ some r
    → (r' : Opportunity) × (find_existing_opportunity db' numero ≡ some r') × IsKept r r'

abbrev pub Holds : Db → Text → Type 0
Holds db numero = (r : Opportunity) × (find_existing_opportunity db numero ≡ some r)

-- A record with a number and a link is in the archive.
abbrev pub Stored : Db → Entry → Type 0
Stored db r = (truthy r.numero && truthy r.link) ≡ true → Holds db (or_empty r.numero)

Keeps-refl : (db : Db) → Keeps db db
Keeps-refl db numero r h = (r, h, record { origin = refl; detail = refl; notice = refl })

Keeps-trans : (a b c : Db) → Keeps a b → Keeps b c → Keeps a c
Keeps-trans a b c h k numero r e =
    let (r', e', kept) = h numero r e in
    let (r'', e'', kept') = k numero r' e' in
    (
      r'',
      e'',
      record {
        origin = kept'.origin ∙ kept.origin;
        detail = kept'.detail ∙ kept.detail;
        notice = kept'.notice ∙ kept.notice;
      },
    )

Keeps-Holds : (a b : Db) (numero : Text) → Keeps a b → Holds a numero → Holds b numero
Keeps-Holds a b numero h (r, e) = let (r', e', kept) = h numero r e in (r', e')

-- The counts of the import agree, and every number that was seen is in the archive.
abbrev pub Sound : Stats → Type 0
Sound s =
    (s.new_records + s.existing_records ≡ length s.seen)
    × ((numero : Text) → member numero s.seen ≡ true → Holds s.conn numero)

none_seen : (db : Db) (numero : Text) → member numero [] ≡ true → Holds db numero
unfolding member
none_seen db numero e = absurd (cc e)

-- What some records added.
abbrev Grows : ℕ → Stats → Stats → Type 0
Grows n s t =
    Keeps s.conn t.conn
    × (length t.seen + t.skipped_no_link ≤ n + (length s.seen + s.skipped_no_link))
    × Sound t

module _ (g : Scope) (disk : Disk) where
  counted_lem :
      (o : Outcome) (on_disk : Bool) (s : Stats)
      → ((counted g disk o on_disk s).conn ≡ s.conn)
        × ((counted g disk o on_disk s).seen ≡ s.seen)
        × ((counted g disk o on_disk s).skipped_no_link ≡ s.skipped_no_link)
        × ((counted g disk o on_disk s).new_records + (counted g disk o on_disk s).existing_records
            ≡ suc (s.new_records + s.existing_records))
  counted_lem new false s = (refl, refl, refl, omega arith)
  counted_lem new true s = (refl, refl, refl, omega arith)
  counted_lem existing b s = (refl, refl, refl, omega arith)

  store-conn :
      (r : Entry) (numero link : Text) (s : Stats)
      → (store g disk r numero link s).conn
        ≡ (insert_or_update_index g.unicode s.conn
            (row_of g disk r numero link (find_existing_opportunity s.conn numero))
            (codes "index")).1
  unfolding store
  store-conn r numero link s = (counted_lem _ _ _).0

  store-Keeps :
      (r : Entry) (numero link : Text) (s : Stats)
      → Keeps s.conn (store g disk r numero link s).conn
  store-Keeps r numero link s =
      subst (Keeps s.conn) (sym (store-conn r numero link s))
        (insert_or_update_index-IsKept g.unicode s.conn _ _)

  store-Holds :
      (r : Entry) (numero link : Text) (s : Stats)
      → Holds (store g disk r numero link s).conn numero
  unfolding row_of
  store-Holds r numero link s =
      let row = row_of g disk r numero link (find_existing_opportunity s.conn numero) in
      subst (λ db. Holds db numero) (sym (store-conn r numero link s))
        (
          seen_as g.unicode (find_existing_opportunity s.conn numero) row,
          find-insert_or_update_index g.unicode s.conn row (codes "index") numero
              ∙ rw (==_refl numero) refl,
        )

  store_counts :
      (r : Entry) (numero link : Text) (s : Stats)
      → ((store g disk r numero link s).seen ≡ s.seen)
        × ((store g disk r numero link s).skipped_no_link ≡ s.skipped_no_link)
        × ((store g disk r numero link s).new_records
              + (store g disk r numero link s).existing_records
            ≡ suc (s.new_records + s.existing_records))
  unfolding store
  store_counts r numero link s = let same = counted_lem _ _ _ in (same.1, same.2, same.3)

  seen-Holds :
      (r : Entry) (numero link : Text) (s : Stats) (k : Text)
      → ((k : Text) → member k s.seen ≡ true → Holds s.conn k)
      → member k (numero ∷ s.seen) ≡ true
      → Holds (store g disk r numero link (record s { seen = numero ∷ s.seen })).conn k
  unfolding member
  seen-Holds r numero link s k held e =
      let s' = record s { seen = numero ∷ s.seen } in
      let t = store g disk r numero link s' in
      elim (Bool-cases (numero == k)) [
        | inl at ↦ subst (Holds t.conn) ((==_iff numero k).0 at) (store-Holds r numero link s')
        | inr other ↦
            Keeps-Holds s.conn t.conn k (store-Keeps r numero link s') (held k (rw other at e))
      ]

  store-Grows :
      (r : Entry) (numero link : Text) (s : Stats)
      → Sound s
      → Grows 1 s (store g disk r numero link (record s { seen = numero ∷ s.seen }))
  store-Grows r numero link s sound =
      let s' = record s { seen = numero ∷ s.seen } in
      let t = store g disk r numero link s' in
      let same = store_counts r numero link s' in
      (
        store-Keeps r numero link s',
        rw (same.0, same.1) (omega arith),
        (
          same.2 ∙ ap suc sound.0 ∙ sym (ap length same.0),
          λ k e.
              seen-Holds r numero link s k sound.1 (subst (λ seen. member k seen ≡ true) same.0 e),
        ),
      )

  -- One record: what it adds, and that it is stored.
  import_if-Grows :
      (linked again : Bool) (r : Entry) (numero link : Text) (s : Stats)
      → Sound s
      → Grows 1 s (import_if g disk linked again r numero link s)
  import_if-Grows false again r numero link s sound = (Keeps-refl s.conn, omega arith, sound)
  import_if-Grows true true r numero link s sound = (Keeps-refl s.conn, omega arith, sound)
  import_if-Grows true false r numero link s sound = store-Grows r numero link s sound

  import_if-Holds :
      (again : Bool) (r : Entry) (numero link : Text) (s : Stats)
      → member numero s.seen ≡ again
      → Sound s
      → Holds (import_if g disk true again r numero link s).conn numero
  import_if-Holds true r numero link s e sound = sound.1 numero e
  import_if-Holds false r numero link s e sound =
      store-Holds r numero link (record s { seen = numero ∷ s.seen })

  import_record-Stored :
      (r : Entry) (s : Stats) → Sound s → Stored (import_record g disk r s).conn r
  unfolding import_record
  import_record-Stored r s sound linked =
      rw (linked, import_record)
        (import_if-Holds (member (or_empty r.numero) s.seen) r (or_empty r.numero) (or_empty r.link)
          s refl sound)

  import_record-Grows : (r : Entry) (s : Stats) → Sound s → Grows 1 s (import_record g disk r s)
  unfolding import_record
  import_record-Grows r s sound = import_if-Grows _ _ r _ _ s sound

  Stored-later : (a b : Db) (r : Entry) → Keeps a b → Stored a r → Stored b r
  Stored-later a b r h stored linked = Keeps-Holds a b (or_empty r.numero) h (stored linked)

  import_from-Grows :
      (entries : List Entry) (s : Stats)
      → Sound s
      → Grows (length entries) s (import_from g disk entries s)
        × All (Stored (import_from g disk entries s).conn) entries
  unfolding import_from
  import_from-Grows [] s sound = ((Keeps-refl s.conn, omega arith, sound), tt)
  import_from-Grows (r ∷ rest) s sound =
      let s' = import_record g disk r s in
      let one = import_record-Grows r s sound in
      let more = import_from-Grows rest s' one.2 in
      let later = more.0 in
      (
        (
          Keeps-trans s.conn s'.conn _ one.0 later.0,
          (let a = one.1 in let b = later.1 in omega (arith, a, b)),
          later.2,
        ),
        (Stored-later s'.conn _ r later.0 (import_record-Stored r s sound), more.1),
      )

  -- Whatever the records of a snapshot are, each one that has a number and a link is in the archive
  -- after the import, and no record of the archive is lost or loses its origin, its detail download
  -- or its notification columns. The counts agree: the new and the existing records together are
  -- the distinct numbers, and with the records that were skipped they are no more than the records.
  pub import_records-Stored :
      (entries : List Entry) (conn : Db)
      → Keeps conn (import_records g disk entries conn).conn
        × All (Stored (import_records g disk entries conn).conn) entries
        × ((import_records g disk entries conn).new_records
              + (import_records g disk entries conn).existing_records
            ≡ length (import_records g disk entries conn).seen)
        × (length (import_records g disk entries conn).seen
              + (import_records g disk entries conn).skipped_no_link
            ≤ length entries)
  unfolding import_records
  import_records-Stored entries conn =
      let s : Stats = record {
        conn = conn;
        seen = [];
        new_records = 0;
        existing_records = 0;
        skipped_no_link = 0;
      } in
      let (grows, stored) = import_from-Grows entries s (refl, none_seen conn) in
      (grows.0, stored, grows.2.0, (let a = grows.1 in omega (arith, a)))
