-- ===== src/Snapshot/Exit.antt =====
-- The outcome of one import: its exit code, its result file and the archive together.
use panamacompra_collector_b.Prelude.{
  ℕ, ◌+◌, ◌≡◌, refl, ap, ◌∙◌, ◌⊎◌, inl, inr, Bool, true, false, ◌&&◌, ◌||◌, List, [], ◌∷◌, ltb,
  Bool-cases, length, keep, any, All, Text, is_empty, or_empty,
}
use panamacompra_collector_b.Archive.{Db}
use panamacompra_collector_b.Snapshot.{Scope, Entry, Group}
use panamacompra_collector_b.Snapshot.Report.{Parsed, parse_snapshot}
use panamacompra_collector_b.Snapshot.Expected.{IsExpected, parse_snapshot-IsExpected}
use panamacompra_collector_b.Snapshot.Stored.{Keeps, Holds, Stored, import_records-Stored}
use panamacompra_collector_b.Snapshot.Store.{
  Disk, ResultEnv, unavailable, imported, partial, is_unhealthy, unhealthy, import_marked,
  import_records, write_result_env, main, status_of, code_of,
}

-- Every record of the report is in the archive, which lost nothing.
abbrev pub Taken : Parsed → Db → Db → Type 0
Taken parsed conn db = All (λ r. Holds db (or_empty r.numero)) parsed.entries × Keeps conn db

-- What the exit code, the result file and the archive say of a report.
abbrev pub Reports : Parsed → Db → Db × ResultEnv × ℕ → Type 0
Reports parsed conn (db, env, code) =
    ((code ≡ 4) × (env.status ≡ unavailable) × (db ≡ conn))
    ⊎ ((code ≡ 0)
        × (env.status ≡ imported)
        × (any is_unhealthy parsed.groups ≡ false)
        × (env.new_records + env.existing_records ≡ env.unique)
        × Taken parsed conn db)
    ⊎ ((code ≡ 3)
        × (env.status ≡ partial)
        × (any is_unhealthy parsed.groups ≡ true)
        × (env.new_records + env.existing_records ≡ env.unique)
        × Taken parsed conn db)

Holds-each :
    (g : Scope) (db : Db) (entries : List Entry)
    → All (IsExpected g) entries
    → All (Stored db) entries
    → All (λ r. Holds db (or_empty r.numero)) entries
Holds-each g db [] h stored = tt
Holds-each g db (r ∷ rest) h stored = (stored.0 h.0.0, Holds-each g db rest h.1 stored.1)

abbrev is_listed : List Text → Bool
is_listed [] = false
is_listed (name ∷ names) = true

any-unhealthy : (groups : List Group) → any is_unhealthy groups ≡ is_listed (unhealthy groups)
unfolding any keep
any-unhealthy [] = refl
any-unhealthy (info ∷ groups) = elim (Bool-cases info.healthy) [
  | inl e ↦ rw e (any-unhealthy groups)
  | inr e ↦ rw e refl
]

module _ (g : Scope) (disk : Disk) where
  stored :
      (text : Text) (conn : Db)
      → Taken
          (parse_snapshot g text)
          conn
          (import_records g disk (parse_snapshot g text).entries conn).conn
  stored text conn =
      let entries = (parse_snapshot g text).entries in
      let all = import_records-Stored g disk entries conn in
      (Holds-each g _ entries (parse_snapshot-IsExpected g text) all.1, all.0)

  Reports-names :
      (names : List Text) (parsed : Parsed) (conn db : Db) (added seen_before unique : ℕ)
      → unhealthy parsed.groups ≡ names
      → added + seen_before ≡ unique
      → Taken parsed conn db
      → Reports parsed conn (
        db,
        write_result_env (status_of names) parsed.groups added seen_before unique,
        code_of names,
      )
  unfolding write_result_env
  Reports-names [] parsed conn db a b c e counts taken =
      inr (inl (refl, refl, any-unhealthy parsed.groups ∙ ap is_listed e, counts, taken))
  Reports-names (name ∷ names) parsed conn db a b c e counts taken =
      inr (inr (refl, refl, any-unhealthy parsed.groups ∙ ap is_listed e, counts, taken))

  import_marked-Reports :
      (marked : Bool) (text : Text) (conn : Db)
      → Reports
          (parse_snapshot g text)
          conn
          (import_marked g disk marked (parse_snapshot g text) conn)
  unfolding write_result_env
  import_marked-Reports false text conn = inl (refl, refl, refl)
  import_marked-Reports true text conn =
      let stats = import_records g disk (parse_snapshot g text).entries conn in
      Reports-names (unhealthy (parse_snapshot g text).groups) (parse_snapshot g text) conn
        stats.conn stats.new_records stats.existing_records (length stats.seen) refl
        (import_records-Stored g disk (parse_snapshot g text).entries conn).2 (stored text conn)

  -- The exit code, the result file and the archive agree. With code 4 the snapshot was unavailable
  -- and the archive is untouched. Otherwise every record of the report is in the archive, which
  -- lost no record and none of their origin, detail and notification columns, and the new and the
  -- existing records are together the distinct ones: code 0 and "imported" mean that every group is
  -- healthy, code 3 and "partial" that some group is not.
  pub main-Reports :
      (text : Text) (age max_age : ℕ) (conn : Db)
      → Reports (parse_snapshot g text) conn (main g disk text age max_age conn)
  unfolding main write_result_env
  main-Reports text age max_age conn =
      elim (Bool-cases (is_empty text || ltb 0 max_age && ltb max_age age)) [
        | inl e ↦ rw (e, main) (inl (refl, refl, refl))
        | inr e ↦ rw (e, main) (import_marked-Reports _ text conn)
      ]
