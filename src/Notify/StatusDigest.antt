-- ===== src/Notify/StatusDigest.antt =====
-- The digests of status changes: `build_status_digest_messages`, `announce_open_now_digest` and
-- `announce_status_digest` of the notifier. The way in which a date is shown is a parameter.
pub mod Pending
pub mod Kept
mod Tests
use panamacompra_collector_b.Prelude.{
  not, ℤ, pos, negsuc, str, ℕ, zero, suc, ◌+◌, ◌-◌, ◌*◌, ◌/◌, Bool, true, false, ◌||◌, Option, none,
  some, List, [], ◌∷◌, ◌++◌, map, ltb, leb, if◌then◌else◌, length, take, any, Text, codes, ◌==◌,
  is_empty, truthy, member,
}
use panamacompra_collector_b.Archive.{Opportunity, Db}
use panamacompra_collector_b.Filter.{join}
use panamacompra_collector_b.Notify.{Desk, Node, Profile, clean_field, dash}
use panamacompra_collector_b.Notify.Deliver.{
  mark_snapshot, clear_status_change, export_record_calendar, record_send_outcome, send_text,
}
use panamacompra_collector_b.Notify.Digest.{chunks}

-- `status_digest_threshold`, of what `cfg_int` returns.
abbrev wants_status : Profile → Bool
wants_status profile =
    member (codes "status") profile.purposes || member (codes "open_now") profile.purposes

unfoldable pub status_digest_threshold : List Profile → Option ℤ → ℕ
status_digest_threshold profiles value =
    if any wants_status profiles
    then 0
    else elim value [ none ↦ 1 | some (pos n) ↦ n | some (negsuc n) ↦ 0 ]

-- The kind of a change, its row and the label of the message.
pub record Change : Type 0 where
  pub kind : Text
  pub row : Opportunity
  pub label : Text

unfoldable pub digest_trim : Option Text → ℕ → Text
digest_trim value limit =
    let text = clean_field value in
    if leb (length text) limit then text else take (limit - 1) text ++ codes "…"

-- `a or b` of two columns.
abbrev column_or : Option Text → Option Text → Option Text
column_or a b = if truthy a then a else b

abbrev link_lines : Text → List Text
link_lines link = if link == dash then [] else (codes "    🔗 " ++ link) ∷ []

-- A blank line before each record but the first.
abbrev gap : ℕ → List Text
gap zero = []
gap (suc offset) = [] ∷ []

module _ (fmt_dt : Option Text → Text) (now_str source_name : Text) where
  abbrev change_lines : ℕ → ℕ → Change → List Text
  change_lines offset position change =
      gap offset
      ++ ((str position
            ++ codes ". *"
            ++ clean_field (some change.row.numero)
            ++ codes "* — "
            ++ change.label)
          ∷ (codes "    🏛 "
              ++ digest_trim change.row.entidad 60
              ++ codes " · 📅 "
              ++ fmt_dt (column_or change.row.finish_date_guess change.row.fecha))
          ∷ link_lines (clean_field change.row.link))

  unfoldable pub chunk_lines : ℕ → ℕ → List Change → List Text
  chunk_lines before offset [] = []
  chunk_lines before offset (change ∷ chunk) =
      change_lines offset (before + suc offset) change ++ chunk_lines before (suc offset) chunk

  abbrev heading : Text → ℕ → ℕ → ℕ → Text
  heading prefix total part parts =
      prefix
      ++ codes " ("
      ++ str total
      ++ codes ") - "
      ++ source_name
      ++ codes "*"
      ++ (if ltb 1 parts then codes " — parte " ++ str part ++ codes "/" ++ str parts else [])

  abbrev digest_text : Text → ℕ → ℕ → ℕ → ℕ → List Change → Text
  digest_text prefix total parts size part chunk = join (b'\n' ∷ []) (
      (heading prefix total part parts ∷ [] ∷ chunk_lines ((part - 1) * size) 0 chunk)
      ++ [] ∷ (codes "🕒 " ++ fmt_dt (some now_str)) ∷ [])

  abbrev pub with_texts : Text → ℕ → ℕ → ℕ → ℕ → List (List Change) → List (List Change × Text)
  with_texts prefix total parts size part [] = []
  with_texts prefix total parts size part (chunk ∷ rest) =
      (chunk, digest_text prefix total parts size part chunk)
      ∷ with_texts prefix total parts size (suc part) rest

  unfoldable pub build_status_digest_messages : ℕ → Text → List Change → List (List Change × Text)
  build_status_digest_messages size prefix entries =
      let parts = chunks (length entries) size entries in
      with_texts prefix (length entries) (length parts) size 1 parts

-- `_last_send_error or "…"`
abbrev error_or : Text → Text → Text
error_or [] default = default
error_or (c ∷ error) default = c ∷ error

unfoldable pub failed_changes : Text → List Change → Db → Db
failed_changes error [] db = db
failed_changes error (change ∷ chunk) db =
    failed_changes error chunk (record_send_outcome (some change.row.numero) error db)

-- The statement of the loop over the records at which an exception ends the marking of one of them.
-- `export_record_calendar` catches its own exceptions.
pub data Step : Type 0 where
  at_outcome at_snapshot at_clear : Step

-- What follows an accepted message, for one record of its chunk: the archive, and whether
-- `announced += 1` is reached. `clears` says of a record whether its pending change is over, and
-- `breaks` at which statement an exception ends its marks, if one does.
abbrev pub mark_change : Desk → Bool → Option Step → Change → Db → Db × Bool
mark_change d clears (some at_outcome) change db = (db, false)
mark_change d clears (some at_snapshot) change db = (
  export_record_calendar d change.row (record_send_outcome (some change.row.numero) [] db),
  false,
)
mark_change d clears (some at_clear) change db = (
  mark_snapshot d change.row.numero
      (export_record_calendar d change.row (record_send_outcome (some change.row.numero) [] db)),
  not clears,
)
mark_change d true none change db = (
  clear_status_change change.row.numero (
      mark_snapshot d change.row.numero
        (export_record_calendar d change.row (record_send_outcome (some change.row.numero) [] db))),
  true,
)
mark_change d false none change db = (
  mark_snapshot d change.row.numero
      (export_record_calendar d change.row (record_send_outcome (some change.row.numero) [] db)),
  true,
)

unfoldable pub accepted_change :
    Desk → (Text → Bool) → (Text → Option Step) → Change → Db → Db × Bool
accepted_change d clears breaks change db =
    mark_change d (clears change.row.numero) (breaks change.row.numero) change db

abbrev pub one_more : Db × ℕ → Bool → Db × ℕ
one_more (db, announced) done = (db, if done then suc announced else announced)

-- The archive, and the number of the records whose marks were all made.
unfoldable pub accepted_changes :
    Desk → (Text → Bool) → (Text → Option Step) → List Change → Db → Db × ℕ
accepted_changes d clears breaks [] db = (db, 0)
accepted_changes d clears breaks (change ∷ chunk) db =
    let (db', done) = accepted_change d clears breaks change db in
    one_more (accepted_changes d clears breaks chunk db') done

abbrev pub counted : ℕ → Node × ℕ × ℕ → Node × ℕ × ℕ
counted n (s, messages, records) = (s, suc messages, n + records)

-- Messages sent and records announced. A message that fails ends the loop.
module _ (d : Desk) (purpose default : Text) (clears : Text → Bool)
    (breaks : Text → Option Step) where
  unfoldable pub after_send : List Change → (Node → Node × ℕ × ℕ) → Node × Bool → Node × ℕ × ℕ
  after_send chunk later (s, false) =
      (record s { db = failed_changes (error_or s.last_send_error default) chunk s.db }, 0, 0)
  after_send chunk later (s, true) =
      let (db, announced) = accepted_changes d clears breaks chunk s.db in
      counted announced (later (record s { db = db }))

  unfoldable pub send_changes : List (List Change × Text) → Node → Node × ℕ × ℕ
  send_changes [] s = (s, 0, 0)
  send_changes ((chunk, text) ∷ rest) s =
      after_send chunk (send_changes rest) (send_text d text purpose (codes "update") none s)

-- `kind_by_numero.get(numero)`: the last entry of a record counts.
unfoldable pub kind_of : Text → List Change → Text
kind_of numero [] = []
kind_of numero (change ∷ entries) =
    let later = kind_of numero entries in
    if is_empty later then (if change.row.numero == numero then change.kind else []) else later

module _ (d : Desk) (breaks : Text → Option Step) (fmt_dt : Option Text → Text)
    (source_name : Text) where
  abbrev opened : Opportunity → Change
  opened row = record { kind = []; row = row; label = codes "🟢 Ahora Abierta" }

  unfoldable pub announce_open_now_digest : ℕ → List Opportunity → Node → Node × ℕ × ℕ
  announce_open_now_digest size rows =
      send_changes d (codes "open_now") (codes "open_now digest send failed") (λ numero. true)
        breaks
        (build_status_digest_messages fmt_dt d.now_str source_name size
          (codes "🟢 *Oportunidades Abiertas Ahora") (map opened rows))

  unfoldable pub announce_status_digest : ℕ → List Change → Node → Node × ℕ × ℕ
  announce_status_digest size entries =
      send_changes d (codes "status") (codes "status digest send failed")
        (λ numero. kind_of numero entries == codes "update") breaks
        (build_status_digest_messages fmt_dt d.now_str source_name size
          (codes "🟡 *Actualizaciones de Oportunidades") entries)
