-- ===== src/Details/Folder.antt =====
-- The day folder and the finish stamp of a record agree with its calendar event.
use panamacompra_collector_b.Prelude.{
  ℕ, ◌+◌, ◌/◌, ◌%◌, ◌≤◌, ◌≡◌, refl, sym, ap, ◌∙◌, ◌≢◌, inl, inr, true, List, [], ◌∷◌, ◌++◌, arith,
  length, take, drop, All, Text, codes,
}
use mathlib.Core.Path.{subst}
use panamacompra_collector_b.Unicode.{Unicode}
use panamacompra_collector_b.Naming.{
  is_figure, build_record_folder_leaf, two_digits, date_folder_from_finish_stamp,
}
use panamacompra_collector_b.Details.Window.{iso_of, instant}
use panamacompra_collector_b.Details.Instants.{IsInstant}
use panamacompra_collector_b.Details.Close.{
  Window, stamp_of, resolve_close_datetimes, compute_finish_stamp,
}
use panamacompra_collector_b.Details.Resolved.{IsResolved, resolve_close_datetimes-IsResolved}
use panamacompra_collector_b.Details.Items.{PageTable}
use panamacompra_collector_b.Details.Event.{
  EventSettings, Views, NamedRow, NamingFields, build_calendar, build_detail_views, naming_fields,
  aggregate,
}
use panamacompra_collector_b.Details.Stamps.{HasFigures, two_digits_lem, figure_lem, day_of_stamp}

abbrev FollowsDay : Unicode → Text → Text → Text → Type 0
FollowsDay u numero desc dtend =
    date_folder_from_finish_stamp u (build_record_folder_leaf (stamp_of dtend) numero desc)
    ≡ drop 2 (take 10 dtend)

abbrev clocked : Text → ℕ → ℕ → ℕ → ℕ → Text
clocked year month day hh mm =
    instant (iso_of year month day) (two_digits hh ++ codes ":" ++ two_digits mm)

-- An instant, written out.
abbrev written : ℕ → ℕ → ℕ → ℕ → ℕ → ℕ → ℕ → ℕ → Text
written a b c d month day hh mm =
    a
    ∷ b
    ∷ c
    ∷ d
    ∷ b'-'
    ∷ (48 + month / 10)
    ∷ (48 + month % 10)
    ∷ b'-'
    ∷ (48 + day / 10)
    ∷ (48 + day % 10)
    ∷ b'T'
    ∷ (48 + hh / 10)
    ∷ (48 + hh % 10)
    ∷ b':'
    ∷ (48 + mm / 10)
    ∷ (48 + mm % 10)
    ∷ b':'
    ∷ b'0'
    ∷ b'0'
    ∷ []

clocked_lem :
    (a b c d month day hh mm : ℕ)
    → month ≤ 99
    → day ≤ 99
    → hh ≤ 99
    → mm ≤ 99
    → clocked (a ∷ b ∷ c ∷ d ∷ []) month day hh mm ≡ written a b c d month day hh mm
unfolding codes
clocked_lem a b c d month day hh mm lm ld lh ln =
    rw (two_digits_lem month lm, two_digits_lem day ld, two_digits_lem hh lh, two_digits_lem mm ln)
      refl

written-FollowsDay :
    (u : Unicode) (numero desc : Text) (a b c d month day hh mm : ℕ)
    → HasFigures u
    → All (λ x. is_figure x ≡ true) (a ∷ b ∷ c ∷ d ∷ [])
    → month ≤ 99
    → day ≤ 99
    → hh ≤ 99
    → mm ≤ 99
    → FollowsDay u numero desc (written a b c d month day hh mm)
unfolding codes
written-FollowsDay u numero desc a b c d month day hh mm figures h lm ld lh ln =
    let fm = figure_lem month lm in
    let fd = figure_lem day ld in
    let fh = figure_lem hh lh in
    let fn = figure_lem mm ln in
    day_of_stamp a b c d _ _ _ _ _ _ _ _ h.0 h.1.0 h.1.1.0 h.1.1.1.0 fm.0 fm.1 fd.0 fd.1 fh.0 fh.1
      fn.0 fn.1 u figures numero desc

clocked-FollowsDay :
    (u : Unicode) (numero desc year : Text) (month day hh mm : ℕ)
    → HasFigures u
    → length year ≡ 4
    → All (λ x. is_figure x ≡ true) (take 4 (clocked year month day hh mm))
    → month ≤ 99
    → day ≤ 99
    → hh ≤ 99
    → mm ≤ 99
    → FollowsDay u numero desc (clocked year month day hh mm)
clocked-FollowsDay u numero desc [] month day hh mm figures l h lm ld lh ln = absurd (omega arith)
clocked-FollowsDay u numero desc (a ∷ []) month day hh mm figures l h lm ld lh ln =
    absurd (omega arith)
clocked-FollowsDay u numero desc (a ∷ b ∷ []) month day hh mm figures l h lm ld lh ln =
    absurd (omega arith)
clocked-FollowsDay u numero desc (a ∷ b ∷ c ∷ []) month day hh mm figures l h lm ld lh ln =
    absurd (omega arith)
clocked-FollowsDay u numero desc (a ∷ b ∷ c ∷ d ∷ []) month day hh mm figures l h lm ld lh ln =
    subst (FollowsDay u numero desc) (sym (clocked_lem a b c d month day hh mm lm ld lh ln))
      (written-FollowsDay u numero desc a b c d month day hh mm figures h lm ld lh ln)
clocked-FollowsDay u numero desc (a ∷ b ∷ c ∷ d ∷ e ∷ year) month day hh mm figures l h lm ld lh
      ln =
    absurd (omega arith)

instant-FollowsDay :
    (u : Unicode) (numero desc dtend : Text)
    → HasFigures u
    → IsInstant u dtend
    → All (λ x. is_figure x ≡ true) (take 4 dtend)
    → FollowsDay u numero desc dtend
instant-FollowsDay u numero desc dtend figures
      (
        date,
        time,
        (year, month, day, four, decimals, lm, ld, is_date),
        (hh, mm, lh, ln, is_time),
        is_instant,
      )
      h =
    let whole : dtend ≡ clocked year month day hh mm =
      is_instant
      ∙ ap (λ t. instant t time) is_date
      ∙ ap (instant (iso_of year month day)) is_time in
    subst (FollowsDay u numero desc) (sym whole) (
      clocked-FollowsDay u numero desc year month day hh mm figures four
        (subst (λ t. All (λ x. is_figure x ≡ true) (take 4 t)) whole h) lm ld (omega arith)
        (omega arith))

resolved-FollowsDay :
    (u : Unicode) (numero desc : Text) (w : Window)
    → HasFigures u
    → IsResolved u w
    → w.dtend ≢ []
    → All (λ x. is_figure x ≡ true) (take 4 w.dtend)
    → FollowsDay u numero desc w.dtend
resolved-FollowsDay u numero desc w figures (inl (starts, ends)) closes h = absurd (closes ends)
resolved-FollowsDay u numero desc w figures (inr (starts, ends)) closes h =
    instant-FollowsDay u numero desc w.dtend figures ends h

-- The DTEND of the event among the detail views.
abbrev pub event_end : Unicode → EventSettings → List PageTable → Text → Text → Text → Text
event_end u settings tables text numero link =
    let views : Views = build_detail_views u settings text tables numero link in
    views.calendar.dtend

-- For one text and one list of tables, the folder name that is proposed and the calendar event of the
-- detail views agree: where the event has an end, with a year in ASCII figures, the finish stamp is
-- the date and the time of that end, and the day folder that is read back from the proposed leaf,
-- whatever the number and the description are, is the day of that end without its century. The
-- Unicode tables have the ASCII figures as decimal digits, no decimal digit over 9, and the
-- parenthesis as no digit.
pub naming_fields-build_detail_views :
    (u : Unicode) (slug_max : ℕ) (settings : EventSettings) (tables : List PageTable)
    (text numero link : Text) (row : NamedRow)
    → HasFigures u
    → event_end u settings tables text numero link ≢ []
    → All (λ x. is_figure x ≡ true) (take 4 (event_end u settings tables text numero link))
    → (let naming : NamingFields = naming_fields u slug_max tables text row in
        let end = event_end u settings tables text numero link in
        (naming.finish_stamp ≡ stamp_of end)
        × (date_folder_from_finish_stamp u naming.proposed_folder_name ≡ drop 2 (take 10 end)))
unfolding naming_fields build_detail_views build_calendar compute_finish_stamp
naming_fields-build_detail_views u slug_max settings tables text numero link row figures closes h =
    let window = resolve_close_datetimes u (aggregate tables []) text in
    (
      refl,
      resolved-FollowsDay u row.numero _ window figures
          (resolve_close_datetimes-IsResolved u (aggregate tables []) text figures.0) closes h,
    )
