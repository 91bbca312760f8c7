-- ===== src/Cron/Tests.antt =====
-- The schedule tool on examples.
use panamacompra_collector_b.Prelude.{
  str, ℕ, ◌≡◌, refl, none, some, [], ◌∷◌, ◌++◌, keep, all, Text, codes, ◌==◌, strip, starts_with,
  contains,
}
use panamacompra_collector_b.Unicode.{ascii, digits_value, int}
use panamacompra_collector_b.Filter.{split_by, join}
use panamacompra_collector_b.Splits.{lines_from, splitlines}
use panamacompra_collector_b.Cron.{
  Paths, day_fields, is_day, custom_parts, day_field, parse_hm, not_after, expression_in,
  expression_for, build_expression, marker, current_crontab, others, cron_line, install, remove,
}
use panamacompra_collector_b.Cron.Window.{InWindow, build_expression-InWindow}
use panamacompra_collector_b.Cron.Lines.{OneLine-of}
use panamacompra_collector_b.Cron.Entry.{IsEntry, install-others}

program : Unit {0}
unfolding codes str ◌==◌ strip contains starts_with all keep split_by join lines_from splitlines
    digits_value int day_fields is_day custom_parts day_field parse_hm not_after expression_in
    expression_for build_expression marker current_crontab others cron_line install remove
program = tt

hourly :
    build_expression ascii (codes "weekdays") [] (codes "08:30") (codes "17:00") 120
    ≡ some (codes "30 8-17/2 * * 1-5")
unfolding program
hourly = refl

within_an_hour :
    build_expression ascii (codes "custom") (codes "1, 3") (codes "08:00") (codes "08:30") 10
    ≡ some (codes "*/10 8 * * 1,3")
unfolding program
within_an_hour = refl

overnight : build_expression ascii (codes "daily") [] (codes "22:00") (codes "06:00") 60 ≡ none
unfolding program
overnight = refl

build_expression-InWindow_example :
    (dow : Text) × (from : ℕ × ℕ) × (until : ℕ × ℕ) × (day_field ascii (codes "weekdays") []
      ≡ some dow)
    × (parse_hm ascii (codes "08:30") ≡ some from)
    × (parse_hm ascii (codes "17:00") ≡ some until)
    × InWindow dow from until 120 (codes "30 8-17/2 * * 1-5")
build_expression-InWindow_example =
    build_expression-InWindow ascii (codes "weekdays") [] (codes "08:30") (codes "17:00") 120
      (codes "30 8-17/2 * * 1-5") hourly

abbrev paths : Paths
paths = record { runner = codes "/app/run.sh"; log_file = codes "/app/cron.log" }

abbrev crontab : Text
crontab = codes "0 1 * * * backup\n\n*/5 * * * * old # PANAMACOMPRA-CRON-SCHEDULE\n0 2 * * * sync\n"

kept : others crontab ≡ codes "0 1 * * * backup" ∷ codes "0 2 * * * sync" ∷ []
unfolding program
kept = refl

installed : IsEntry (cron_line paths (codes "30 8 * * *"))
unfolding program
installed = (OneLine-of (cron_line paths (codes "30 8 * * *")) refl, refl)

install-others_example :
    (current_crontab (install paths (codes "30 8 * * *") crontab)
      ≡ others crontab ++ cron_line paths (codes "30 8 * * *") ∷ [])
    × (others (install paths (codes "30 8 * * *") crontab) ≡ others crontab)
    × (current_crontab (remove crontab) ≡ others crontab)
    × (current_crontab (remove (install paths (codes "30 8 * * *") crontab)) ≡ others crontab)
install-others_example = install-others paths (codes "30 8 * * *") crontab installed
