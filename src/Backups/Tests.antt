-- ===== src/Backups/Tests.antt =====
-- A nightly schedule, and the theorems at it.
use aegis_panel.Common.{
  ℕ, ◌≡◌, refl, true, false, some, List, [], ◌∷◌, codes, arith, sort_by, insert_by, is_space,
  String,
}
use aegis_panel.Backups.Cron.{
  Cron, Civil, contains, cut, keep, split, prepend, digits, unsigned, plain, atoi, in_bounds,
  ordered, range_of, parse_range, stepped, steps, is_star, add_number, collect_part, collect,
  sorted, positive, span, step_values, has_range, plain_field, after_slash, parse_cron_field,
  fields,
}
use aegis_panel.Backups.Cron.Daily.{star}
use aegis_panel.Backups.Scheduler.{Scheduler, Happening, tick, reload, run, truncate}
use aegis_panel.Backups.Scheduler.Fires.{Ascending, run-Ascending, ticks, Spaced, due, run-due}

abbrev text : String → List ℕ
text s = codes s

-- Every quarter from 10 to 45, and a list with a repeat.
quarters : parse_cron_field (text "10-45/15") 0 59 ≡ some (10 ∷ 25 ∷ 40 ∷ [])
unfolding parse_cron_field after_slash cut keep is_star span parse_range range_of atoi unsigned
    digits plain in_bounds ordered step_values steps stepped positive
quarters = refl

listed : parse_cron_field (text "30,5,30") 0 59 ≡ some (5 ∷ 30 ∷ [])
unfolding parse_cron_field after_slash cut keep is_star plain_field has_range sorted collect
    collect_part add_number contains split prepend atoi unsigned digits plain in_bounds sort_by
    insert_by
listed = refl

abbrev nightly : Cron
nightly = record {
  minute = 30 ∷ [];
  hour = 3 ∷ [];
  dom = steps 1 31 1;
  month = steps 1 12 1;
  dow = steps 0 6 1;
}

abbrev half : List ℕ
half = text "30"

abbrev three : List ℕ
three = text "3"

in_words : fields (text " 30 3  * * * ") ≡ half ∷ three ∷ star ∷ star ∷ star ∷ []
unfolding fields split prepend is_space
in_words = refl

abbrev moment : Civil
moment = record { minute = 30; hour = 3; month = 11; day = 26; weekday = 4 }

abbrev scheduler : Scheduler
scheduler = record { cron = nightly; last = 0 }

abbrev always : ℕ → Civil
always now = moment

abbrev happenings : List Happening
happenings =
    tick false 60_000_000_001
    ∷ reload nightly
    ∷ tick false 60_000_000_009
    ∷ tick true 180_000_000_000
    ∷ []

run-Ascending_example : Ascending 0 (run always happenings scheduler)
run-Ascending_example = run-Ascending always happenings scheduler

abbrev moments : List ℕ
moments = 60_000_000_001 ∷ 120_000_000_001 ∷ []

spaced : Spaced 0 moments
unfolding truncate
spaced = (omega arith, (omega arith, tt))

run-due_example : run always (ticks moments) scheduler ≡ due always nightly moments
run-due_example = run-due always moments scheduler spaced
