-- ===== src/Backups/Scheduler.antt =====
-- backend/internal/backups/schedule.go: the scheduler behind `Run` and `ReloadCron`. The ticker's
-- moments are numbers of nanoseconds since a whole minute; `civil` is what the time package reads in
-- one; a backup that fires is its minute.
pub mod Fires
use aegis_panel.Common.{
  ℕ, ◌-◌, ◌%◌, Bool, true, false, not, ◌||◌, Option, none, some, List, [], ◌∷◌, ◌++◌, ltb, leb,
  if◌then◌else◌,
}
use aegis_panel.Backups.Cron.{Cron, Civil, matches}

abbrev pub minute_ns : ℕ
minute_ns = 60_000_000_000

-- The schedule, and the minute that was looked at last.
pub record Scheduler : Type 0 where
  pub cron : Cron
  pub last : ℕ

-- now.Truncate(time.Minute)
unfoldable pub truncate : ℕ → ℕ
truncate now = now - now % minute_ns

-- `cancelled` is whether the context is done. The second part is the minute in which a backup fires.
unfoldable pub maybe_fire : (ℕ → Civil) → Bool → ℕ → Scheduler → Scheduler × List ℕ
unfolding truncate
maybe_fire civil cancelled now s =
    let minute = truncate now in
    if not (ltb s.last minute)
    then (s, [])
    else if not (matches s.cron (civil now))
    then (record s { last = minute }, [])
    else if cancelled
    then (record s { last = minute }, [])
    else (record s { last = minute }, minute ∷ [])

-- What happens to a scheduler: the ticker ticks, or an operator reloads the schedule.
pub data Happening : Type 0 where
  tick : (cancelled : Bool) (now : ℕ) → Happening
  reload : Cron → Happening

unfoldable pub happen : (ℕ → Civil) → Happening → Scheduler → Scheduler × List ℕ
unfolding maybe_fire
happen civil (tick cancelled now) s = maybe_fire civil cancelled now s
happen civil (reload c) s = (record s { cron = c }, [])

-- The minutes of the backups that fire, in order.
unfoldable pub run : (ℕ → Civil) → List Happening → Scheduler → List ℕ
unfolding happen
run civil [] s = []
run civil (h ∷ hs) s = let (t, fired) = happen civil h s in fired ++ run civil hs t
