-- ===== src/Backups/Cron/Daily.antt =====
-- Expressions that leave the day open.
use aegis_panel.Common.{ℕ, ◌≤◌, List, [], ◌∷◌}
use aegis_panel.Backups.Cron.{Cron, Civil}

-- A civil reading of a moment is in range.
pub record IsCivil (t : Civil) : Type 0 where
  pub month_low : 1 ≤ t.month
  pub month_high : t.month ≤ 12
  pub day_low : 1 ≤ t.day
  pub day_high : t.day ≤ 31
  pub weekday_high : t.weekday ≤ 6

abbrev pub star : List ℕ
star = b'*' ∷ []
