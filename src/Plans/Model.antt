-- ===== src/Plans/Model.antt =====
-- backend/internal/plans/plan.go, and the errors of store.go and service.go.
-- Ids are numbers, 0 the zero UUID; times are numbers, 0 the zero time; a nil pointer is `none`;
-- a duration counts nanoseconds; a reset period is a Go string: any text.
use aegis_panel.Common.{Fallible}
pub use aegis_panel.Common.{ok, err, ◌>>=◌, ◌>>◌, fail_if, or_fail, >>=-eq-ok, >>-eq-ok}
use aegis_panel.Common.{
  ℕ, String, Bool, true, false, Option, none, some, List, [], ◌∷◌, not, ℤ, is_neg, is_above,
  if◌then◌else◌, is_text,
}

abbrev pub ResetPeriod : Type 0
ResetPeriod = String

abbrev pub reset_daily : ResetPeriod
reset_daily = "daily"

abbrev pub reset_weekly : ResetPeriod
reset_weekly = "weekly"

abbrev pub reset_monthly : ResetPeriod
reset_monthly = "monthly"

abbrev pub reset_never : ResetPeriod
reset_never = "never"

abbrev pub allowed_reset_periods : List ResetPeriod
allowed_reset_periods = reset_daily ∷ reset_weekly ∷ reset_monthly ∷ reset_never ∷ []

unfoldable pub among : ResetPeriod → List ResetPeriod → Bool
among r [] = false
among r (v ∷ vs) = let rest = among r vs in if is_text v r then true else rest

-- ResetPeriod.IsValid
unfoldable pub is_valid_reset : ResetPeriod → Bool
unfolding among
is_valid_reset r = among r allowed_reset_periods

pub record Plan : Type 0 where
  pub id : ℕ
  pub name : String
  pub traffic_limit_bytes : ℤ
  pub duration : ℤ
  pub device_limit : ℤ
  pub reset_period : ResetPeriod
  pub price_cents : ℤ
  pub created_at : ℕ
  pub updated_at : ℕ

unfoldable pub is_valid_plan : Option Plan → Bool
is_valid_plan none = false
is_valid_plan (some p) =
    if is_text p.name ""
    then false
    else if is_neg p.traffic_limit_bytes
    then false
    else if not (is_above p.duration 0)
    then false
    else if is_neg p.device_limit
    then false
    else if is_neg p.price_cents
    then false
    else if not (is_valid_reset p.reset_period)
    then false
    else true

-- What a duplicate collides with.
pub data Column : Type 0 where
  id_column name_column : Column

-- The input that a ValidationError names.
pub data Field : Type 0 where
  id_field name_field traffic_limit_field duration_field device_limit_field reset_period_field :
      Field
  price_field : Field

pub data Error : Type 0 where
  nil_plan zero_id invalid_plan not_found : Error
  duplicate : Column → Error
  invalid : Field → Error

abbrev pub Result {ℓ} : Type ℓ → Type ℓ
Result A = Fallible Error A
