-- ===== src/Users/Model.antt =====
-- backend/internal/users/user.go, and the errors of store.go.
-- Ids are numbers, 0 the zero UUID; times are numbers, 0 the zero time; a nil pointer is `none`.
-- Status is a Go string: any text.
use aegis_panel.Common.{Fallible}
pub use aegis_panel.Common.{ok, err, ◌>>=◌, ◌>>◌, fail_if, or_fail, >>=-eq-ok, >>-eq-ok}
use aegis_panel.Common.{
  ℕ, String, Bool, true, false, ◌||◌, Option, none, some, List, [], ◌∷◌, not, ℤ, is_neg,
  if◌then◌else◌, is_text,
}

abbrev pub Status : Type 0
Status = String

abbrev pub active : Status
active = "active"

abbrev pub grace : Status
grace = "grace"

abbrev pub disabled : Status
disabled = "disabled"

abbrev pub expired : Status
expired = "expired"

abbrev pub deleted : Status
deleted = "deleted"

abbrev pub allowed_statuses : List Status
allowed_statuses = active ∷ grace ∷ disabled ∷ expired ∷ deleted ∷ []

among : Status → List Status → Bool
among s [] = false
among s (v ∷ vs) = let rest = among s vs in if is_text v s then true else rest

-- Status.IsValid and Status.IsLive
unfoldable pub is_valid_status : Status → Bool
unfolding among
is_valid_status s = among s allowed_statuses

unfoldable pub is_live : Status → Bool
is_live s = is_text s active || is_text s grace

pub record User : Type 0 where
  pub id : ℕ
  pub external_id : String
  pub username : String
  pub status : Status
  pub plan_id : Option ℕ
  pub expire_at : Option ℕ
  pub traffic_limit_bytes : ℤ
  pub traffic_used_bytes : ℤ
  pub last_reset_at : Option ℕ
  pub device_limit : ℤ
  pub hosts_allowlist : List ℕ
  pub hosts_blocklist : List ℕ
  pub sub_token : String
  pub sub_token_rotated_at : Option ℕ
  pub sub_token_prev : String
  pub sub_token_prev_expires_at : Option ℕ
  pub telegram_id : Option ℤ
  pub email : String
  pub created_at : ℕ
  pub updated_at : ℕ

unfoldable pub is_valid_user : Option User → Bool
unfolding is_valid_status
is_valid_user none = false
is_valid_user (some u) =
    if is_text u.username ""
    then false
    else if not (is_valid_status u.status)
    then false
    else if is_neg u.traffic_limit_bytes
    then false
    else if is_neg u.traffic_used_bytes
    then false
    else if is_neg u.device_limit
    then false
    else true

-- The column that a duplicate stands in.
pub data Column : Type 0 where
  id_column username_column sub_token_column sub_token_prev_column : Column

-- The input that a ValidationError names.
pub data Field : Type 0 where
  id_field username_field sub_token_field status_field traffic_limit_field traffic_used_field :
      Field
  device_limit_field telegram_id_field email_field hosts_allowlist_field : Field
  hosts_blocklist_field : Field

pub data Error : Type 0 where
  nil_user zero_id invalid_user not_found mint_failed : Error
  duplicate : Column → Error
  invalid : Field → Error

abbrev pub Result {ℓ} : Type ℓ → Type ℓ
Result A = Fallible Error A
