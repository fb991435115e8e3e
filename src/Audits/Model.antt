-- ===== src/Audits/Model.antt =====
-- backend/internal/audits/audit.go and the errors of store.go and service.go. `J` is the type of the
-- recorded states (Go's any); an id, the decimal text of a uint64, is that number.
use aegis_panel.Common.{ℕ, String, Option, ℤ, Fallible}
pub use aegis_panel.Common.{ok, err, ◌>>=◌, ◌>>◌, fail_if, >>-eq-ok}

pub record AuditEntry (J : Type 0) : Type 0 where
  pub id : ℕ
  pub actor_id : String
  pub actor_username : String
  pub action : String
  pub resource_type : String
  pub resource_id : String
  pub before : Option J
  pub after : Option J
  pub ip : String
  pub user_agent : String
  pub created_at : ℕ

pub record Entry (J : Type 0) : Type 0 where
  pub actor_id : String
  pub actor_username : String
  pub action : String
  pub resource_type : String
  pub resource_id : String
  pub before : Option J
  pub after : Option J
  pub ip : String
  pub user_agent : String
  pub created_at : ℕ

pub record ListFilter : Type 0 where
  pub actor_id : String
  pub action : String
  pub resource_type : String
  pub resource_id : String
  pub since : ℕ
  pub until : ℕ
  pub limit : ℤ

abbrev pub default_list_limit : ℕ
default_list_limit = 100

abbrev pub max_list_limit : ℕ
max_list_limit = 1000

pub data Error : Type 0 where
  action_required resource_type_required negative_limit not_found : Error

abbrev pub Result {ℓ} : Type ℓ → Type ℓ
Result A = Fallible Error A
