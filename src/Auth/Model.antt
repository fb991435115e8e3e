-- ===== src/Auth/Model.antt =====
-- backend/internal/auth: scopes.go, and the types of users.go. Ids and hashes are texts; times are
-- numbers, 0 the zero time. An error keeps its class.
use aegis_panel.Common.{
  ℕ, String, Bool, true, false, List, [], ◌∷◌, is_text, if◌then◌else◌, Fallible,
}
pub use aegis_panel.Common.{ok, err, ◌>>=◌, ◌>>◌, fail_if, or_fail, >>=-eq-ok, >>-eq-ok}

abbrev pub Scope : Type 0
Scope = String

-- Scopes.Has
unfoldable pub has : List Scope → Scope → Bool
has [] want = false
has (v ∷ vs) want = let rest = has vs want in if is_text v want then true else rest

unfoldable pub scopes_for_role : String → List Scope
scopes_for_role role =
    if is_text role "super-admin"
    then "admin" ∷ "read" ∷ "write" ∷ "nodes" ∷ "users" ∷ "subscriptions" ∷ "hosts" ∷ "plans"
      ∷ "webhooks" ∷ "audits" ∷ "credentials" ∷ "backups" ∷ []
    else if is_text role "operator"
    then "read" ∷ "write" ∷ "nodes" ∷ "users" ∷ "subscriptions" ∷ "hosts" ∷ "plans" ∷ "webhooks"
      ∷ "audits" ∷ "credentials" ∷ "backups" ∷ []
    else if is_text role "viewer"
    then "read" ∷ "plans" ∷ "webhooks" ∷ "audits" ∷ "credentials" ∷ []
    else "read" ∷ []

pub record User : Type 0 where
  pub id : String
  pub username : String
  pub email : String
  pub password_hash : String
  pub role : String
  pub enabled : Bool
  pub scopes : List Scope
  pub created_at : ℕ
  pub updated_at : ℕ

pub data Error : Type 0 where
  unauthorised invalid_token invalid_refresh_token conflict missing mint_failed : Error

abbrev pub Result {ℓ} : Type ℓ → Type ℓ
Result A = Fallible Error A
