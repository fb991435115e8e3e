-- ===== src/Auth/Service.antt =====
-- backend/internal/auth/service.go. From outside a call takes the clocks, the random tokens, the
-- signer of JWTs, SHA-256 and argon2id.
pub mod Spent
pub mod Sessions
use Prim.Native.String.{len}
use aegis_panel.Common.{
  ℕ, ◌+◌, String, Bool, true, false, ◌&&◌, ◌||◌, not, Option, none, some, List, [], ◌∷◌, ◌==◌, leb,
  is_text, codes, if◌then◌else◌,
}
use aegis_panel.Auth.Model.{
  Scope, User, scopes_for_role, Error, unauthorised, invalid_refresh_token, missing, mint_failed,
  Result, ok, err, ◌>>=◌, ◌>>◌, fail_if, or_fail,
}
use aegis_panel.Auth.Store.{
  MemoryStore, create_user, update_password, lookup_user, get_by_id, save_refresh, consume_refresh,
  revoke_chain, revoke_one, find_refresh_user,
}

-- `access` is the signed token for a user, `token` the fresh refresh token; `none` where that fails.
pub record Env : Type 0 where
  pub now : ℕ
  pub store_now : ℕ
  pub revoke_now : ℕ
  pub fresh_id : String
  pub access : User → Option String
  pub token : Option String
  pub hash_token : String → String
  pub hash_password : String → Option String
  pub password_matches : String → String → Bool

pub record LoginResult : Type 0 where
  pub access_token : String
  pub refresh_token : String
  pub expires_at : ℕ
  pub user_id : String
  pub scopes : List Scope

-- 15 minutes and 30 days, in nanoseconds.
abbrev pub access_token_ttl : ℕ
access_token_ttl = 900_000_000_000

abbrev pub refresh_token_ttl : ℕ
refresh_token_ttl = 2_592_000_000_000_000

abbrev pub Issued : Type 0
Issued = Result LoginResult × MemoryStore

unfoldable pub issue : Env → User → Option String → Option String → MemoryStore → Issued
issue env u (some access) (some token) s = (
  ok (record {
    access_token = access;
    refresh_token = token;
    expires_at = env.now + access_token_ttl;
    user_id = u.id;
    scopes = u.scopes;
  }),
  save_refresh u.id (env.hash_token token) (env.now + refresh_token_ttl) s,
)
issue env u _ _ s = (err mint_failed, s)

unfoldable pub issue_pair : Env → User → MemoryStore → Issued
unfolding issue
issue_pair env u s = issue env u (env.access u) env.token s

unfoldable pub login_found : Env → String → Result User → MemoryStore → Issued
unfolding issue_pair
login_found env password (err e) s = (err unauthorised, s)
login_found env password (ok u) s =
    if not (env.password_matches password u.password_hash)
    then (err unauthorised, s)
    else issue_pair env u s

unfoldable pub login : Env → String → String → MemoryStore → Issued
unfolding login_found
login env username password s = login_found env password (lookup_user username s) s

unfoldable pub all_hex : List ℕ → Bool
all_hex [] = true
all_hex (r ∷ rs) = ((leb b'0' r && leb r b'9') || (leb b'a' r && leb r b'f')) && all_hex rs

unfoldable pub is_refresh_token : String → Bool
unfolding all_hex
is_refresh_token token = (len token == 64) && all_hex (codes token)

-- A token that is there but cannot be consumed was used before: its user's other tokens go.
unfoldable pub after_reuse : Env → Result String → MemoryStore → MemoryStore
after_reuse env (ok user_id) s = revoke_chain user_id env.revoke_now s
after_reuse env (err e) s = s

unfoldable pub refresh_user : Env → Result User → MemoryStore → Issued
unfolding issue_pair
refresh_user env (err e) s = (err e, s)
refresh_user env (ok u) s = issue_pair env u s

unfoldable pub refresh_consumed : Env → String → Result String × MemoryStore → Issued
unfolding after_reuse refresh_user
refresh_consumed env hash (err e, s) = (err e, after_reuse env (find_refresh_user hash s) s)
refresh_consumed env hash (ok user_id, s) = refresh_user env (get_by_id user_id s) s

unfoldable pub refresh : Env → String → MemoryStore → Issued
unfolding refresh_consumed
refresh env token s =
    if not (is_refresh_token token)
    then (err invalid_refresh_token, s)
    else refresh_consumed env (env.hash_token token)
        (consume_refresh (env.hash_token token) env.store_now s)

unfoldable pub revoke : Env → String → MemoryStore → MemoryStore
revoke env token s = if is_text token "" then s else revoke_one (env.hash_token token) s

pub record CreateAdminInput : Type 0 where
  pub username : String
  pub email : String
  pub plaintext : String
  pub role : String

abbrev role_or_operator : String → String
role_or_operator role = if is_text role "" then "operator" else role

abbrev new_admin : CreateAdminInput → String → User
new_admin i hash = record {
  id = "";
  username = i.username;
  email = i.email;
  password_hash = hash;
  role = role_or_operator i.role;
  enabled = true;
  scopes = scopes_for_role (role_or_operator i.role);
  created_at = 0;
  updated_at = 0;
}

unfoldable pub create_admin : Env → CreateAdminInput → MemoryStore → Result (User × MemoryStore)
create_admin env i s = do
  fail_if (is_text i.username "") missing
  fail_if (is_text i.email "") missing
  fail_if (is_text i.plaintext "") missing
  hash ← or_fail (env.hash_password i.plaintext) mint_failed
  create_user (new_admin i hash) env.fresh_id env.store_now s

unfoldable pub change_password : Env → String → String → MemoryStore → Result MemoryStore
change_password env user_id plaintext s = do
  fail_if (is_text plaintext "") missing
  hash ← or_fail (env.hash_password plaintext) mint_failed
  update_password user_id hash env.store_now s
