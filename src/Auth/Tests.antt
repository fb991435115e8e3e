-- ===== src/Auth/Tests.antt =====
-- One admin's sessions, and the theorems at them.
use aegis_panel.Common.{
  String, String_discrete, get, put, remove, vals, ◌≡◌, ◌≢◌, refl, differ, true, false, some, [],
  ◌∷◌, is_text, arith,
}
use aegis_panel.Auth.Model.{User, invalid_token, ok, err}
use aegis_panel.Auth.Store.{
  RefreshEntry, MemoryStore, consume_refresh, consume_found, save_refresh, lookup_user, get_by_id,
  find_by_id,
}
use aegis_panel.Auth.Service.{
  Env, LoginResult, is_refresh_token, all_hex, login, refresh, refresh_consumed, refresh_user,
  issue_pair, issue,
}
use aegis_panel.Auth.Service.Spent.{MintsOther, done}
use aegis_panel.Auth.Service.Sessions.{refresh_once, reuse_revokes, login-refresh}

abbrev first : String
first = "0000000000000000000000000000000000000000000000000000000000000001"

abbrev second : String
second = "0000000000000000000000000000000000000000000000000000000000000002"

-- A call that mints `token`.
abbrev minting : String → Env
minting token = record {
  now = 1000;
  store_now = 1001;
  revoke_now = 1002;
  fresh_id = "id";
  access = λ u. some "jwt";
  token = some token;
  hash_token = λ t. t;
  hash_password = λ p. some p;
  password_matches = λ p hash. is_text p hash;
}

abbrev root : User
root = record {
  id = "u1";
  username = "root";
  email = "";
  password_hash = "secret";
  role = "super-admin";
  enabled = true;
  scopes = [];
  created_at = 1;
  updated_at = 1;
}

abbrev with_root : MemoryStore
with_root = record { users = ("root", root) ∷ []; emails = []; refresh = [] }

abbrev fresh_entry : RefreshEntry
fresh_entry = record { user_id = "u1"; expires_at = 5000; used = false }

abbrev used_entry : RefreshEntry
used_entry = record { user_id = "u1"; expires_at = 5000; used = true }

abbrev with_session : MemoryStore
with_session = record with_root { refresh = (first, fresh_entry) ∷ [] }

abbrev with_reuse : MemoryStore
with_reuse = record with_root { refresh = (first, used_entry) ∷ (second, fresh_entry) ∷ [] }

abbrev pair : LoginResult
pair = record {
  access_token = "jwt";
  refresh_token = second;
  expires_at = 900_000_001_000;
  user_id = "u1";
  scopes = [];
}

abbrev refreshed : MemoryStore
refreshed = record with_root {
  refresh =
      (second, record { user_id = "u1"; expires_at = 2_592_000_000_001_000; used = false })
      ∷ (first, used_entry)
      ∷ [];
}

refreshes_first : refresh (minting second) first with_session ≡ (ok pair, refreshed)
unfolding refresh refresh_consumed refresh_user issue_pair issue consume_refresh consume_found
    save_refresh get_by_id find_by_id vals is_refresh_token all_hex get put remove String_discrete
refreshes_first = refl

mints_other : MintsOther (minting second) first
mints_other token e h = differ second first refl (ground arith)

is_token : is_refresh_token first ≡ true
unfolding is_refresh_token all_hex
is_token = refl

refresh_once_example : (refresh (minting second) first refreshed).0 ≢ ok pair
refresh_once_example =
    refresh_once (minting second) (minting second) first with_session refreshed refreshed pair pair
      refl mints_other refreshes_first done

reuse_revokes_example :
    ((refresh (minting second) first with_reuse).0 ≡ err invalid_token)
    × ((consume_refresh second 1002 (refresh (minting second) first with_reuse).1).0
        ≡ err invalid_token)
unfolding get String_discrete
reuse_revokes_example =
    reuse_revokes (minting second) first second 1002 with_reuse used_entry fresh_entry is_token refl
      refl refl refl (omega arith)

login-refresh_example :
    (r : LoginResult) × ((refresh
        (minting second)
        first
        (login (minting first) "root" "secret" with_root).1).0
      ≡ ok r)
    × (r.user_id ≡ root.id)
    × (r.refresh_token ≡ second)
unfolding lookup_user get_by_id find_by_id vals get String_discrete
login-refresh_example =
    login-refresh (minting first) (minting second) "root" "secret" "jwt" first "jwt" second root
      with_root refl refl refl refl is_token refl refl (omega arith) refl refl
