-- ===== src/Auth/Store.antt =====
-- backend/internal/auth/users.go: the in-memory store. Its clock is the argument `now`. A user is
-- handed out as a value; on an error the store is unchanged, but where an operation says otherwise.
pub mod Tokens
use aegis_panel.Common.{
  ℕ, String, String_discrete, GoMap, get, put, remove, vals, Bool, true, false, ◌&&◌, ◌||◌, not,
  Option, none, some, List, [], ◌∷◌, ◌==◌, ltb, is_text, is_some, if◌then◌else◌,
}
use aegis_panel.Auth.Model.{
  User, Error, unauthorised, invalid_token, conflict, missing, Result, ok, err, ◌>>=◌, ◌>>◌,
  fail_if, or_fail,
}

pub record RefreshEntry : Type 0 where
  pub user_id : String
  pub expires_at : ℕ
  pub used : Bool

pub record MemoryStore : Type 0 where
  pub users : GoMap String User
  pub emails : GoMap String String
  pub refresh : GoMap String RefreshEntry

unfoldable pub new_memory_store : MemoryStore
new_memory_store = record { users = []; emails = []; refresh = [] }

abbrev pub or_time : ℕ → ℕ → ℕ
or_time other t = if t == 0 then other else t

-- Adds a user under its name, and its address unless that is empty.
unfoldable pub install : User → MemoryStore → MemoryStore
install u s = record s {
  users = put String_discrete u.username u s.users;
  emails =
      if not (is_text u.email "")
      then put String_discrete u.email u.username s.emails
      else s.emails;
}

unfoldable pub with_user : User → ℕ → MemoryStore → MemoryStore
unfolding install
with_user u now s =
    let created = or_time now u.created_at in
    install (record u { created_at = created; updated_at = or_time created u.updated_at }) s

-- `fresh_id` is taken if the user has none. A new user is enabled.
unfoldable pub create_user : User → String → ℕ → MemoryStore → Result (User × MemoryStore)
create_user u fresh_id now s = do
  fail_if (is_text u.username "") missing
  fail_if (is_text u.password_hash "") missing
  fail_if (is_some (get String_discrete u.username s.users)) conflict
  fail_if (not (is_text u.email "") && is_some (get String_discrete u.email s.emails)) conflict
  let created = or_time now u.created_at
  let row = record u {
    id = if is_text u.id "" then fresh_id else u.id;
    created_at = created;
    updated_at = created;
    enabled = true;
  }
  ok (row, install row s)

unfoldable pub find_by_id : String → List User → Option User
find_by_id id [] = none
find_by_id id (u ∷ us) = let rest = find_by_id id us in if is_text u.id id then some u else rest

unfoldable pub update_password : String → String → ℕ → MemoryStore → Result MemoryStore
unfolding find_by_id
update_password id hash now s = do
  fail_if (is_text hash "") missing
  u ← or_fail (find_by_id id (vals s.users)) unauthorised
  let row = record u { password_hash = hash; updated_at = now }
  ok (record s { users = put String_discrete u.username row s.users })

unfoldable pub lookup_user : String → MemoryStore → Result User
lookup_user name s = or_fail (get String_discrete name s.users) unauthorised

unfoldable pub get_by_id : String → MemoryStore → Result User
unfolding find_by_id
get_by_id id s = or_fail (find_by_id id (vals s.users)) unauthorised

unfoldable pub save_refresh : String → String → ℕ → MemoryStore → MemoryStore
save_refresh user_id hash expires_at s =
    let entry : RefreshEntry = record {
      user_id = user_id;
      expires_at = expires_at;
      used = false;
    } in
    record s { refresh = put String_discrete hash entry s.refresh }

-- Marks the token as used; an expired one is deleted.
unfoldable pub consume_found :
    String → ℕ → Option RefreshEntry → MemoryStore → Result String × MemoryStore
consume_found hash now none s = (err invalid_token, s)
consume_found hash now (some entry) s =
    if entry.used
    then (err invalid_token, s)
    else if ltb entry.expires_at now
    then (err invalid_token, record s { refresh = remove String_discrete hash s.refresh })
    else (
      ok entry.user_id,
      record s { refresh = put String_discrete hash (record entry { used = true }) s.refresh },
    )

unfoldable pub consume_refresh : String → ℕ → MemoryStore → Result String × MemoryStore
unfolding consume_found
consume_refresh hash now s = consume_found hash now (get String_discrete hash s.refresh) s

unfoldable pub revoke_entry : String → ℕ → RefreshEntry → RefreshEntry
revoke_entry user_id now entry =
    if not (is_text entry.user_id user_id)
    then entry
    else if entry.used
    then entry
    else if ltb entry.expires_at now
    then entry
    else record entry { used = true }

unfoldable pub revoke_entries : String → ℕ → GoMap String RefreshEntry → GoMap String RefreshEntry
unfolding revoke_entry
revoke_entries user_id now [] = []
revoke_entries user_id now ((hash, entry) ∷ m) =
    (hash, revoke_entry user_id now entry) ∷ revoke_entries user_id now m

unfoldable pub revoke_chain : String → ℕ → MemoryStore → MemoryStore
unfolding revoke_entries
revoke_chain user_id now s = record s { refresh = revoke_entries user_id now s.refresh }

unfoldable pub mark_used : String → Option RefreshEntry → MemoryStore → MemoryStore
mark_used hash none s = s
mark_used hash (some entry) s = record s {
  refresh = put String_discrete hash (record entry { used = true }) s.refresh;
}

unfoldable pub revoke_one : String → MemoryStore → MemoryStore
unfolding mark_used
revoke_one hash s = mark_used hash (get String_discrete hash s.refresh) s

unfoldable pub find_refresh_user : String → MemoryStore → Result String
find_refresh_user hash s = do
  entry ← or_fail (get String_discrete hash s.refresh) invalid_token
  ok entry.user_id
