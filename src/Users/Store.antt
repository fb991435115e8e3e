-- ===== src/Users/Store.antt =====
-- backend/internal/users/memory_store.go. A store's clock is the argument `now`; on an error the
-- store is unchanged. The four maps hold one pointer to a row that nothing writes to, so a row is a
-- value. The mutex makes each method one step.
pub mod Indexes
pub mod Lookups
mod Tests
use aegis_panel.Common.{
  ℕ, String, String_discrete, ℕ_discrete, GoMap, get, put, remove, Bool, true, false, ◌&&◌, ◌||◌,
  not, Option, none, some, List, [], ◌∷◌, map, ◌==◌, ltb, leb, is_text, is_some, if◌then◌else◌,
}
use aegis_panel.Users.Model.{
  User, Status, is_valid_user, Column, id_column, username_column, sub_token_column,
  sub_token_prev_column, Error, nil_user, zero_id, invalid_user, not_found, duplicate, Result, ok,
  err, ◌>>=◌, ◌>>◌, fail_if, or_fail,
}

pub record MemoryStore : Type 0 where
  pub by_id : GoMap ℕ User
  pub by_user : GoMap String User
  pub by_token : GoMap String User
  pub by_prev_token : GoMap String User

unfoldable pub new_memory_store : MemoryStore
new_memory_store = record { by_id = []; by_user = []; by_token = []; by_prev_token = [] }

-- The row under its id, its username, and its tokens unless they are empty.
unfoldable pub install : User → MemoryStore → MemoryStore
install u s = record {
  by_id = put ℕ_discrete u.id u s.by_id;
  by_user = put String_discrete u.username u s.by_user;
  by_token =
      if not (is_text u.sub_token "")
      then put String_discrete u.sub_token u s.by_token
      else s.by_token;
  by_prev_token =
      if not (is_text u.sub_token_prev "")
      then put String_discrete u.sub_token_prev u s.by_prev_token
      else s.by_prev_token;
}

unfoldable pub uninstall : User → MemoryStore → MemoryStore
uninstall u s = record s {
  by_user = remove String_discrete u.username s.by_user;
  by_token =
      if not (is_text u.sub_token "")
      then remove String_discrete u.sub_token s.by_token
      else s.by_token;
  by_prev_token =
      if not (is_text u.sub_token_prev "")
      then remove String_discrete u.sub_token_prev s.by_prev_token
      else s.by_prev_token;
}

-- Rows that a test seeds, without the checks of `create`.
unfoldable pub with_user : Option User → ℕ → MemoryStore → MemoryStore
with_user none now s = s
with_user (some u) now s =
    let created = if u.created_at == 0 then now else u.created_at in
    install
      (record u {
        created_at = created;
        updated_at = if u.updated_at == 0 then created else u.updated_at;
      })
      s

unfoldable pub taken : String → GoMap String User → Bool
taken k m = is_some (get String_discrete k m)

-- The row as it was stored, and the store.
unfoldable pub create_row : User → ℕ → MemoryStore → Result (User × MemoryStore)
create_row u now s = do
  fail_if (u.id == 0) zero_id
  fail_if (not (is_valid_user (some u))) invalid_user
  fail_if (is_some (get ℕ_discrete u.id s.by_id)) (duplicate id_column)
  fail_if (taken u.username s.by_user) (duplicate username_column)
  fail_if (taken u.sub_token s.by_token) (duplicate sub_token_column)
  fail_if (not (is_text u.sub_token_prev "") && taken u.sub_token_prev s.by_prev_token)
      (duplicate sub_token_prev_column)
  let row = record u {
    created_at = if u.created_at == 0 then now else u.created_at;
    updated_at = now;
  }
  ok (row, install row s)

unfoldable pub create : Option User → ℕ → MemoryStore → Result (User × MemoryStore)
create none now s = err nil_user
create (some u) now s = create_row u now s

unfoldable pub get_by_id : ℕ → MemoryStore → Result User
get_by_id id s = or_fail (get ℕ_discrete id s.by_id) not_found

unfoldable pub get_by_username : String → MemoryStore → Result User
get_by_username name s = or_fail (get String_discrete name s.by_user) not_found

-- A previous token counts until, and at, its expiry time.
unfoldable pub honour_prev : ℕ → Option User → Result User
honour_prev now none = err not_found
honour_prev now (some u) = elim u.sub_token_prev_expires_at [
  | none ↦ err not_found
  | some expires ↦ if ltb expires now then err not_found else ok u
]

unfoldable pub by_prev : String → Bool → ℕ → MemoryStore → Result User
by_prev token use_prev now s =
    if not use_prev
    then err not_found
    else honour_prev now (get String_discrete token s.by_prev_token)

unfoldable pub current_or_prev : Option User → Result User → Result User
current_or_prev (some u) other = ok u
current_or_prev none other = other

unfoldable pub get_by_sub_token : String → Bool → ℕ → MemoryStore → Result User
get_by_sub_token token use_prev now s =
    if is_text token ""
    then err not_found
    else current_or_prev (get String_discrete token s.by_token) (by_prev token use_prev now s)

unfoldable pub rows : GoMap ℕ User → List User
rows [] = []
rows ((_, u) ∷ m) = u ∷ rows m

-- sort.Slice by CreatedAt: an insertion sort, whose order of equal times is one that Go allows.
unfoldable pub insert_row : User → List User → List User
insert_row u [] = u ∷ []
insert_row u (v ∷ vs) =
    let rest = insert_row u vs in if leb u.created_at v.created_at then u ∷ v ∷ vs else v ∷ rest

unfoldable pub sort_rows : List User → List User
unfolding insert_row
sort_rows [] = []
sort_rows (u ∷ us) = insert_row u (sort_rows us)

unfoldable pub with_status : Status → List User → List User
with_status status [] = []
with_status status (u ∷ us) =
    let rest = with_status status us in if is_text u.status status then u ∷ rest else rest

unfoldable pub list : MemoryStore → List User
unfolding rows sort_rows
list s = sort_rows (rows s.by_id)

unfoldable pub list_by_status : Status → MemoryStore → List User
unfolding rows sort_rows with_status
list_by_status status s = sort_rows (with_status status (rows s.by_id))

unfoldable pub update_row : User → ℕ → MemoryStore → Result (User × MemoryStore)
update_row u now s = do
  fail_if (u.id == 0) zero_id
  fail_if (not (is_valid_user (some u))) invalid_user
  existing ← or_fail (get ℕ_discrete u.id s.by_id) not_found
  fail_if (not (is_text existing.username u.username) && taken u.username s.by_user)
      (duplicate username_column)
  fail_if (not (is_text existing.sub_token u.sub_token) && taken u.sub_token s.by_token)
      (duplicate sub_token_column)
  fail_if
      ((not (is_text existing.sub_token_prev u.sub_token_prev) && not (is_text u.sub_token_prev ""))
        && taken u.sub_token_prev s.by_prev_token)
      (duplicate sub_token_prev_column)
  let row = record u {
    updated_at = now;
    created_at = if u.created_at == 0 then existing.created_at else u.created_at;
  }
  ok (row, install row (uninstall existing s))

unfoldable pub update : Option User → ℕ → MemoryStore → Result (User × MemoryStore)
update none now s = err nil_user
update (some u) now s = update_row u now s

unfoldable pub delete : ℕ → MemoryStore → Result MemoryStore
delete id s = do
  u ← or_fail (get ℕ_discrete id s.by_id) not_found
  ok (record (uninstall u s) { by_id = remove ℕ_discrete id s.by_id })
