-- ===== src/Users/Store/Lookups.antt =====
-- What the lookups find, said of the table of rows by id alone.
use aegis_panel.Common.{
  ℕ, ◌≤◌, String, String_discrete, ℕ_discrete, get, get-put, get-remove, ◌≡◌, ◌≢◌, Bool, Bool-cases,
  true, Option, Option-cases, none, some, is_text, is_text_iff, inl, inr, arith, ite,
}
use aegis_panel.Users.Model.{User, is_valid_user, ok}
use aegis_panel.Users.Store.Indexes.{Indexed, create-installs, update-installs}
use aegis_panel.Users.Store.{
  MemoryStore, install, uninstall, create_row, create, update_row, update, delete, get_by_sub_token,
  by_prev, honour_prev, current_or_prev,
}

-- A row of the table.
abbrev pub Row : MemoryStore → User → Type 0
Row s u = get ℕ_discrete u.id s.by_id ≡ some u

-- A token that still speaks for its user: the current one, or the previous one until it expires.
pub data Speaks (token : String) (use_prev : Bool) (now : ℕ) (u : User) : Type 0 where
  current : u.sub_token ≡ token → Speaks token use_prev now u
  previous :
      (expires : ℕ)
      → use_prev ≡ true
      → u.sub_token_prev ≡ token
      → u.sub_token_prev_expires_at ≡ some expires
      → now ≤ expires
      → Speaks token use_prev now u

honour_prev-ok :
    (now : ℕ) (o : Option User) (u : User)
    → honour_prev now o ≡ ok u
    → (expires : ℕ) × (o ≡ some u) × (u.sub_token_prev_expires_at ≡ some expires) × (now ≤ expires)
unfolding honour_prev
honour_prev-ok now none u h = cc
honour_prev-ok now (some w) u h = elim (Option-cases w.sub_token_prev_expires_at) [
  | inl e ↦ absurd (ground arith)
  | inr (expires, e) ↦ (expires, ground arith, ground arith, ground arith)
]

by_prev-found :
    (token : String) (use_prev : Bool) (now : ℕ) (s : MemoryStore) (u : User) (expires : ℕ)
    → use_prev ≡ true
    → get String_discrete token s.by_prev_token ≡ some u
    → u.sub_token_prev_expires_at ≡ some expires
    → now ≤ expires
    → by_prev token use_prev now s ≡ ok u
unfolding by_prev honour_prev
by_prev-found token use_prev now s u expires e stored at le = ground arith

by_prev-Speaks :
    (token : String) (use_prev : Bool) (now : ℕ) (s : MemoryStore) (u : User)
    → Indexed s
    → by_prev token use_prev now s ≡ ok u
    → Row s u × Speaks token use_prev now u
unfolding by_prev
by_prev-Speaks token use_prev now s u v h = elim (Bool-cases use_prev) [
  | inl e ↦
      let (expires, found, at, le) =
        honour_prev-ok now (get String_discrete token s.by_prev_token) u (ground arith) in
      let (same, _, row) = v.prevs.rows_of token u found in (row, previous expires e same at le)
  | inr e ↦ absurd (ground arith)
]

current_or_prev-Speaks :
    (token : String) (use_prev : Bool) (now : ℕ) (s : MemoryStore) (u : User)
    → Indexed s
    → current_or_prev (get String_discrete token s.by_token) (by_prev token use_prev now s) ≡ ok u
    → Row s u × Speaks token use_prev now u
unfolding current_or_prev
current_or_prev-Speaks token use_prev now s u v h =
    elim (Option-cases (get String_discrete token s.by_token)) [
      | inl e ↦ by_prev-Speaks token use_prev now s u v (ground arith)
      | inr (w, e) ↦
          let (same, _, row) = v.tokens.rows_of token u (ground arith) in (row, current same)
    ]

-- In a store whose maps agree, `GetBySubToken` answers with a row only for a token that speaks for
-- it, and never for the empty token.
pub get_by_sub_token-Speaks :
    (token : String) (use_prev : Bool) (now : ℕ) (s : MemoryStore) (u : User)
    → Indexed s
    → get_by_sub_token token use_prev now s ≡ ok u
    → (token ≢ "") × Row s u × Speaks token use_prev now u
unfolding get_by_sub_token
get_by_sub_token-Speaks token use_prev now s u v h = elim (Bool-cases (is_text token "")) [
  | inl e ↦ absurd (ground arith)
  | inr e ↦
      let (row, sp) = current_or_prev-Speaks token use_prev now s u v (ground arith) in
      (λ q. ground (arith, is_text_iff token ""), row, sp)
]

pub get_by_sub_token_complete :
    (token : String) (use_prev : Bool) (now : ℕ) (s : MemoryStore) (u : User)
    → Indexed s
    → token ≢ ""
    → Row s u
    → Speaks token use_prev now u
    → (u.sub_token ≢ token → (w : User) → Row s w → w.sub_token ≢ token)
    → get_by_sub_token token use_prev now s ≡ ok u
unfolding get_by_sub_token current_or_prev
get_by_sub_token_complete token use_prev now s u v named row (current same) alone =
    ground (arith, is_text_iff token "", is_text_iff u.sub_token "", v.tokens.rows_in u.id u row)
get_by_sub_token_complete token use_prev now s u v named row (previous expires e same at le) alone =
    elim (Option-cases (get String_discrete token s.by_token)) [
      | inl n ↦ ground (arith, is_text_iff token "", found)
      | inr (w, n) ↦
          let (mine, _, in_table) = v.tokens.rows_of token w n in
          elim (String_discrete u.sub_token token) [
            | yes p ↦ ground (
              arith,
              is_text_iff token "",
              is_text_iff u.sub_token "",
              v.tokens.rows_in u.id u row,
            )
            | no p ↦ absurd (alone p w in_table mine)
          ]
    ]
  where
    stored : get String_discrete token s.by_prev_token ≡ some u
    stored =
        ground
          (arith, is_text_iff token "", is_text_iff u.sub_token_prev "", v.prevs.rows_in u.id u row)

    found : by_prev token use_prev now s ≡ ok u
    found = by_prev-found token use_prev now s u expires e stored at le

-- What each operation does to the table: a create or an update writes the one row, a delete removes
-- it, and every other row is as it was.
pub create-table :
    (u row : User) (now : ℕ) (s t : MemoryStore)
    → create (some u) now s ≡ ok (row, t)
    → (j : ℕ)
    → get ℕ_discrete j t.by_id ≡ ite (ℕ_discrete u.id j) (some row) (get ℕ_discrete j s.by_id)
unfolding create install
create-table u row now s t h j =
    let (_, e, same) = create-installs u row now s t h in
    ground (arith, get-put ℕ_discrete row.id j row s.by_id)

pub update-table :
    (u row : User) (now : ℕ) (s t : MemoryStore)
    → Indexed s
    → update (some u) now s ≡ ok (row, t)
    → (j : ℕ)
    → get ℕ_discrete j t.by_id ≡ ite (ℕ_discrete row.id j) (some row) (get ℕ_discrete j s.by_id)
unfolding update install uninstall
update-table u row now s t v h j =
    let (old, f, e) = update-installs u row now s t v h in
    ground (arith, get-put ℕ_discrete row.id j row s.by_id)

pub delete-table :
    (id : ℕ) (s t : MemoryStore)
    → delete id s ≡ ok t
    → (j : ℕ) → get ℕ_discrete j t.by_id ≡ ite (ℕ_discrete id j) none (get ℕ_discrete j s.by_id)
unfolding delete
delete-table id s t h j = ground (arith, get-remove ℕ_discrete id j s.by_id)

-- The row that an update stores is the given one, but for its times.
pub update-row :
    (u row : User) (now : ℕ) (s t : MemoryStore)
    → update (some u) now s ≡ ok (row, t)
    → row ≡ record u { updated_at = now; created_at = row.created_at }
unfolding update update_row
update-row u row now s t h = elim (Option-cases (get ℕ_discrete u.id s.by_id)) [
  | inl e ↦ absurd (ground arith)
  | inr (old, e) ↦ ground arith
]

-- The row that a create stores is the given one, but for its times; it is valid and its id was free.
pub create-row :
    (u row : User) (now : ℕ) (s t : MemoryStore)
    → create (some u) now s ≡ ok (row, t)
    → (row ≡ record u { updated_at = now; created_at = row.created_at })
      × (is_valid_user (some u) ≡ true)
      × (get ℕ_discrete u.id s.by_id ≡ none)
unfolding create create_row
create-row u row now s t h = ground arith
