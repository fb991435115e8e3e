-- ===== src/Users/Store/Indexes.antt =====
-- The four maps of the store agree, and every operation keeps them so.
use aegis_panel.Common.{
  ℕ, String, String_discrete, ℕ_discrete, get, remove, ◌≡◌, ◌≢◌, ◌⊎◌, subst, refl, Bool, true,
  false, not, Option, Option-cases, none, some, is_text, is_text_iff, inl, inr, arith, WellKeyed,
  IsIndex, key_unique, insert-IsIndex, replace-IsIndex, delete-IsIndex, put-WellKeyed,
  remove-WellKeyed,
}
use aegis_panel.Users.Model.{User, ok}
use aegis_panel.Users.Store.{
  MemoryStore, new_memory_store, install, uninstall, taken, create_row, create, update_row, update,
  delete,
}

abbrev pub every : String → Bool
every k = true

abbrev pub nonempty : String → Bool
nonempty k = not (is_text k "")

abbrev pub id_of : User → ℕ
id_of u = u.id

abbrev pub username_of : User → String
username_of u = u.username

abbrev pub token_of : User → String
token_of u = u.sub_token

abbrev pub prev_of : User → String
prev_of u = u.sub_token_prev

-- Each row lies under its own id, and each index holds just the rows, under their keys.
pub record Indexed (s : MemoryStore) : Type 0 where
  pub keyed : WellKeyed String_discrete id_of username_of every s.by_id
  pub users : IsIndex String_discrete id_of username_of every s.by_id s.by_user
  pub tokens : IsIndex String_discrete id_of token_of nonempty s.by_id s.by_token
  pub prevs : IsIndex String_discrete id_of prev_of nonempty s.by_id s.by_prev_token

pub new-Indexed : Indexed new_memory_store
unfolding new_memory_store get
new-Indexed = record {
  keyed = λ i r h. cc;
  users = record { rows_in = λ i r h t. cc; rows_of = λ k r h. cc };
  tokens = record { rows_in = λ i r h t. cc; rows_of = λ k r h. cc };
  prevs = record { rows_in = λ i r h t. cc; rows_of = λ k r h. cc };
}

-- What `create` has found free when it stores a row.
pub record Free (u : User) (s : MemoryStore) : Type 0 where
  id_free : get ℕ_discrete u.id s.by_id ≡ none
  name_free : get String_discrete u.username s.by_user ≡ none
  token_free : get String_discrete u.sub_token s.by_token ≡ none
  prev_free :
      is_text u.sub_token_prev "" ≡ false
      → get String_discrete u.sub_token_prev s.by_prev_token ≡ none

install_new-Indexed : (u : User) (s : MemoryStore) → Free u s → Indexed s → Indexed (install u s)
unfolding install
install_new-Indexed u s f v = record {
  keyed = put-WellKeyed String_discrete id_of username_of every u s.by_id v.keyed;
  users =
      insert-IsIndex String_discrete id_of username_of every s.by_id s.by_user v.users u v.keyed
        f.id_free (λ _. f.name_free);
  tokens =
      insert-IsIndex String_discrete id_of token_of nonempty s.by_id s.by_token v.tokens u v.keyed
        f.id_free (λ _. f.token_free);
  prevs =
      insert-IsIndex String_discrete id_of prev_of nonempty s.by_id s.by_prev_token v.prevs u
        v.keyed f.id_free (λ h. f.prev_free (ground arith));
}

-- A created row is the given one with its times, its keys were free, and it is installed.
pub create-installs :
    (u row : User) (now : ℕ) (s t : MemoryStore)
    → create_row u now s ≡ ok (row, t)
    → Free row s × (t ≡ install row s) × (row.id ≡ u.id)
unfolding create_row taken
create-installs u row now s t h = ground arith

-- `Create` keeps the four maps in agreement.
pub create-Indexed :
    (u : Option User) (row : User) (now : ℕ) (s t : MemoryStore)
    → create u now s ≡ ok (row, t)
    → Indexed s
    → Indexed t
unfolding create
create-Indexed none row now s t h v = cc
create-Indexed (some u) row now s t h v =
    let (free, e, _) = create-installs u row now s t h in rw e (install_new-Indexed row s free v)

-- What `update` has found when it replaces a row.
pub record Replaces (old u : User) (s : MemoryStore) : Type 0 where
  same_id : u.id ≡ old.id
  present : get ℕ_discrete old.id s.by_id ≡ some old
  name_free : old.username ≢ u.username → get String_discrete u.username s.by_user ≡ none
  token_free : old.sub_token ≢ u.sub_token → get String_discrete u.sub_token s.by_token ≡ none
  prev_free :
      old.sub_token_prev ≢ u.sub_token_prev
      → is_text u.sub_token_prev "" ≡ false
      → get String_discrete u.sub_token_prev s.by_prev_token ≡ none

install_over-Indexed :
    (old u : User) (s : MemoryStore)
    → Replaces old u s
    → Indexed s
    → Indexed (install u (uninstall old s))
unfolding install uninstall
install_over-Indexed old u s f v = record {
  keyed = put-WellKeyed String_discrete id_of username_of every u s.by_id v.keyed;
  users =
      replace-IsIndex String_discrete id_of username_of every s.by_id s.by_user v.users old v.keyed
        f.present u f.same_id (λ _. f.name_free);
  tokens =
      replace-IsIndex String_discrete id_of token_of nonempty s.by_id s.by_token v.tokens old
        v.keyed f.present u f.same_id (λ _. f.token_free);
  prevs =
      replace-IsIndex String_discrete id_of prev_of nonempty s.by_id s.by_prev_token v.prevs old
        v.keyed f.present u f.same_id (λ h n. f.prev_free n (ground arith));
}

pub update-installs :
    (u row : User) (now : ℕ) (s t : MemoryStore)
    → Indexed s
    → update_row u now s ≡ ok (row, t)
    → (old : User) × Replaces old row s × (t ≡ install row (uninstall old s))
unfolding update_row taken
update-installs u row now s t v h = elim (Option-cases (get ℕ_discrete u.id s.by_id)) [
  | inl e ↦ absurd (ground arith)
  | inr (old, e) ↦ (
    old,
    record {
      same_id = ground (arith, v.keyed u.id old e);
      present = ground (arith, v.keyed u.id old e);
      name_free = λ n. ground (arith, is_text_iff old.username u.username);
      token_free = λ n. ground (arith, is_text_iff old.sub_token u.sub_token);
      prev_free = λ n x. ground (arith, is_text_iff old.sub_token_prev u.sub_token_prev);
    },
    ground arith,
  )
]

-- `Update` keeps them in agreement, whichever of the three keys change.
pub update-Indexed :
    (u : Option User) (row : User) (now : ℕ) (s t : MemoryStore)
    → update u now s ≡ ok (row, t)
    → Indexed s
    → Indexed t
unfolding update
update-Indexed none row now s t h v = cc
update-Indexed (some u) row now s t h v =
    let (old, f, e) = update-installs u row now s t v h in rw e (install_over-Indexed old row s f v)

uninstall-Indexed :
    (old : User) (s : MemoryStore)
    → get ℕ_discrete old.id s.by_id ≡ some old
    → Indexed s
    → Indexed (record (uninstall old s) { by_id = remove ℕ_discrete old.id s.by_id })
unfolding uninstall
uninstall-Indexed old s at v = record {
  keyed = remove-WellKeyed String_discrete id_of username_of every old.id s.by_id v.keyed;
  users =
      delete-IsIndex String_discrete id_of username_of every s.by_id s.by_user v.users old v.keyed
        at;
  tokens =
      delete-IsIndex String_discrete id_of token_of nonempty s.by_id s.by_token v.tokens old v.keyed
        at;
  prevs =
      delete-IsIndex String_discrete id_of prev_of nonempty s.by_id s.by_prev_token v.prevs old
        v.keyed at;
}

-- So does `Delete`.
pub delete-Indexed : (id : ℕ) (s t : MemoryStore) → delete id s ≡ ok t → Indexed s → Indexed t
unfolding delete
delete-Indexed id s t h v = elim (Option-cases (get ℕ_discrete id s.by_id)) [
  | inl e ↦ absurd (ground arith)
  | inr (old, e) ↦
      let q : old.id ≡ id = v.keyed id old e in
      subst Indexed (ground arith) (uninstall-Indexed old s (ground arith) v)
]

-- The operations that write, as steps from one store to the next.
pub data Step (s t : MemoryStore) : Type 0 where
  creates : (u : Option User) (row : User) (now : ℕ) → create u now s ≡ ok (row, t) → Step s t
  updates : (u : Option User) (row : User) (now : ℕ) → update u now s ≡ ok (row, t) → Step s t
  deletes : (id : ℕ) → delete id s ≡ ok t → Step s t

pub data Reach : MemoryStore → Type 0 where
  start : Reach new_memory_store
  next : {s t : MemoryStore} → Reach s → Step s t → Reach t

Step-Indexed : {s t : MemoryStore} → Step s t → Indexed s → Indexed t
Step-Indexed {s} {t} (creates u row now h) v = create-Indexed u row now s t h v
Step-Indexed {s} {t} (updates u row now h) v = update-Indexed u row now s t h v
Step-Indexed {s} {t} (deletes id h) v = delete-Indexed id s t h v

-- In every store that creates, updates and deletes lead to, the id map and the three indexes hold
-- the same rows, each under its own keys.
pub Reach-Indexed : {s : MemoryStore} → Reach s → Indexed s
Reach-Indexed start = new-Indexed
Reach-Indexed (next r st) = Step-Indexed st (Reach-Indexed r)

-- Two users with one name, or with one subscription token, are one user, after any history.
pub names_unique :
    {s : MemoryStore} (i j : ℕ) (u w : User)
    → Reach s
    → get ℕ_discrete i s.by_id ≡ some u
    → get ℕ_discrete j s.by_id ≡ some w
    → (u.username ≡ w.username) ⊎ ((u.sub_token ≡ w.sub_token) × (is_text u.sub_token "" ≡ false))
    → i ≡ j
names_unique {s} i j u w r hu hw (inl e) =
    let v = Reach-Indexed r in
    key_unique String_discrete id_of username_of every s.by_id s.by_user v.users i j u w v.keyed hu
      hw e refl
names_unique {s} i j u w r hu hw (inr (e, x)) =
    let v = Reach-Indexed r in
    key_unique String_discrete id_of token_of nonempty s.by_id s.by_token v.tokens i j u w v.keyed
      hu hw e (ground arith)
