-- ===== src/Plans/Store/Indexes.antt =====
-- The two maps of the plan store agree, and every operation keeps them so.
use aegis_panel.Common.{
  ℕ, String, String_discrete, ℕ_discrete, get, remove, ◌≡◌, ◌≢◌, subst, refl, Bool, true, Option,
  Option-cases, none, some, is_text_iff, inl, inr, arith, WellKeyed, IsIndex, key_unique,
  insert-IsIndex, replace-IsIndex, delete-IsIndex, put-WellKeyed, remove-WellKeyed,
}
use aegis_panel.Plans.Model.{Plan, is_valid_plan, ok}
use aegis_panel.Plans.Store.{
  MemoryStore, new_memory_store, install, taken, create_row, create, update_row, update, delete,
}

abbrev pub every : String → Bool
every k = true

abbrev pub id_of : Plan → ℕ
id_of p = p.id

abbrev pub name_of : Plan → String
name_of p = p.name

-- Each row lies under its own id, the name map holds just the rows, and each row is a valid plan.
pub record Indexed (s : MemoryStore) : Type 0 where
  pub keyed : WellKeyed String_discrete id_of name_of every s.by_id
  pub names : IsIndex String_discrete id_of name_of every s.by_id s.by_name

pub new-Indexed : Indexed new_memory_store
unfolding new_memory_store get
new-Indexed = record {
  keyed = λ i r h. cc;
  names = record { rows_in = λ i r h t. cc; rows_of = λ k r h. cc };
}

-- What `create` has found when it stores a row.
pub create-installs :
    (p row : Plan) (now : ℕ) (s t : MemoryStore)
    → create_row p now s ≡ ok (row, t)
    → (get ℕ_discrete row.id s.by_id ≡ none)
      × (get String_discrete row.name s.by_name ≡ none)
      × (t ≡ install row s)
      × (row.id ≡ p.id)
      × (is_valid_plan (some row) ≡ true)
unfolding create_row taken is_valid_plan
create-installs p row now s t h = ground arith

pub create-Indexed :
    (p : Option Plan) (row : Plan) (now : ℕ) (s t : MemoryStore)
    → create p now s ≡ ok (row, t)
    → Indexed s
    → Indexed t
unfolding create install
create-Indexed none row now s t h v = cc
create-Indexed (some p) row now s t h v =
    let (id_free, name_free, e, _, _) = create-installs p row now s t h in
    rw e (record {
      keyed = put-WellKeyed String_discrete id_of name_of every row s.by_id v.keyed;
      names =
          insert-IsIndex String_discrete id_of name_of every s.by_id s.by_name v.names row v.keyed
            id_free (λ _. name_free);
    })

-- What `update` has found when it replaces a row.
pub record Replaces (old p : Plan) (s : MemoryStore) : Type 0 where
  pub same_id : p.id ≡ old.id
  pub present : get ℕ_discrete old.id s.by_id ≡ some old
  pub name_free : old.name ≢ p.name → get String_discrete p.name s.by_name ≡ none

abbrev pub replaced : Plan → Plan → MemoryStore → MemoryStore
replaced old row s = install row (record s { by_name = remove String_discrete old.name s.by_name })

pub update-installs :
    (p row : Plan) (now : ℕ) (s t : MemoryStore)
    → Indexed s
    → update_row p now s ≡ ok (row, t)
    → (old : Plan) × Replaces old row s × (t ≡ replaced old row s)
unfolding update_row taken
update-installs p row now s t v h = elim (Option-cases (get ℕ_discrete p.id s.by_id)) [
  | inl e ↦ absurd (ground arith)
  | inr (old, e) ↦ (
    old,
    record {
      same_id = ground (arith, v.keyed p.id old e);
      present = ground (arith, v.keyed p.id old e);
      name_free = λ n. ground (arith, is_text_iff old.name p.name);
    },
    ground arith,
  )
]

pub update-Indexed :
    (p : Option Plan) (row : Plan) (now : ℕ) (s t : MemoryStore)
    → update p now s ≡ ok (row, t)
    → Indexed s
    → Indexed t
unfolding update install
update-Indexed none row now s t h v = cc
update-Indexed (some p) row now s t h v =
    let (old, f, e) = update-installs p row now s t v h in
    rw e (record {
      keyed = put-WellKeyed String_discrete id_of name_of every row s.by_id v.keyed;
      names =
          replace-IsIndex String_discrete id_of name_of every s.by_id s.by_name v.names old v.keyed
            f.present row f.same_id (λ _. f.name_free);
    })

pub delete-Indexed : (id : ℕ) (s t : MemoryStore) → delete id s ≡ ok t → Indexed s → Indexed t
unfolding delete
delete-Indexed id s t h v = elim (Option-cases (get ℕ_discrete id s.by_id)) [
  | inl e ↦ absurd (ground arith)
  | inr (old, e) ↦
      let q : old.id ≡ id = v.keyed id old e in
      let gone : MemoryStore = record {
        by_id = remove ℕ_discrete old.id s.by_id;
        by_name = remove String_discrete old.name s.by_name;
      } in
      let kept : Indexed gone = record {
        keyed = remove-WellKeyed String_discrete id_of name_of every old.id s.by_id v.keyed;
        names =
            delete-IsIndex String_discrete id_of name_of every s.by_id s.by_name v.names old v.keyed
              (ground arith);
      } in
      subst Indexed (ground arith) kept
]

-- The operations that write, as steps from one store to the next.
pub data Step (s t : MemoryStore) : Type 0 where
  creates : (p : Option Plan) (row : Plan) (now : ℕ) → create p now s ≡ ok (row, t) → Step s t
  updates : (p : Option Plan) (row : Plan) (now : ℕ) → update p now s ≡ ok (row, t) → Step s t
  deletes : (id : ℕ) → delete id s ≡ ok t → Step s t

pub data Reach : MemoryStore → Type 0 where
  start : Reach new_memory_store
  next : {s t : MemoryStore} → Reach s → Step s t → Reach t

pub Step-Indexed : {s t : MemoryStore} → Step s t → Indexed s → Indexed t
Step-Indexed {s} {t} (creates p row now h) v = create-Indexed p row now s t h v
Step-Indexed {s} {t} (updates p row now h) v = update-Indexed p row now s t h v
Step-Indexed {s} {t} (deletes id h) v = delete-Indexed id s t h v

pub Reach-Indexed : {s : MemoryStore} → Reach s → Indexed s
Reach-Indexed start = new-Indexed
Reach-Indexed (next r st) = Step-Indexed st (Reach-Indexed r)

-- After any history of creates, updates and deletes, two plans with one name are one plan, and the
-- lookup by name finds just the plan that the lookup by id holds under that name.
pub names_unique :
    {s : MemoryStore} (i j : ℕ) (p q : Plan)
    → Reach s
    → get ℕ_discrete i s.by_id ≡ some p
    → get ℕ_discrete j s.by_id ≡ some q
    → p.name ≡ q.name
    → i ≡ j
names_unique {s} i j p q r hp hq e =
    let v = Reach-Indexed r in
    key_unique String_discrete id_of name_of every s.by_id s.by_name v.names i j p q v.keyed hp hq e
      refl
