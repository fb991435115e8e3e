-- ===== src/Plans/Store/Contract.antt =====
-- What the plan store promises, said of the table of rows by id alone.
use aegis_panel.Common.{
  ℕ, String, String_discrete, ℕ_discrete, get, get-put, get-remove, ◌≡◌, ◌≢◌, Option-cases, none,
  some, is_text_iff, inl, inr, arith, ite, true, refl, if◌then◌else◌, ◌==◌,
}
use aegis_panel.Plans.Model.{Plan, is_valid_plan, ok, err, not_found}
use aegis_panel.Plans.Store.Indexes.{Indexed, create-installs}
use aegis_panel.Plans.Store.{
  MemoryStore, install, taken, create_row, create, update_row, update, delete, get_by_id,
  get_by_name,
}

-- No row of the table has the name.
abbrev pub Unnamed : String → MemoryStore → Type 0
Unnamed name s = (i : ℕ) (q : Plan) → get ℕ_discrete i s.by_id ≡ some q → q.name ≢ name

Unnamed-free :
    (name : String) (s : MemoryStore)
    → Indexed s
    → Unnamed name s
    → get String_discrete name s.by_name ≡ none
Unnamed-free name s v free = elim (Option-cases (get String_discrete name s.by_name)) [
  | inl e ↦ e
  | inr (q, e) ↦ let (named, _, at) = v.names.rows_of name q e in absurd (free q.id q at named)
]

-- A valid plan with an id and a name that no row has is always stored: the row found under its id is
-- the plan with the time of the call, and the other rows stay.
pub create_complete :
    (p : Plan) (now : ℕ) (s : MemoryStore)
    → Indexed s
    → p.id ≢ 0
    → is_valid_plan (some p) ≡ true
    → get ℕ_discrete p.id s.by_id ≡ none
    → Unnamed p.name s
    → (row : Plan) × (t : MemoryStore) × (create (some p) now s ≡ ok (row, t))
      × (row.id ≡ p.id)
      × (row.name ≡ p.name)
      × ((j : ℕ)
          → get ℕ_discrete j t.by_id
            ≡ ite (ℕ_discrete p.id j) (some row) (get ℕ_discrete j s.by_id))
unfolding create create_row install taken
create_complete p now s v nz valid id_free free =
    let name_free : get String_discrete p.name s.by_name ≡ none = Unnamed-free p.name s v free in
    let row : Plan = record p {
      created_at = if p.created_at == 0 then now else p.created_at;
      updated_at = now;
    } in
    (row, install row s, ground arith, refl, refl, λ j. get-put ℕ_discrete p.id j row s.by_id)

-- The lookup by name finds a plan just when the table holds a plan of that name, which is not empty.
pub get_by_name_iff :
    (name : String) (s : MemoryStore) (p : Plan)
    → Indexed s
    → (get_by_name name s ≡ ok p → (get ℕ_discrete p.id s.by_id ≡ some p) × (p.name ≡ name))
      × (name ≢ ""
          → get ℕ_discrete p.id s.by_id ≡ some p
          → p.name ≡ name
          → get_by_name name s ≡ ok p)
unfolding get_by_name
get_by_name_iff name s p v = (
  λ h.
      let (named, _, at) = v.names.rows_of name p (ground (arith, is_text_iff name "")) in
      (at, named),
  λ n at e. ground (arith, is_text_iff name "", v.names.rows_in p.id p at refl),
)

pub create-valid :
    (p row : Plan) (now : ℕ) (s t : MemoryStore)
    → create (some p) now s ≡ ok (row, t)
    → is_valid_plan (some row) ≡ true
unfolding create
create-valid p row now s t h = ground (arith, create-installs p row now s t h)

-- What is left of an updated plan: it is valid, and found under the id of the patch.
pub update-found :
    (p row : Plan) (now : ℕ) (s t : MemoryStore)
    → update (some p) now s ≡ ok (row, t)
    → (is_valid_plan (some row) ≡ true)
      × (row.id ≡ p.id)
      × (row.name ≡ p.name)
      × (get ℕ_discrete p.id t.by_id ≡ some row)
unfolding update update_row is_valid_plan install
update-found p row now s t h = elim (Option-cases (get ℕ_discrete p.id s.by_id)) [
  | inl e ↦ absurd (ground arith)
  | inr (old, e) ↦ ground (arith, get-put ℕ_discrete p.id p.id row s.by_id)
]

-- A deleted plan is gone from both lookups, and every other plan is still found under its id.
pub delete_removes :
    (id : ℕ) (s t : MemoryStore)
    → delete id s ≡ ok t
    → (p : Plan) × (get_by_id id s ≡ ok p)
      × (get_by_id id t ≡ err not_found)
      × (get_by_name p.name t ≡ err not_found)
      × ((j : ℕ) → id ≢ j → get_by_id j t ≡ get_by_id j s)
unfolding delete get_by_id get_by_name
delete_removes id s t h = elim (Option-cases (get ℕ_discrete id s.by_id)) [
  | inl e ↦ absurd (ground arith)
  | inr (p, e) ↦ (
    p,
    ground arith,
    ground (arith, get-remove ℕ_discrete id id s.by_id),
    ground (arith, get-remove String_discrete p.name p.name s.by_name),
    λ j n. ground (arith, get-remove ℕ_discrete id j s.by_id),
  )
]
