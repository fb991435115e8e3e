-- ===== src/Plans/Store.antt =====
-- backend/internal/plans/memory_store.go. A store's clock is the argument `now`; on an error the
-- store is unchanged. Both maps hold one pointer to a copy that nothing writes to, so a row is a
-- value. The mutex makes each method one step.
pub mod Indexes
pub mod Contract
use aegis_panel.Common.{
  ℕ, String, String_discrete, ℕ_discrete, GoMap, get, put, remove, Bool, ◌&&◌, not, Option, none,
  some, List, [], ◌==◌, leb, ltb, is_text, is_some, if◌then◌else◌, vals, sort_by,
}
use aegis_panel.Plans.Model.{
  Plan, is_valid_plan, id_column, name_column, nil_plan, zero_id, invalid_plan, not_found,
  duplicate, Result, ok, err, ◌>>=◌, ◌>>◌, fail_if, or_fail,
}

pub record MemoryStore : Type 0 where
  pub by_id : GoMap ℕ Plan
  pub by_name : GoMap String Plan

unfoldable pub new_memory_store : MemoryStore
new_memory_store = record { by_id = []; by_name = [] }

unfoldable pub install : Plan → MemoryStore → MemoryStore
install p s = record {
  by_id = put ℕ_discrete p.id p s.by_id;
  by_name = put String_discrete p.name p s.by_name;
}

-- Rows that a test seeds, without the checks of `create`.
unfoldable pub with_plan : Option Plan → ℕ → MemoryStore → MemoryStore
unfolding install
with_plan none now s = s
with_plan (some p) now s =
    let created = if p.created_at == 0 then now else p.created_at in
    install
      (record p {
        created_at = created;
        updated_at = if p.updated_at == 0 then created else p.updated_at;
      })
      s

unfoldable pub taken : String → GoMap String Plan → Bool
taken k m = is_some (get String_discrete k m)

-- The row as it was stored (the caller's struct is written too), and the store.
unfoldable pub create_row : Plan → ℕ → MemoryStore → Result (Plan × MemoryStore)
create_row p now s = do
  fail_if (p.id == 0) zero_id
  fail_if (not (is_valid_plan (some p))) invalid_plan
  fail_if (is_some (get ℕ_discrete p.id s.by_id)) (duplicate id_column)
  fail_if (taken p.name s.by_name) (duplicate name_column)
  let row = record p {
    created_at = if p.created_at == 0 then now else p.created_at;
    updated_at = now;
  }
  ok (row, install row s)

unfoldable pub create : Option Plan → ℕ → MemoryStore → Result (Plan × MemoryStore)
create none now s = err nil_plan
create (some p) now s = create_row p now s

unfoldable pub get_by_id : ℕ → MemoryStore → Result Plan
get_by_id id s = or_fail (get ℕ_discrete id s.by_id) not_found

unfoldable pub get_by_name : String → MemoryStore → Result Plan
get_by_name name s =
    if is_text name ""
    then err not_found
    else or_fail (get String_discrete name s.by_name) not_found

abbrev older : Plan → Plan → Bool
older p q = ltb p.created_at q.created_at

unfoldable pub list : MemoryStore → List Plan
unfolding vals sort_by
list s = sort_by older (vals s.by_id)

unfoldable pub update_row : Plan → ℕ → MemoryStore → Result (Plan × MemoryStore)
update_row p now s = do
  fail_if (p.id == 0) zero_id
  fail_if (not (is_valid_plan (some p))) invalid_plan
  existing ← or_fail (get ℕ_discrete p.id s.by_id) not_found
  fail_if (not (is_text existing.name p.name) && taken p.name s.by_name) (duplicate name_column)
  let row = record p {
    updated_at = now;
    created_at = if p.created_at == 0 then existing.created_at else p.created_at;
  }
  ok (row, install row (record s { by_name = remove String_discrete existing.name s.by_name }))

unfoldable pub update : Option Plan → ℕ → MemoryStore → Result (Plan × MemoryStore)
update none now s = err nil_plan
update (some p) now s = update_row p now s

unfoldable pub delete : ℕ → MemoryStore → Result MemoryStore
delete id s = do
  p ← or_fail (get ℕ_discrete id s.by_id) not_found
  ok (record {
    by_id = remove ℕ_discrete id s.by_id;
    by_name = remove String_discrete p.name s.by_name;
  })
