-- ===== src/Plans/Service/Changes.antt =====
-- What the mutating calls of the plan service guarantee of the store and send out.
use aegis_panel.Common.{
  ℕ, ℕ_discrete, get, ◌≡◌, ◌≢◌, true, Option-cases, some, none, List, [], ◌∷◌, arith, inl, inr,
}
use aegis_panel.Plans.Model.{Plan, is_valid_plan, ok, ◌>>=◌, >>=-eq-ok}
use aegis_panel.Plans.Store
use aegis_panel.Plans.Store.{MemoryStore, get_by_id}
use aegis_panel.Plans.Store.Indexes.{Indexed, create-Indexed, update-Indexed}
use aegis_panel.Plans.Store.Contract.{Unnamed, create_complete, create-valid, update-found}
use aegis_panel.Plans.Service.{
  Env, Effect, dispatches, records, CreateInput, check_input, new_plan, create, UpdateInput, merged,
  finish_update, update,
}
use aegis_panel.Plans.Service.Checks.{check_input-valid}

-- Checked input, a fresh id and a name that no plan has are all that a creation needs. The plan is
-- then valid and stored under the new id, the maps agree, and one event and one audit entry go out.
pub create_succeeds :
    (env : Env) (i : CreateInput) (s : MemoryStore)
    → Indexed s
    → check_input i ≡ ok tt
    → env.new_id ≢ 0
    → get ℕ_discrete env.new_id s.by_id ≡ none
    → Unnamed i.name s
    → (out : Plan) × (t : MemoryStore) × (create env i s
        ≡ ok (
          out,
          t,
          dispatches "plan.created" env.new_id
              ∷ records "plan.create" env.new_id none (some out)
              ∷ [],
        ))
      × (get_by_id env.new_id t ≡ ok out)
      × (out.name ≡ i.name)
      × (is_valid_plan (some out) ≡ true)
      × Indexed t
unfolding create new_plan get_by_id
create_succeeds env i s v checked nz id_free free =
    let valid = check_input-valid env i checked in
    let (row, t, stored, same, named, table) =
      create_complete (new_plan env i) env.store_now s v nz valid id_free free in
    (
      row,
      t,
      ground arith,
      ground (arith, table env.new_id),
      named,
      create-valid (new_plan env i) row env.store_now s t stored,
      create-Indexed (some (new_plan env i)) row env.store_now s t stored v,
    )

-- What a successful update has passed on the way.
update-parts :
    (env : Env) (id : ℕ) (i : UpdateInput) (s t : MemoryStore) (out : Plan) (es : List Effect)
    → update env id i s ≡ ok (out, t, es)
    → (cur stored : Plan) × (get ℕ_discrete id s.by_id ≡ some cur)
      × (Store.update (some (merged env i cur)) env.store_now s ≡ ok (stored, t))
      × (finish_update id (stored, t) ≡ ok (out, t, es))
unfolding update get_by_id finish_update
update-parts env id i s t out es h = elim (Option-cases (get ℕ_discrete id s.by_id)) [
  | inl n ↦ absurd (ground arith)
  | inr (cur, n) ↦
      let step : (Store.update (some (merged env i cur)) env.store_now s >>= finish_update id)
          ≡ ok (out, t, es) =
        ground arith in
      let ((stored, t'), updated, finished) = >>=-eq-ok _ (finish_update id) step in
      (cur, stored, n, ground arith, ground arith)
]

-- A successful update answers with the row that is stored under the id, which is valid, and keeps the
-- maps in agreement. Its audit entry gives that new row as the row before the update, too.
pub update_records :
    (env : Env) (id : ℕ) (i : UpdateInput) (s t : MemoryStore) (out : Plan) (es : List Effect)
    → Indexed s
    → update env id i s ≡ ok (out, t, es)
    → (es ≡ dispatches "plan.updated" id ∷ records "plan.update" id (some out) (some out) ∷ [])
      × (get_by_id id t ≡ ok out)
      × (is_valid_plan (some out) ≡ true)
      × Indexed t
unfolding get_by_id finish_update merged
update_records env id i s t out es v h =
    let (cur, stored, at, updated, finished) = update-parts env id i s t out es h in
    let (valid, same, _, found) =
      update-found (merged env i cur) stored env.store_now s t updated in
    let q : cur.id ≡ id = v.keyed id cur at in
    (
      ground arith,
      ground arith,
      ground arith,
      update-Indexed (some (merged env i cur)) stored env.store_now s t updated v,
    )
