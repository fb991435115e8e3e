-- ===== src/Users/Service/Changes.antt =====
-- What the mutating calls of the service guarantee of the store and send out.
use aegis_panel.Common.{
  ℕ, String, ℕ_discrete, get, ◌≡◌, inl, inr, refl, sym, subst, ◌∙◌, ap, true, Option-cases, some,
  none, List, [], ◌∷◌, arith,
}
use aegis_panel.Cores.Batched.{BatchedApplier, add_user, remove_user, absorb, flush}
use aegis_panel.Cores.Batched.Absorb.{update_then_delete_lost}
use aegis_panel.Users.Model.{User, is_valid_user, ok, >>=-eq-ok, >>-eq-ok, ◌>>=◌}
use aegis_panel.Users.Validate.{validate_username}
use aegis_panel.Users.Store
use aegis_panel.Users.Store.{MemoryStore, get_by_id}
use aegis_panel.Users.Store.Indexes.{Indexed, create-Indexed}
use aegis_panel.Users.Store.Lookups.{Row, create-table, update-table, update-row, create-row}
use aegis_panel.Users.Access.{delta_nodes}
use aegis_panel.Users.Service.{
  Env, Effect, dispatches, records, enqueues, CreateInput, new_user, check_input, finish_create,
  create, UpdateInput, check_update, merged, finish_update, update, delete,
}

-- What a successful create has passed on the way.
create-parts :
    (env : Env) (i : CreateInput) (s t : MemoryStore) (out : User) (es : List Effect)
    → create env i s ≡ ok (out, t, es)
    → (tok : String) × (check_input env i ≡ ok tt)
      × (env.token ≡ some tok)
      × (Store.create (some (new_user env i tok)) env.store_now s ≡ ok (out, t))
unfolding create finish_create
create-parts env i s t out es h = elim (Option-cases env.token) [
  | inl n ↦ absurd (ground arith)
  | inr (tok, n) ↦
      let step : (Store.create (some (new_user env i tok)) env.store_now s >>= finish_create env)
          ≡ ok (out, t, es) =
        ground arith in
      let ((row, t'), stored, finished) = >>=-eq-ok _ (finish_create env) step in
      (tok, ground arith, n, ground arith)
]

checked_name :
    (env : Env) (i : CreateInput) (name : String)
    → check_input env i ≡ ok tt
    → name ≡ i.username
    → validate_username name ≡ ok tt
unfolding check_input
checked_name env i name h e = rw e (>>-eq-ok (validate_username i.username) _ h).0

same_valid :
    (u : User) (now created : ℕ)
    → is_valid_user (some u) ≡ true
    → is_valid_user (some (record u { updated_at = now; created_at = created })) ≡ true
unfolding is_valid_user
same_valid u now created h = h

pub create_sound :
    (env : Env) (i : CreateInput) (s t : MemoryStore) (out : User) (es : List Effect)
    → Indexed s
    → create env i s ≡ ok (out, t, es)
    → Indexed t
      × Row t out
      × (get ℕ_discrete out.id s.by_id ≡ none)
      × (validate_username out.username ≡ ok tt)
      × (is_valid_user (some out) ≡ true)
unfolding new_user
create_sound env i s t out es v h =
    let (tok, checked, minted, stored) = create-parts env i s t out es h in
    let u : User = new_user env i tok in
    let (row, valid, free) = create-row u out env.store_now s t stored in
    let table = create-table u out env.store_now s t stored u.id in
    let own : out.id ≡ u.id = ap (λ w. w.id) row in
    (
      create-Indexed (some u) out env.store_now s t stored v,
      ground arith,
      ground arith,
      checked_name env i out.username checked (ap (λ w. w.username) row),
      subst (λ w. is_valid_user (some w) ≡ true) (sym row)
          (same_valid u env.store_now out.created_at valid),
    )

module _ (env : Env) (id : ℕ) (i : UpdateInput) (s t : MemoryStore) (out : User)
    (es : List Effect) where
  finish_update-ok :
      (row : User) (t' : MemoryStore)
      → finish_update env i id (row, t') ≡ ok (out, t, es)
      → (t' ≡ t) × (get ℕ_discrete id t.by_id ≡ some out)
  unfolding finish_update get_by_id
  finish_update-ok row t' h = elim (Option-cases (get ℕ_discrete id t'.by_id)) [
    | inl e ↦ absurd (ground arith)
    | inr (w, e) ↦ (ground arith, ground arith)
  ]

  -- What a successful update has passed on the way.
  update-parts :
      Indexed s
      → update env id i s ≡ ok (out, t, es)
      → (cur : User) × (get ℕ_discrete id s.by_id ≡ some cur)
        × (check_update env i ≡ ok tt)
        × (Store.update (some (merged env i cur)) env.store_now s ≡ ok (out, t))
  unfolding update get_by_id merged
  update-parts v h = elim (Option-cases (get ℕ_discrete id s.by_id)) [
    | inl e ↦ absurd (ground arith)
    | inr (cur, e) ↦
        let step : (Store.update (some (merged env i cur)) env.store_now s
              >>= finish_update env i id)
            ≡ ok (out, t, es) =
          ground arith in
        let ((row, t'), stored, finished) = >>=-eq-ok _ (finish_update env i id) step in
        let (q, found) = finish_update-ok row t' finished in
        let kept : row.id ≡ id =
          ap (λ r. r.id) (update-row (merged env i cur) row env.store_now s t' stored)
          ∙ v.keyed id cur e in
        let table = update-table (merged env i cur) row env.store_now s t' v stored id in
        (cur, e, ground arith, ground arith)
  ]

  -- In a store whose maps agree, an update that asks to unlink the plan, by the zero id, stores the
  -- zero id as the plan.
  pub unlink_plan_stores_zero :
      Indexed s → update env id i s ≡ ok (out, t, es) → i.plan_id ≡ some 0 → out.plan_id ≡ some 0
  unfolding merged
  unlink_plan_stores_zero v h zero =
      let (cur, was, _, stored) = update-parts v h in
      ap (λ r. r.plan_id) (update-row (merged env i cur) out env.store_now s t stored)
      ∙ rw zero refl

-- The deltas among what a call sends out, as the applier of one node takes them.
pub absorb_effects : List Effect → BatchedApplier → BatchedApplier
absorb_effects [] b = b
absorb_effects (enqueues kind id limit nodes ∷ es) b =
    absorb_effects es (absorb (record { kind = kind; user_id = id; payload = ""; enqueued = 0 }) b)
absorb_effects (dispatches event id ∷ es) b = absorb_effects es b
absorb_effects (records action id ∷ es) b = absorb_effects es b

update-effects :
    (env : Env) (id : ℕ) (i : UpdateInput) (s t : MemoryStore) (out : User) (es : List Effect)
    → update env id i s ≡ ok (out, t, es)
    → i.traffic_limit_bytes ≡ none
    → (nodes : List ℕ) × (es
        ≡ dispatches "user.updated" out.id
          ∷ records "user.update" out.id
          ∷ enqueues add_user out.id none nodes
          ∷ [])
unfolding update finish_update get_by_id
update-effects env id i s t out es h no_limit =
    (delta_nodes env.lookup env.appliers (some out), ground arith)

delete-effects :
    (env : Env) (id : ℕ) (s t : MemoryStore) (out : User) (es : List Effect)
    → delete env id s ≡ ok (out, t, es)
    → (nodes : List ℕ) × (es
        ≡ dispatches "user.deleted" id
          ∷ records "user.delete" id
          ∷ enqueues remove_user id none nodes
          ∷ [])
unfolding delete get_by_id
delete-effects env id s t out es h = (delta_nodes env.lookup env.appliers (some out), ground arith)

own_id :
    (env : Env) (id : ℕ) (i : UpdateInput) (cur out : User) (now : ℕ) (s t : MemoryStore)
    → Indexed s
    → get ℕ_discrete id s.by_id ≡ some cur
    → Store.update (some (merged env i cur)) now s ≡ ok (out, t)
    → out.id ≡ id
unfolding merged
own_id env id i cur out now s t v was stored =
    ap (λ r. r.id) (update-row (merged env i cur) out now s t stored) ∙ v.keyed id cur was

-- A user of a store whose maps agree is updated, with no new traffic limit, and deleted within one
-- window: an applier that takes the deltas of both calls with nothing pending, and then flushes, is
-- left as it was, so its callback is not called for either.
pub delete_after_update_lost :
    (env env' : Env) (id : ℕ) (i : UpdateInput) (s t t' : MemoryStore) (out gone : User)
    (es es' : List Effect) (b : BatchedApplier)
    → Indexed s
    → update env id i s ≡ ok (out, t, es)
    → i.traffic_limit_bytes ≡ none
    → delete env' id t ≡ ok (gone, t', es')
    → b.pending ≡ []
    → flush (absorb_effects es' (absorb_effects es b)) ≡ b
unfolding absorb_effects
delete_after_update_lost env env' id i s t t' out gone es es' b v h no_limit d idle =
    let (nodes, e) = update-effects env id i s t out es h no_limit in
    let (nodes', e') = delete-effects env' id t t' gone es' d in
    let (cur, was, _, stored) = update-parts env id i s t out es v h in
    let own : out.id ≡ id = own_id env id i cur out env.store_now s t v was stored in
    rw (e, e') (update_then_delete_lost _ _ b refl refl (sym own) idle)
