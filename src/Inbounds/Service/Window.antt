-- ===== src/Inbounds/Service/Window.antt =====
-- What the applier of a node makes of the deltas of inbound changes within one window. A delta of an
-- inbound has the zero user id, whatever the inbound.
use aegis_panel.Common.{
  ℕ, ℕ_discrete, get, ◌≡◌, ◌≢◌, refl, subst, true, some, none, List, [], ◌∷◌, arith, ◌==◌,
  if◌then◌else◌,
}
use aegis_panel.Cores.Batched.{
  BatchedApplier, Delta, DeltaKind, add_user, remove_user, absorb, flush,
}
use aegis_panel.Cores.Batched.Absorb.{update_then_delete_lost}
use aegis_panel.Inbounds.Model.{Inbound, ok}
use aegis_panel.Inbounds.Store.{MemoryStore}
use aegis_panel.Inbounds.Service.{
  Env, Effect, dispatches, records, enqueues, enqueue_for_node, CreateInput, create, finish_create,
  delete, wired,
}
use aegis_panel.Inbounds.Service.Changes.{create-parts}

abbrev pub inbound_delta : DeltaKind → Delta
inbound_delta kind = record { kind = kind; user_id = 0; payload = ""; enqueued = 0 }

-- The applier of one node takes the deltas of a call that are for it.
unfoldable pub absorb_effects : ℕ → List Effect → BatchedApplier → BatchedApplier
absorb_effects node [] b = b
absorb_effects node (enqueues n kind ∷ es) b =
    let rest = absorb_effects node es in
    if n == node then rest (absorb (inbound_delta kind) b) else rest b
absorb_effects node (dispatches event id ∷ es) b = absorb_effects node es b
absorb_effects node (records action id before after ∷ es) b = absorb_effects node es b

sent :
    (env : Env) (node : ℕ) (kind : DeltaKind) (b : BatchedApplier)
    → node ≢ 0
    → wired (get ℕ_discrete node env.appliers) ≡ true
    → absorb_effects node (enqueue_for_node env node kind) b ≡ absorb (inbound_delta kind) b
unfolding absorb_effects enqueue_for_node
sent env node kind b nz w = ground arith

create-effects :
    (env : Env) (i : CreateInput) (s t : MemoryStore) (out : Inbound) (es : List Effect)
    → create env i s ≡ ok (out, t, es)
    → es
      ≡ dispatches "inbound.created" out.id
        ∷ records "inbound.create" out.id none (some out)
        ∷ enqueue_for_node env out.node_id add_user
unfolding finish_create
create-effects env i s t out es h =
    let (extra, row, checked, stored, finished) = create-parts env i s t out es h in ground arith

delete-effects :
    (env : Env) (id : ℕ) (s t : MemoryStore) (gone : Inbound) (es : List Effect)
    → delete env id s ≡ ok (gone, t, es)
    → es
      ≡ dispatches "inbound.deleted" id
        ∷ records "inbound.delete" id (some gone) none
        ∷ enqueue_for_node env gone.node_id remove_user
unfolding delete
delete-effects env id s t gone es h = ground arith

create-absorbed :
    (env : Env) (i : CreateInput) (s t : MemoryStore) (out : Inbound) (es : List Effect)
    (b : BatchedApplier)
    → create env i s ≡ ok (out, t, es)
    → out.node_id ≢ 0
    → wired (get ℕ_discrete out.node_id env.appliers) ≡ true
    → absorb_effects out.node_id es b ≡ absorb (inbound_delta add_user) b
unfolding absorb_effects
create-absorbed env i s t out es b h nz w =
    rw (create-effects env i s t out es h) (sent env out.node_id add_user b nz w)

delete-absorbed :
    (env : Env) (id : ℕ) (s t : MemoryStore) (gone : Inbound) (es : List Effect)
    (b : BatchedApplier)
    → delete env id s ≡ ok (gone, t, es)
    → gone.node_id ≢ 0
    → wired (get ℕ_discrete gone.node_id env.appliers) ≡ true
    → absorb_effects gone.node_id es b ≡ absorb (inbound_delta remove_user) b
unfolding absorb_effects
delete-absorbed env id s t gone es b h nz w =
    rw (delete-effects env id s t gone es h) (sent env gone.node_id remove_user b nz w)

-- One inbound is created on a node and another one of the node is deleted within one window: if
-- nothing else is pending, the node's applier is left as it was, so its callback is not called, and
-- neither change reaches the node.
pub create_then_delete_lost :
    (env env' : Env) (i : CreateInput) (id : ℕ) (s t t' : MemoryStore) (out gone : Inbound)
    (es es' : List Effect) (b : BatchedApplier)
    → create env i s ≡ ok (out, t, es)
    → delete env' id t ≡ ok (gone, t', es')
    → out.id ≢ id
    → gone.node_id ≡ out.node_id
    → out.node_id ≢ 0
    → wired (get ℕ_discrete out.node_id env.appliers) ≡ true
    → wired (get ℕ_discrete out.node_id env'.appliers) ≡ true
    → b.pending ≡ []
    → flush (absorb_effects out.node_id es' (absorb_effects out.node_id es b)) ≡ b
create_then_delete_lost env env' i id s t t' out gone es es' b h d other same nz w w' idle =
    let added = create-absorbed env i s t out es b h nz w in
    let removed : absorb_effects out.node_id es' (absorb (inbound_delta add_user) b)
        ≡ absorb (inbound_delta remove_user) (absorb (inbound_delta add_user) b) =
      subst
        (λ n.
          absorb_effects n es' (absorb (inbound_delta add_user) b)
          ≡ absorb (inbound_delta remove_user) (absorb (inbound_delta add_user) b))
        same (delete-absorbed env' id t t' gone es' _ d (rw same nz) (rw same w')) in
    rw (added, removed)
      (update_then_delete_lost (inbound_delta add_user) (inbound_delta remove_user) b refl refl refl
        idle)
