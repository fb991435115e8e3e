-- ===== src/Nodes/Service/Changes.antt =====
-- What the mutating calls of the node service guarantee of the store and send out.
use aegis_panel.Common.{
  ℕ, ℕ_discrete, String, get, put, get-put, ◌≡◌, ◌≢◌, refl, Option-cases, some, none, List, [], ◌∷◌,
  arith, inl, inr, true, is_text_iff,
}
use aegis_panel.Bootstrap.State.{State}
use aegis_panel.Nodes.Model.{Node, ok}
use aegis_panel.Nodes.Store
use aegis_panel.Nodes.Store.{MemoryStore, get_by_id, set_column, set_agent_transport}
use aegis_panel.Nodes.Store.Names.{Indexed}
use aegis_panel.Nodes.Service.{
  Effect, dispatches, records, UpdateInput, is_state, validate_state, check_update, merged,
  finish_update, update, finish_rotate, rotate_found, rotate_transport,
}

abbrev pub only_state : State → UpdateInput
only_state st = record {
  name = none;
  region = none;
  state = some st;
  address = none;
  capacity_hint = none;
  tags = none;
}

abbrev set_state_only : State → Node → Node
set_state_only st cur = record cur { state = st }

store_update :
    (now : ℕ) (cur n : Node) (s : MemoryStore)
    → n.id ≢ 0
    → get ℕ_discrete n.id s.by_id ≡ some cur
    → n.name ≡ cur.name
    → Store.update (some n) now s
      ≡ ok (
        record n { created_at = cur.created_at; updated_at = now },
        record s {
          by_id =
              put ℕ_discrete n.id
                (record n { created_at = cur.created_at; updated_at = now })
                s.by_id;
        },
      )
unfolding Store.update Store.update_found
store_update now cur n s nz at same = ground (arith, is_text_iff n.name cur.name)

-- A patch of the state alone moves a node to any known state, whatever the state that it is in, and
-- keeps all its other columns but the time of the change.
pub update_moves_anywhere :
    (now id : ℕ) (st : State) (s : MemoryStore) (cur : Node)
    → Indexed s
    → id ≢ 0
    → get_by_id id s ≡ ok cur
    → is_state st ≡ true
    → (out : Node) × (t : MemoryStore) × (update now id (only_state st) s
        ≡ ok (
          out,
          t,
          dispatches "node.updated" id ∷ records "node.update" id (some out) (some out) ∷ [],
        ))
      × (out ≡ record cur { state = st; updated_at = now })
      × (get_by_id id t ≡ ok out)
unfolding update check_update merged finish_update get_by_id validate_state
update_moves_anywhere now id st s cur v nz at known =
    let row : get ℕ_discrete id s.by_id ≡ some cur = ground arith in
    let own : cur.id ≡ id = v.keyed id cur row in
    let stored =
      store_update now cur (set_state_only st cur) s (ground arith) (ground arith) refl in
    let out : Node = record cur { state = st; updated_at = now } in
    let t : MemoryStore = record s { by_id = put ℕ_discrete cur.id out s.by_id } in
    (
      out,
      t,
      ground (arith, get-put ℕ_discrete cur.id id out s.by_id),
      refl,
      ground (arith, get-put ℕ_discrete cur.id id out s.by_id),
    )

rotate_found-ok :
    (now id : ℕ) (cur : Node) (transport : String) (s t : MemoryStore) (out : Node)
    (es : List Effect)
    → get ℕ_discrete id s.by_id ≡ some cur
    → rotate_found now id cur transport s ≡ ok (out, t, es)
    → (out.agent_transport ≡ transport) × (get ℕ_discrete id t.by_id ≡ some out)
unfolding rotate_found set_agent_transport set_column finish_rotate get_by_id
rotate_found-ok now id cur transport s t out es at h =
    let row : Node = record cur { agent_transport = transport; updated_at = now } in
    ground (arith, is_text_iff cur.agent_transport transport, get-put ℕ_discrete id id row s.by_id)

rotate_found_again :
    (now id : ℕ) (cur : Node) (transport : String) (s : MemoryStore)
    → cur.agent_transport ≡ transport
    → rotate_found now id cur transport s ≡ ok (cur, s, [])
unfolding rotate_found
rotate_found_again now id cur transport s e =
    ground (arith, is_text_iff cur.agent_transport transport)

-- A rotation that succeeds leaves the node with the transport, and the same rotation again changes
-- nothing and sends nothing out.
pub rotate_twice :
    (now later id : ℕ) (transport : String) (s t : MemoryStore) (out : Node) (es : List Effect)
    → rotate_transport now id transport s ≡ ok (out, t, es)
    → (out.agent_transport ≡ transport)
      × (get_by_id id t ≡ ok out)
      × (rotate_transport later id transport t ≡ ok (out, t, []))
unfolding rotate_transport get_by_id
rotate_twice now later id transport s t out es h = elim (Option-cases (get ℕ_discrete id s.by_id)) [
  | inl n ↦ absurd (ground arith)
  | inr (cur, n) ↦
      let (set, found) = rotate_found-ok now id cur transport s t out es n (ground arith) in
      let again : rotate_found later id out transport t ≡ ok (out, t, []) =
        rotate_found_again later id out transport t set in
      (set, ground arith, ground arith)
]
