-- ===== src/Inbounds/Store/Slots.antt =====
-- The three maps of the inbound store agree after every call that succeeds: one inbound to a name,
-- and one to a port, on each node.
use aegis_panel.Common.{
  ℕ, ℕ_discrete, get, put, get-put, get-remove, remove, ◌≡◌, refl, sym, subst, Option, Option-cases,
  none, some, inl, inr, arith, GoMap, Points, insert-Points, keep-Points, move-Points, drop-Points,
  if_pos, if_neg, false,
}
use aegis_panel.Inbounds.Model.{Inbound, ok}
use aegis_panel.Inbounds.Store.{
  MemoryStore, NodeKey_discrete, NodePortKey_discrete, node_key, node_port_key, new_memory_store,
  create_row, create, move, collides, update_found, update_at, update, delete,
}

abbrev pub id_of : Inbound → ℕ
id_of i = i.id

-- Each row lies under its id and has an entry under its name and its port that names it; there are
-- no other entries.
pub record Indexed (s : MemoryStore) : Type 0 where
  pub keyed : (i : ℕ) (r : Inbound) → get ℕ_discrete i s.by_id ≡ some r → r.id ≡ i
  pub names : Points NodeKey_discrete node_key id_of s.by_id s.by_node_key
  pub ports : Points NodePortKey_discrete node_port_key id_of s.by_id s.by_node_port

pub new-Indexed : Indexed new_memory_store
unfolding new_memory_store get
new-Indexed = record {
  keyed = λ i r h. cc;
  names = record { rows_in = λ i r h. cc; rows_of = λ k r h. cc };
  ports = record { rows_in = λ i r h. cc; rows_of = λ k r h. cc };
}

-- What `create` has found, and the store that it returns.
pub record Created (i row : Inbound) (s t : MemoryStore) : Type 0 where
  pub same_id : row.id ≡ i.id
  pub same_name : node_key row ≡ node_key i
  pub same_port : node_port_key row ≡ node_port_key i
  pub id_free : get ℕ_discrete row.id s.by_id ≡ none
  pub name_free : get NodeKey_discrete (node_key row) s.by_node_key ≡ none
  pub port_free : get NodePortKey_discrete (node_port_key row) s.by_node_port ≡ none
  pub stored : t.by_id ≡ put ℕ_discrete row.id row s.by_id
  pub named : t.by_node_key ≡ put NodeKey_discrete (node_key row) row s.by_node_key
  pub at_port : t.by_node_port ≡ put NodePortKey_discrete (node_port_key row) row s.by_node_port

pub create-Created :
    (i row : Inbound) (now : ℕ) (s t : MemoryStore)
    → create_row i now s ≡ ok (row, t)
    → Created i row s t
unfolding create_row
create-Created i row now s t h = record {
  same_id = ground arith;
  same_name = ground arith;
  same_port = ground arith;
  id_free = ground arith;
  name_free = ground arith;
  port_free = ground arith;
  stored = ground arith;
  named = ground arith;
  at_port = ground arith;
}

pub create-Indexed :
    (i : Option Inbound) (row : Inbound) (now : ℕ) (s t : MemoryStore)
    → create i now s ≡ ok (row, t)
    → Indexed s
    → Indexed t
unfolding create
create-Indexed none row now s t h v = cc
create-Indexed (some i) row now s t h v =
    let c = create-Created i row now s t h in
    record {
      keyed =
          λ j r at. ground (arith, c.stored, get-put ℕ_discrete row.id j row s.by_id, v.keyed j r);
      names =
          rw (c.stored, c.named)
            (insert-Points NodeKey_discrete node_key id_of s.by_id s.by_node_key v.names row.id row
              row refl c.id_free c.name_free);
      ports =
          rw (c.stored, c.at_port)
            (insert-Points NodePortKey_discrete node_port_key id_of s.by_id s.by_node_port v.ports
              row.id row row refl c.id_free c.port_free);
    }

-- A table whose row is replaced, with the index moved where the key has changed.
moved-Points :
    {K : Type 0} (d : Discrete K) (key : Inbound → K) (rows : GoMap ℕ Inbound)
    (index : GoMap K Inbound) (old row : Inbound)
    → Points d key id_of rows index
    → get ℕ_discrete row.id rows ≡ some old
    → collides d (key old) (key row) index ≡ false
    → Points d key id_of (put ℕ_discrete row.id row rows) (move d (key old) (key row) row index)
unfolding move collides
moved-Points d key rows index old row p at free = elim (d (key old) (key row)) [
  | yes e ↦ rw (if_pos _ e) (keep-Points d key id_of rows index p row.id old at row (sym e))
  | no n ↦ rw (if_neg _ n) (
      move-Points d key id_of rows index p row.id old at row row refl (λ e. n (sym e))
        (ground arith))
]

-- What a successful `update` has found, and the row that it stores.
pub record Updated (i old row : Inbound) (now : ℕ) (s t : MemoryStore) : Type 0 where
  pub found : get ℕ_discrete row.id s.by_id ≡ some old
  pub is_row : row ≡ record i { created_at = old.created_at; updated_at = now }
  pub name_free : collides NodeKey_discrete (node_key old) (node_key row) s.by_node_key ≡ false
  pub port_free :
      collides NodePortKey_discrete (node_port_key old) (node_port_key row) s.by_node_port ≡ false
  pub stored : t.by_id ≡ put ℕ_discrete row.id row s.by_id
  pub named : t.by_node_key ≡ move NodeKey_discrete (node_key old) (node_key row) row s.by_node_key
  pub at_port :
      t.by_node_port
      ≡ move NodePortKey_discrete (node_port_key old) (node_port_key row) row s.by_node_port

update_found-Updated :
    (i old row : Inbound) (now : ℕ) (s t : MemoryStore)
    → get ℕ_discrete i.id s.by_id ≡ some old
    → update_found old i now s ≡ (ok row, t)
    → Updated i old row now s t
unfolding update_found
update_found-Updated i old row now s t at h = record {
  found = ground arith;
  is_row = ground arith;
  name_free = ground arith;
  port_free = ground arith;
  stored = ground arith;
  named = ground arith;
  at_port = ground arith;
}

pub update-Updated :
    (i : Option Inbound) (row : Inbound) (now : ℕ) (s t : MemoryStore)
    → update i now s ≡ (ok row, t)
    → (given old : Inbound) × (i ≡ some given) × Updated given old row now s t
unfolding update update_at
update-Updated none row now s t h = absurd (ground arith)
update-Updated (some i) row now s t h = elim (Option-cases (get ℕ_discrete i.id s.by_id)) [
  | inl e ↦ absurd (ground arith)
  | inr (old, e) ↦ (i, old, refl, update_found-Updated i old row now s t e (ground arith))
]

pub update-Indexed :
    (i : Option Inbound) (row : Inbound) (now : ℕ) (s t : MemoryStore)
    → update i now s ≡ (ok row, t)
    → Indexed s
    → Indexed t
update-Indexed i row now s t h v =
    let (given, old, _, u) = update-Updated i row now s t h in
    record {
      keyed =
          λ j r at. ground (arith, u.stored, get-put ℕ_discrete row.id j row s.by_id, v.keyed j r);
      names =
          rw (u.stored, u.named)
            (moved-Points NodeKey_discrete node_key s.by_id s.by_node_key old row v.names u.found
              u.name_free);
      ports =
          rw (u.stored, u.at_port)
            (moved-Points NodePortKey_discrete node_port_key s.by_id s.by_node_port old row v.ports
              u.found u.port_free);
    }

pub delete-Indexed : (id : ℕ) (s t : MemoryStore) → delete id s ≡ ok t → Indexed s → Indexed t
unfolding delete
delete-Indexed id s t h v = elim (Option-cases (get ℕ_discrete id s.by_id)) [
  | inl e ↦ absurd (ground arith)
  | inr (old, e) ↦
      let gone : MemoryStore = record {
        by_id = remove ℕ_discrete id s.by_id;
        by_node_key = remove NodeKey_discrete (node_key old) s.by_node_key;
        by_node_port = remove NodePortKey_discrete (node_port_key old) s.by_node_port;
      } in
      let kept : Indexed gone = record {
        keyed = λ j r at. ground (arith, get-remove ℕ_discrete id j s.by_id, v.keyed j r);
        names = drop-Points NodeKey_discrete node_key id_of s.by_id s.by_node_key v.names id old e;
        ports =
            drop-Points NodePortKey_discrete node_port_key id_of s.by_id s.by_node_port v.ports id
              old e;
      } in
      subst Indexed (ground arith) kept
]
