-- ===== src/Nodes/Store/Names.antt =====
-- The table and the index by name agree, and every operation keeps them so.
use aegis_panel.Common.{
  ℕ, ℕ_discrete, String_discrete, String, get, put, get-put, get-remove, remove, ◌≡◌, ◌≢◌, refl,
  subst, Option, Option-cases, Bool-cases, some, none, inl, inr, arith, Points, Points_unique,
  insert-Points, keep-Points, move-Points, drop-Points, is_text, is_text_iff, List,
}
use aegis_panel.Nodes.Model.{Node, ok}
use aegis_panel.Nodes.Store.{
  MemoryStore, new_memory_store, or_http, create_row, create, update_found, update, delete,
  set_column, set_agent_bearer, set_ssh_private_key_ciphertext, set_agent_transport,
}

abbrev pub id_ref : ℕ → ℕ
id_ref i = i

abbrev pub name_of : Node → String
name_of n = n.name

-- Each row lies under its id and has the one entry under its name.
pub record Indexed (s : MemoryStore) : Type 0 where
  pub keyed : (i : ℕ) (n : Node) → get ℕ_discrete i s.by_id ≡ some n → n.id ≡ i
  pub names : Points String_discrete name_of id_ref s.by_id s.by_key

pub new-Indexed : Indexed new_memory_store
unfolding new_memory_store get
new-Indexed = record {
  keyed = λ i r h. cc;
  names = record { rows_in = λ i r h. cc; rows_of = λ k r h. cc };
}

-- What `create` has found, and the store that it returns.
pub record Created (n row : Node) (now : ℕ) (s t : MemoryStore) : Type 0 where
  pub is_row :
      row
      ≡ record n { agent_transport = or_http n.agent_transport; created_at = now; updated_at = now }
  pub id_free : get ℕ_discrete row.id s.by_id ≡ none
  pub name_free : get String_discrete row.name s.by_key ≡ none
  pub stored : t.by_id ≡ put ℕ_discrete row.id row s.by_id
  pub indexed : t.by_key ≡ put String_discrete row.name row.id s.by_key

pub create-Created :
    (n : Option Node) (row : Node) (now : ℕ) (s t : MemoryStore)
    → create n now s ≡ ok (row, t)
    → (given : Node) × (n ≡ some given) × Created given row now s t
unfolding create create_row
create-Created none row now s t e = absurd (ground arith)
create-Created (some n) row now s t e = (
  n,
  refl,
  record {
    is_row = ground arith;
    id_free = ground arith;
    name_free = ground arith;
    stored = ground arith;
    indexed = ground arith;
  },
)

pub create-Indexed :
    (n : Option Node) (row : Node) (now : ℕ) (s t : MemoryStore)
    → create n now s ≡ ok (row, t)
    → Indexed s
    → Indexed t
create-Indexed n row now s t e v =
    let (given, _, c) = create-Created n row now s t e in
    record {
      keyed =
          λ j r at. ground (arith, c.stored, get-put ℕ_discrete row.id j row s.by_id, v.keyed j r);
      names =
          rw (c.stored, c.indexed)
            (insert-Points String_discrete name_of id_ref s.by_id s.by_key v.names row.id row row.id
              refl c.id_free c.name_free);
    }

-- What `update` has found, and the table that it returns.
pub record Updated (n old row : Node) (now : ℕ) (s t : MemoryStore) : Type 0 where
  pub found : get ℕ_discrete row.id s.by_id ≡ some old
  pub is_row : row ≡ record n { created_at = old.created_at; updated_at = now }
  pub stored : t.by_id ≡ put ℕ_discrete row.id row s.by_id
  pub names_kept :
      Points String_discrete name_of id_ref s.by_id s.by_key
      → Points String_discrete name_of id_ref t.by_id t.by_key

update_found-Updated :
    (n old row : Node) (now : ℕ) (s t : MemoryStore)
    → get ℕ_discrete n.id s.by_id ≡ some old
    → update_found old n now s ≡ ok (row, t)
    → Updated n old row now s t
unfolding update_found
update_found-Updated n old row now s t at e = record {
  found = ground arith;
  is_row = ground arith;
  stored = ground arith;
  names_kept = λ p. elim (Bool-cases (is_text n.name old.name)) [
    | inl q ↦
        let same : row.name ≡ old.name = ground (arith, is_text_iff n.name old.name) in
        let index : t.by_key ≡ s.by_key = ground arith in
        let rows : t.by_id ≡ put ℕ_discrete row.id row s.by_id = ground arith in
        rw (rows, index)
          (keep-Points String_discrete name_of id_ref s.by_id s.by_key p row.id old (ground arith)
            row same)
    | inr q ↦
        let index : t.by_key
            ≡ put String_discrete row.name row.id (remove String_discrete old.name s.by_key) =
          ground arith in
        let rows : t.by_id ≡ put ℕ_discrete row.id row s.by_id = ground arith in
        let moved : row.name ≢ old.name = λ x. ground (arith, is_text_iff n.name old.name) in
        rw (rows, index)
          (move-Points String_discrete name_of id_ref s.by_id s.by_key p row.id old (ground arith)
            row row.id refl moved (ground arith))
  ];
}

pub update-Updated :
    (n : Option Node) (row : Node) (now : ℕ) (s t : MemoryStore)
    → update n now s ≡ ok (row, t)
    → (given old : Node) × (n ≡ some given) × Updated given old row now s t
unfolding update
update-Updated none row now s t e = absurd (ground arith)
update-Updated (some n) row now s t e = elim (Option-cases (get ℕ_discrete n.id s.by_id)) [
  | inl x ↦ absurd (ground arith)
  | inr (old, at) ↦ (n, old, refl, update_found-Updated n old row now s t at (ground arith))
]

pub update-Indexed :
    (n : Option Node) (row : Node) (now : ℕ) (s t : MemoryStore)
    → update n now s ≡ ok (row, t)
    → Indexed s
    → Indexed t
update-Indexed n row now s t e v =
    let (given, old, _, u) = update-Updated n row now s t e in
    record {
      keyed =
          λ j r at. ground (arith, u.stored, get-put ℕ_discrete row.id j row s.by_id, v.keyed j r);
      names = u.names_kept v.names;
    }

pub delete-Indexed : (id : ℕ) (s t : MemoryStore) → delete id s ≡ ok t → Indexed s → Indexed t
unfolding delete
delete-Indexed id s t e v = elim (Option-cases (get ℕ_discrete id s.by_id)) [
  | inl n ↦ absurd (ground arith)
  | inr (old, at) ↦
      let gone : MemoryStore = record {
        by_id = remove ℕ_discrete id s.by_id;
        by_key = remove String_discrete old.name s.by_key;
      } in
      let kept : Indexed gone = record {
        keyed = λ j r x. ground (arith, get-remove ℕ_discrete id j s.by_id, v.keyed j r);
        names = drop-Points String_discrete name_of id_ref s.by_id s.by_key v.names id old at;
      } in
      subst Indexed (ground arith) kept
]

-- A column write that leaves the id and the name alone.
set_column-Indexed :
    (change : Node → Node) (id now : ℕ) (s t : MemoryStore)
    → ((n : Node) → ((change n).id ≡ n.id) × ((change n).name ≡ n.name))
    → set_column change id now s ≡ ok t
    → Indexed s
    → Indexed t
unfolding set_column
set_column-Indexed change id now s t same e v = elim (Option-cases (get ℕ_discrete id s.by_id)) [
  | inl n ↦ absurd (ground arith)
  | inr (old, at) ↦
      let row : Node = record (change old) { updated_at = now } in
      let changed : MemoryStore = record s { by_id = put ℕ_discrete id row s.by_id } in
      let kept : Indexed changed = record {
        keyed = λ j r x. ground (
          arith,
          get-put ℕ_discrete id j row s.by_id,
          v.keyed j r,
          v.keyed id old at,
          (same old).0,
        );
        names =
            keep-Points String_discrete name_of id_ref s.by_id s.by_key v.names id old at row
              (same old).1;
      } in
      subst Indexed (ground arith) kept
]

-- The operations that write, as steps from one store to the next.
pub data Step (s t : MemoryStore) : Type 0 where
  creates : (n : Option Node) (row : Node) (now : ℕ) → create n now s ≡ ok (row, t) → Step s t
  updates : (n : Option Node) (row : Node) (now : ℕ) → update n now s ≡ ok (row, t) → Step s t
  deletes : (id : ℕ) → delete id s ≡ ok t → Step s t
  sets_bearer : (id now : ℕ) (x : String) → set_agent_bearer id x now s ≡ ok t → Step s t
  sets_key : (id now : ℕ) (x : List ℕ) → set_ssh_private_key_ciphertext id x now s ≡ ok t → Step s t
  sets_transport : (id now : ℕ) (x : String) → set_agent_transport id x now s ≡ ok t → Step s t

pub data Reach : MemoryStore → Type 0 where
  start : Reach new_memory_store
  next : {s t : MemoryStore} → Reach s → Step s t → Reach t

pub Step-Indexed : {s t : MemoryStore} → Step s t → Indexed s → Indexed t
unfolding set_agent_bearer set_ssh_private_key_ciphertext set_agent_transport
Step-Indexed {s} {t} (creates n row now e) v = create-Indexed n row now s t e v
Step-Indexed {s} {t} (updates n row now e) v = update-Indexed n row now s t e v
Step-Indexed {s} {t} (deletes id e) v = delete-Indexed id s t e v
Step-Indexed {s} {t} (sets_bearer id now x e) v =
    set_column-Indexed (λ n. record n { agent_bearer = x }) id now s t (λ n. (refl, refl)) e v
Step-Indexed {s} {t} (sets_key id now x e) v =
    set_column-Indexed (λ n. record n { ssh_private_key_ciphertext = x }) id now s t
      (λ n. (refl, refl)) e v
Step-Indexed {s} {t} (sets_transport id now x e) v =
    set_column-Indexed (λ n. record n { agent_transport = x }) id now s t (λ n. (refl, refl)) e v

pub Reach-Indexed : {s : MemoryStore} → Reach s → Indexed s
Reach-Indexed start = new-Indexed
Reach-Indexed (next r st) = Step-Indexed st (Reach-Indexed r)

-- After any history of the store's writes, the column writes included, two nodes with one name are
-- one node.
pub node_names_unique :
    {s : MemoryStore} (i j : ℕ) (m n : Node)
    → Reach s
    → get ℕ_discrete i s.by_id ≡ some m
    → get ℕ_discrete j s.by_id ≡ some n
    → m.name ≡ n.name
    → i ≡ j
node_names_unique {s} i j m n r hm hn e =
    Points_unique String_discrete name_of id_ref s.by_id s.by_key (Reach-Indexed r).names i j m n hm
      hn e
