-- ===== src/Hosts/Store/Remarks.antt =====
-- The table and the index by lower-cased remark agree, and every operation keeps them so.
use aegis_panel.Common.{
  ℕ, ℕ_discrete, codes_discrete, get, put, get-put, get-remove, remove, ◌≡◌, ◌≢◌, refl, subst,
  Option, Option-cases, some, none, inl, inr, arith, Unique, Unique-put, Unique-remove, Points,
  Points_unique, insert-Points, keep-Points, move-Points, drop-Points, List,
}
use aegis_panel.Hosts.Model.{Host, ok}
use aegis_panel.Hosts.Store.{
  MemoryStore, new_memory_store, remark_key, create_row, create, update_found, update, delete,
}

abbrev pub id_ref : ℕ → ℕ
id_ref i = i

abbrev pub key_of : Host → List ℕ
key_of h = remark_key h.remark

-- Each row lies under its id, once, and has the one entry under its key.
pub record Indexed (s : MemoryStore) : Type 0 where
  pub keyed : (i : ℕ) (h : Host) → get ℕ_discrete i s.by_id ≡ some h → h.id ≡ i
  pub keys : Points codes_discrete key_of id_ref s.by_id s.by_key
  pub single : Unique ℕ_discrete s.by_id

pub new-Indexed : Indexed new_memory_store
unfolding new_memory_store get
new-Indexed = record {
  keyed = λ i r h. cc;
  keys = record { rows_in = λ i r h. cc; rows_of = λ k r h. cc };
  single = tt;
}

-- What `create` has found, and the store that it returns.
pub record Created (h row : Host) (now : ℕ) (s t : MemoryStore) : Type 0 where
  pub is_row : row ≡ record h { created_at = now; updated_at = now }
  pub id_free : get ℕ_discrete row.id s.by_id ≡ none
  pub key_free : get codes_discrete (key_of row) s.by_key ≡ none
  pub stored : t.by_id ≡ put ℕ_discrete row.id row s.by_id
  pub indexed : t.by_key ≡ put codes_discrete (key_of row) row.id s.by_key

pub create-Created :
    (h row : Host) (now : ℕ) (s t : MemoryStore)
    → create (some h) now s ≡ ok (row, t)
    → Created h row now s t
unfolding create create_row
create-Created h row now s t e = record {
  is_row = ground arith;
  id_free = ground arith;
  key_free = ground arith;
  stored = ground arith;
  indexed = ground arith;
}

no_nil : (row : Host) (now : ℕ) (s t : MemoryStore) → create none now s ≡ ok (row, t) → ⊥
unfolding create
no_nil row now s t e = ground arith

pub create-Indexed :
    (h : Option Host) (row : Host) (now : ℕ) (s t : MemoryStore)
    → create h now s ≡ ok (row, t)
    → Indexed s
    → Indexed t
create-Indexed none row now s t e v = absurd (no_nil row now s t e)
create-Indexed (some h) row now s t e v =
    let c = create-Created h row now s t e in
    record {
      keyed =
          λ j r at. ground (arith, c.stored, get-put ℕ_discrete row.id j row s.by_id, v.keyed j r);
      keys =
          rw (c.stored, c.indexed)
            (insert-Points codes_discrete key_of id_ref s.by_id s.by_key v.keys row.id row row.id
              refl c.id_free c.key_free);
      single = rw c.stored (Unique-put ℕ_discrete row.id row s.by_id v.single);
    }

-- What `update` has found, and the table that it returns.
pub record Updated (h old row : Host) (now : ℕ) (s t : MemoryStore) : Type 0 where
  pub found : get ℕ_discrete row.id s.by_id ≡ some old
  pub is_row : row ≡ record h { created_at = old.created_at; updated_at = now }
  pub stored : t.by_id ≡ put ℕ_discrete row.id row s.by_id
  pub keys_kept :
      Points codes_discrete key_of id_ref s.by_id s.by_key
      → Points codes_discrete key_of id_ref t.by_id t.by_key

update_found-Updated :
    (h old row : Host) (now : ℕ) (s t : MemoryStore)
    → get ℕ_discrete h.id s.by_id ≡ some old
    → update_found old h now s ≡ ok (row, t)
    → Updated h old row now s t
unfolding update_found
update_found-Updated h old row now s t at e = record {
  found = ground arith;
  is_row = ground arith;
  stored = ground arith;
  keys_kept = λ p. elim (codes_discrete (remark_key h.remark) (remark_key old.remark)) [
    | yes q ↦
        let same : key_of row ≡ key_of old = ground arith in
        let index : t.by_key ≡ s.by_key = ground arith in
        let rows : t.by_id ≡ put ℕ_discrete row.id row s.by_id = ground arith in
        rw (rows, index)
          (keep-Points codes_discrete key_of id_ref s.by_id s.by_key p row.id old (ground arith) row
            same)
    | no n ↦
        let index : t.by_key
            ≡ put codes_discrete (key_of row) row.id (remove codes_discrete (key_of old) s.by_key) =
          ground arith in
        let rows : t.by_id ≡ put ℕ_discrete row.id row s.by_id = ground arith in
        let moved : key_of row ≢ key_of old = λ q. ground arith in
        rw (rows, index)
          (move-Points codes_discrete key_of id_ref s.by_id s.by_key p row.id old (ground arith) row
            row.id refl moved (ground arith))
  ];
}

pub update-Updated :
    (h : Option Host) (row : Host) (now : ℕ) (s t : MemoryStore)
    → update h now s ≡ ok (row, t)
    → (given old : Host) × (h ≡ some given) × Updated given old row now s t
unfolding update
update-Updated none row now s t e = absurd (ground arith)
update-Updated (some h) row now s t e = elim (Option-cases (get ℕ_discrete h.id s.by_id)) [
  | inl n ↦ absurd (ground arith)
  | inr (old, at) ↦ (h, old, refl, update_found-Updated h old row now s t at (ground arith))
]

pub update-Indexed :
    (h : Option Host) (row : Host) (now : ℕ) (s t : MemoryStore)
    → update h now s ≡ ok (row, t)
    → Indexed s
    → Indexed t
update-Indexed h row now s t e v =
    let (given, old, _, u) = update-Updated h row now s t e in
    record {
      keyed =
          λ j r at. ground (arith, u.stored, get-put ℕ_discrete row.id j row s.by_id, v.keyed j r);
      keys = u.keys_kept v.keys;
      single = rw u.stored (Unique-put ℕ_discrete row.id row s.by_id v.single);
    }

pub delete-Indexed : (id : ℕ) (s t : MemoryStore) → delete id s ≡ ok t → Indexed s → Indexed t
unfolding delete
delete-Indexed id s t e v = elim (Option-cases (get ℕ_discrete id s.by_id)) [
  | inl n ↦ absurd (ground arith)
  | inr (old, at) ↦
      let gone : MemoryStore = record {
        by_id = remove ℕ_discrete id s.by_id;
        by_key = remove codes_discrete (remark_key old.remark) s.by_key;
      } in
      let kept : Indexed gone = record {
        keyed = λ j r x. ground (arith, get-remove ℕ_discrete id j s.by_id, v.keyed j r);
        keys = drop-Points codes_discrete key_of id_ref s.by_id s.by_key v.keys id old at;
        single = Unique-remove ℕ_discrete id s.by_id v.single;
      } in
      subst Indexed (ground arith) kept
]

-- What is left after a delete was there before.
pub delete-left :
    (id j : ℕ) (h : Host) (s t : MemoryStore)
    → delete id s ≡ ok t
    → get ℕ_discrete j t.by_id ≡ some h
    → get ℕ_discrete j s.by_id ≡ some h
unfolding delete
delete-left id j h s t e at = ground (arith, get-remove ℕ_discrete id j s.by_id)

-- The operations that write, as steps from one store to the next.
pub data Step (s t : MemoryStore) : Type 0 where
  creates : (h : Option Host) (row : Host) (now : ℕ) → create h now s ≡ ok (row, t) → Step s t
  updates : (h : Option Host) (row : Host) (now : ℕ) → update h now s ≡ ok (row, t) → Step s t
  deletes : (id : ℕ) → delete id s ≡ ok t → Step s t

pub data Reach : MemoryStore → Type 0 where
  start : Reach new_memory_store
  next : {s t : MemoryStore} → Reach s → Step s t → Reach t

pub Step-Indexed : {s t : MemoryStore} → Step s t → Indexed s → Indexed t
Step-Indexed {s} {t} (creates h row now e) v = create-Indexed h row now s t e v
Step-Indexed {s} {t} (updates h row now e) v = update-Indexed h row now s t e v
Step-Indexed {s} {t} (deletes id e) v = delete-Indexed id s t e v

pub Reach-Indexed : {s : MemoryStore} → Reach s → Indexed s
Reach-Indexed start = new-Indexed
Reach-Indexed (next r st) = Step-Indexed st (Reach-Indexed r)

-- After any history, two hosts whose remarks agree up to the case of ASCII letters are one host.
pub remarks_unique :
    {s : MemoryStore} (i j : ℕ) (g h : Host)
    → Reach s
    → get ℕ_discrete i s.by_id ≡ some g
    → get ℕ_discrete j s.by_id ≡ some h
    → remark_key g.remark ≡ remark_key h.remark
    → i ≡ j
remarks_unique {s} i j g h r hg hh e =
    Points_unique codes_discrete key_of id_ref s.by_id s.by_key (Reach-Indexed r).keys i j g h hg hh
      e
