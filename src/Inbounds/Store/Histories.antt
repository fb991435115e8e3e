-- ===== src/Inbounds/Store/Histories.antt =====
-- The inbound store over any history of calls that succeed.
use aegis_panel.Common.{ℕ, ℕ_discrete, get, ◌≡◌, ◌⊎◌, Option, some, inl, inr, arith, Points_unique}
use aegis_panel.Inbounds.Model.{Inbound, ok}
use aegis_panel.Inbounds.Store.{
  MemoryStore, NodeKey_discrete, NodePortKey_discrete, node_key, node_port_key, new_memory_store,
  create, update, delete,
}
use aegis_panel.Inbounds.Store.Slots.{
  Indexed, id_of, new-Indexed, create-Indexed, update-Indexed, delete-Indexed,
}

-- The calls that succeed, as steps from one store to the next.
pub data Step (s t : MemoryStore) : Type 0 where
  creates : (i : Option Inbound) (row : Inbound) (now : ℕ) → create i now s ≡ ok (row, t) → Step s t
  updates : (i : Option Inbound) (row : Inbound) (now : ℕ) → update i now s ≡ (ok row, t) → Step s t
  deletes : (id : ℕ) → delete id s ≡ ok t → Step s t

pub data Reach : MemoryStore → Type 0 where
  start : Reach new_memory_store
  next : {s t : MemoryStore} → Reach s → Step s t → Reach t

pub Step-Indexed : {s t : MemoryStore} → Step s t → Indexed s → Indexed t
Step-Indexed {s} {t} (creates i row now h) v = create-Indexed i row now s t h v
Step-Indexed {s} {t} (updates i row now h) v = update-Indexed i row now s t h v
Step-Indexed {s} {t} (deletes id h) v = delete-Indexed id s t h v

pub Reach-Indexed : {s : MemoryStore} → Reach s → Indexed s
Reach-Indexed start = new-Indexed
Reach-Indexed (next r st) = Step-Indexed st (Reach-Indexed r)

-- After any history of calls that succeed, two inbounds of one node with one name, or with one
-- primary port, are one inbound.
pub slots_unique :
    {s : MemoryStore} (i j : ℕ) (a b : Inbound)
    → Reach s
    → get ℕ_discrete i s.by_id ≡ some a
    → get ℕ_discrete j s.by_id ≡ some b
    → a.node_id ≡ b.node_id
    → (a.name ≡ b.name) ⊎ (a.listen_port ≡ b.listen_port)
    → i ≡ j
slots_unique {s} i j a b r ha hb n (inl e) =
    Points_unique NodeKey_discrete node_key id_of s.by_id s.by_node_key (Reach-Indexed r).names i j
      a b ha hb (ground arith)
slots_unique {s} i j a b r ha hb n (inr e) =
    Points_unique NodePortKey_discrete node_port_key id_of s.by_id s.by_node_port
      (Reach-Indexed r).ports i j a b ha hb (ground arith)
