-- ===== src/Audits/Tests.antt =====
-- A log of two entries, and listings of it.
use aegis_panel.Common.{
  ℕ, String, ◌≡◌, refl, none, some, [], ◌∷◌, pos, ok, arith, sort_by, insert_by,
}
use aegis_panel.Audits.Model.{AuditEntry, Entry, ListFilter}
use aegis_panel.Audits.Store.{
  MemoryStore, new_memory_store, insert, mint, row_of, list, matches, newer, elide, clamp,
  get_by_id,
}
use aegis_panel.Audits.Store.Records.{same, next, recorded_found}
use aegis_panel.Audits.Service.{record_from_context, record_entry}

abbrev entry : String → ℕ → Entry String
entry action created_at = record {
  actor_id = "";
  actor_username = "ann";
  action = action;
  resource_type = "node";
  resource_id = "7";
  before = none;
  after = some "{}";
  ip = "";
  user_agent = "";
  created_at = created_at;
}

abbrev row : ℕ → String → ℕ → AuditEntry String
row id action created_at = record {
  id = id;
  actor_id = "";
  actor_username = "ann";
  action = action;
  resource_type = "node";
  resource_id = "7";
  before = none;
  after = some "{}";
  ip = "";
  user_agent = "";
  created_at = created_at;
}

abbrev one_entry : MemoryStore String
one_entry = record { next_id = 1; entries = row 1 "node.create" 5 ∷ [] }

abbrev two_entries : MemoryStore String
two_entries = record { next_id = 2; entries = row 1 "node.create" 5 ∷ row 2 "node.delete" 9 ∷ [] }

-- The clock gives the first time, the entry the second.
inserts_first :
    insert (entry "node.create" 0) 5 new_memory_store ≡ ok (row 1 "node.create" 5, one_entry)
unfolding insert mint row_of new_memory_store
inserts_first = refl

inserts_second :
    insert (entry "node.delete" 9) 6 one_entry ≡ ok (row 2 "node.delete" 9, two_entries)
unfolding insert mint row_of
inserts_second = refl

abbrev of_node : ListFilter
of_node = record {
  actor_id = "";
  action = "";
  resource_type = "node";
  resource_id = "";
  since = 0;
  until = 0;
  limit = pos 1;
}

-- The newer one, without its state.
lists_newest : list of_node two_entries ≡ record (row 2 "node.delete" 9) { after = none } ∷ []
unfolding list matches newer elide clamp sort_by insert_by
lists_newest = refl

abbrev acted : MemoryStore String
acted = record { next_id = 1; entries = record (row 1 "node.create" 4) { actor_id = "u1" } ∷ [] }

-- The actor comes from the claims; an entry without an action is dropped, and one with them takes the time of the service's clock.
records_actor :
    (record_from_context (some "u1") (entry "" 0) 4 5 (some one_entry) ≡ some one_entry)
    × (record_from_context (some "u1") (entry "node.create" 0) 4 5 (some new_memory_store)
        ≡ some acted)
unfolding record_from_context record_entry insert mint row_of new_memory_store
records_actor = (refl, refl)

recorded_found_example : get_by_id 1 two_entries ≡ ok (row 1 "node.create" 5)
recorded_found_example =
    recorded_found (entry "node.create" 0) 5 (row 1 "node.create" 5) same inserts_first
      (omega arith) (next (entry "node.delete" 9) 6 (row 2 "node.delete" 9) same inserts_second)
