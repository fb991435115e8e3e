-- ===== src/Audits/Store.antt =====
-- backend/internal/audits/store.go. A store's clock is the argument `now`; time 0 is the zero time.
-- Each method is one step: the id of an insertion is minted by an atomic addition, and one mutex
-- guards the entries.
pub mod Listing
pub mod Records
use aegis_panel.Common.{
  ℕ, ◌+◌, ◌%◌, ◌^◌, String, Bool, true, false, not, ◌&&◌, none, some, List, [], ◌∷◌, ◌++◌, map,
  ◌==◌, ltb, is_text, ℤ, is_above, is_below, pos, negsuc, if◌then◌else◌, sort_by, select, take,
}
use aegis_panel.Audits.Model.{
  AuditEntry, Entry, ListFilter, default_list_limit, max_list_limit, action_required,
  resource_type_required, not_found, Result, ok, err, ◌>>=◌, ◌>>◌, fail_if,
}

pub record MemoryStore (J : Type 0) : Type 0 where
  pub next_id : ℕ
  pub entries : List (AuditEntry J)

-- createdAt, or the clock where it is zero.
abbrev pub or_now : ℕ → ℕ → ℕ
or_now t now = if t == 0 then now else t

-- if f.X != "" && e.X != f.X { continue }
abbrev pub passes : String → String → Bool
passes wanted found = if is_text wanted "" then true else is_text found wanted

-- The limit that a listing works with.
unfoldable pub clamp : ℤ → ℕ
clamp (negsuc n) = default_list_limit
clamp (pos n) =
    if n == 0 then default_list_limit else if ltb max_list_limit n then max_list_limit else n

module _ {J : Type 0} where
  unfoldable pub new_memory_store : MemoryStore J
  new_memory_store = record { next_id = 0; entries = [] }

  -- atomic.AddUint64(&s.nextID, 1)
  unfoldable pub mint : MemoryStore J → ℕ
  mint s = (s.next_id + 1) % 2 ^ 64

  unfoldable pub row_of : Entry J → ℕ → ℕ → AuditEntry J
  row_of e id created_at = record {
    id = id;
    actor_id = e.actor_id;
    actor_username = e.actor_username;
    action = e.action;
    resource_type = e.resource_type;
    resource_id = e.resource_id;
    before = e.before;
    after = e.after;
    ip = e.ip;
    user_agent = e.user_agent;
    created_at = created_at;
  }

  unfoldable pub insert : Entry J → ℕ → MemoryStore J → Result (AuditEntry J × MemoryStore J)
  unfolding mint row_of
  insert e now s = do
    fail_if (is_text e.action "") action_required
    fail_if (is_text e.resource_type "") resource_type_required
    let row = row_of e (mint s) (or_now e.created_at now)
    ok (row, record { next_id = mint s; entries = s.entries ++ row ∷ [] })

  unfoldable pub matches : ListFilter → AuditEntry J → Bool
  matches f e =
      if not (passes f.actor_id e.actor_id)
      then false
      else if not (passes f.action e.action)
      then false
      else if not (passes f.resource_type e.resource_type)
      then false
      else if not (passes f.resource_id e.resource_id)
      then false
      else if not (f.since == 0) && ltb e.created_at f.since
      then false
      else if not (f.until == 0) && ltb f.until e.created_at
      then false
      else true

  -- matched[i].CreatedAt.After(matched[j].CreatedAt)
  unfoldable pub newer : AuditEntry J → AuditEntry J → Bool
  newer a b = ltb b.created_at a.created_at

  -- The copy in a list is without the recorded states.
  unfoldable pub elide : AuditEntry J → AuditEntry J
  elide e = record e { before = none; after = none }

  unfoldable pub list : ListFilter → MemoryStore J → List (AuditEntry J)
  unfolding matches newer elide clamp sort_by
  list f s = map elide (take (clamp f.limit) (sort_by newer (select (matches f) s.entries)))

  unfoldable pub find_entry : ℕ → List (AuditEntry J) → Result (AuditEntry J)
  find_entry id [] = err not_found
  find_entry id (e ∷ es) = let rest = find_entry id es in if e.id == id then ok e else rest

  unfoldable pub get_by_id : ℕ → MemoryStore J → Result (AuditEntry J)
  unfolding find_entry
  get_by_id id s = find_entry id s.entries
