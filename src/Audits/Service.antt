-- ===== src/Audits/Service.antt =====
-- backend/internal/audits/service.go, and RecordFromContext of handler.go. The warning that Record logs is not modelled.
use aegis_panel.Common.{ℕ, List, is_neg, String, Option, none, some}
use aegis_panel.Audits.Model.{
  AuditEntry, Entry, ListFilter, negative_limit, Result, ok, err, ◌>>◌, fail_if,
}
use aegis_panel.Audits.Store.{MemoryStore, or_now, insert}
use aegis_panel.Audits.Store as Store

module _ {J : Type 0} where
  -- The clocks of the service and of the store are `now` and `store_now`.
  unfoldable pub record_entry :
      Entry J → ℕ → ℕ → MemoryStore J → Result (AuditEntry J × MemoryStore J)
  record_entry e now store_now s =
      insert (record e { created_at = or_now e.created_at now }) store_now s

  unfoldable pub list : ListFilter → MemoryStore J → Result (List (AuditEntry J))
  list f s = do fail_if (is_neg f.limit) negative_limit; ok (Store.list f s)

  unfoldable pub get_by_id : ℕ → MemoryStore J → Result (AuditEntry J)
  get_by_id id s = Store.get_by_id id s

  abbrev acting : Option String → Entry J → Entry J
  acting none e = e
  acting (some subject) e = record e { actor_id = subject }

  -- `if svc == nil { return }`, and errors are dropped: the log after the call, for the subject of the
  -- claims in the context.
  unfoldable pub record_from_context :
      Option String → Entry J → ℕ → ℕ → Option (MemoryStore J) → Option (MemoryStore J)
  unfolding record_entry
  record_from_context claims e now store_now none = none
  record_from_context claims e now store_now (some s) =
      elim (record_entry (acting claims e) now store_now s) [
        | err why ↦ some s
        | ok (row, t) ↦ some t
      ]
