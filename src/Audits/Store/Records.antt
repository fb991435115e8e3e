-- ===== src/Audits/Store/Records.antt =====
-- The log only grows: what is recorded stays, and its id finds it.
use aegis_panel.Common.{
  ℕ, suc, ◌+◌, ◌<◌, ◌^◌, ◌≡◌, refl, List, [], ◌∷◌, ◌++◌, arith, length, length-append, subst, sym,
  ap, ◌∙◌,
}
use aegis_panel.Audits.Model.{AuditEntry, Entry, ok}
use aegis_panel.Audits.Store.{
  MemoryStore, new_memory_store, mint, insert, row_of, find_entry, get_by_id,
}

module _ {J : Type 0} where
  -- The stores that insertions lead to.
  pub data Later (s : MemoryStore J) : MemoryStore J → Type 0 where
    same : Later s s
    next :
        {t u : MemoryStore J} (e : Entry J) (now : ℕ) (row : AuditEntry J)
        → Later s t
        → insert e now t ≡ ok (row, u)
        → Later s u

  -- The ids after `k`, one after the other.
  abbrev Numbered : ℕ → List (AuditEntry J) → Type 0
  Numbered k [] = Unit
  Numbered k (e ∷ es) = (e.id ≡ suc k) × Numbered (suc k) es

  append-Numbered :
      (k : ℕ) (es : List (AuditEntry J)) (row : AuditEntry J)
      → Numbered k es
      → row.id ≡ suc (k + length es)
      → Numbered k (es ++ row ∷ [])
  append-Numbered k [] row h e = (omega arith, tt)
  append-Numbered k (x ∷ es) row h e = (h.0, append-Numbered (suc k) es row h.1 (omega arith))

  find_appended :
      (k : ℕ) (es : List (AuditEntry J)) (row : AuditEntry J)
      → Numbered k es
      → row.id ≡ suc (k + length es)
      → find_entry row.id (es ++ row ∷ []) ≡ ok row
  unfolding find_entry
  find_appended k [] row h e = ground arith
  find_appended k (x ∷ es) row h e =
      ground (arith, find_appended (suc k) es row h.1 (omega arith), h.0)

  find_kept :
      (id : ℕ) (es : List (AuditEntry J)) (row last : AuditEntry J)
      → find_entry id es ≡ ok row
      → find_entry id (es ++ last ∷ []) ≡ ok row
  unfolding find_entry
  find_kept id [] row last h = cc
  find_kept id (x ∷ es) row last h = ground (arith, find_kept id es row last)

  inserted :
      (e : Entry J) (now : ℕ) (s t : MemoryStore J) (row : AuditEntry J)
      → insert e now s ≡ ok (row, t)
      → (row.id ≡ mint s) × (t.next_id ≡ mint s) × (t.entries ≡ s.entries ++ row ∷ [])
  unfolding insert row_of
  inserted e now s t row h = ground arith

  -- An id finds the same entry for ever.
  get_by_id-stays :
      {s t : MemoryStore J} (id : ℕ) (row : AuditEntry J)
      → Later s t
      → get_by_id id s ≡ ok row
      → get_by_id id t ≡ ok row
  unfolding get_by_id
  get_by_id-stays id row same h = h
  get_by_id-stays {t = u} id row (next {t} e now last l step) h =
      let (_, _, q) = inserted e now t u last step in
      subst (λ es. find_entry id es ≡ ok row) (sym q)
        (find_kept id t.entries row last (get_by_id-stays id row l h))

  -- The ids are 1, 2, … while the counter has not wrapped around.
  abbrev Counted : MemoryStore J → Type 0
  Counted s = length s.entries < 2 ^ 64 → (s.next_id ≡ length s.entries) × Numbered 0 s.entries

  minted :
      (e : Entry J) (now : ℕ) (s t : MemoryStore J) (row : AuditEntry J)
      → Counted s
      → insert e now s ≡ ok (row, t)
      → length t.entries < 2 ^ 64
      → Numbered 0 s.entries × (row.id ≡ suc (length s.entries)) × (t.next_id ≡ row.id)
  unfolding mint
  minted e now s t row h step few =
      let (i, n, q) = inserted e now s t row step in
      let longer : length t.entries ≡ length s.entries + 1 =
        ap length q ∙ length-append s.entries (row ∷ []) in
      let (count, numbered) = h (omega arith) in (numbered, omega arith, n ∙ sym i)

  insert-Counted :
      (e : Entry J) (now : ℕ) (s t : MemoryStore J) (row : AuditEntry J)
      → Counted s
      → insert e now s ≡ ok (row, t)
      → Counted t
  insert-Counted e now s t row h step few =
      let (i, n, q) = inserted e now s t row step in
      let (numbered, id, count) = minted e now s t row h step few in
      (
        omega (arith, ap length q ∙ length-append s.entries (row ∷ [])),
        subst (Numbered 0) (sym q) (append-Numbered 0 s.entries row numbered (omega arith)),
      )

  Later-Counted : {s : MemoryStore J} → Later new_memory_store s → Counted s
  unfolding new_memory_store
  Later-Counted same = λ few. (refl, tt)
  Later-Counted {s = u} (next {t} e now row l step) =
      insert-Counted e now t u row (Later-Counted l) step

  -- After fewer than 2^64 insertions, the id of a recorded entry finds the entry in full, whatever is
  -- recorded after it.
  pub recorded_found :
      {s t u : MemoryStore J} (e : Entry J) (now : ℕ) (row : AuditEntry J)
      → Later new_memory_store s
      → insert e now s ≡ ok (row, t)
      → length t.entries < 2 ^ 64
      → Later t u
      → get_by_id row.id u ≡ ok row
  unfolding get_by_id
  recorded_found {s} {t} e now row l step few later =
      let (i, n, q) = inserted e now s t row step in
      let (numbered, id, _) = minted e now s t row (Later-Counted l) step few in
      get_by_id-stays row.id row later (
        subst (λ es. find_entry row.id es ≡ ok row) (sym q)
          (find_appended 0 s.entries row numbered (omega arith)))
