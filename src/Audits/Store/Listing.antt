-- ===== src/Audits/Store/Listing.antt =====
-- What the listing of audits returns.
use aegis_panel.Common.{◌≤◌, ◌≡◌, ◌⊎◌, Bool, true, List, ltb, length, In, All, Sorted}
use aegis_panel.Audits.Model.{AuditEntry, ListFilter}
use aegis_panel.Audits.Store.{MemoryStore, matches, elide, clamp}

module _ {J : Type 0} where
  abbrev pub later : AuditEntry J → AuditEntry J → Bool
  later a b = ltb b.created_at a.created_at

  -- An entry of the store that passes the filter, as a listing shows it.
  abbrev pub Shown : ListFilter → MemoryStore J → AuditEntry J → Type 0
  Shown f s shown = (e : AuditEntry J) × In e s.entries × (matches f e ≡ true) × (shown ≡ elide e)

  -- What a listing promises: the newest entries come first, at most 1000 of them, all from the log;
  -- an entry that passes the filter is there, or the listing is full of entries that are not older.
  pub record Answers (f : ListFilter) (s : MemoryStore J) (out : List (AuditEntry J)) : Type 0 where
    pub newest_first : Sorted later out
    pub bounded : length out ≤ 1000
    pub sound : All (Shown f s) out
    pub complete :
        (e : AuditEntry J)
        → In e s.entries
        → matches f e ≡ true
        → In (elide e) out
          ⊎ ((length out ≡ clamp f.limit) × All (λ shown. e.created_at ≤ shown.created_at) out)
