-- ===== src/Common/Index.antt =====
-- A table of rows by id with an index by another key, as the in-memory stores keep them: the index
-- holds the row under its key, unless the key is one that is left out (the empty text).
use Prim.Native.Nat.{ℕ}
use mathlib.Core.Path.{◌≡◌}
use mathlib.Core.Logic.{◌≢◌}
use mathlib.Core.Bool.{Bool, true}
use mathlib.Core.Option.{none, some}
use native.Mathlib.Omega.{arith}
use native.Mathlib.Decide.{ℕ_discrete}
use aegis_panel.Common.Tests.{if◌then◌else◌}
use aegis_panel.Common.Maps.{GoMap, get, put, remove, get-put, get-remove}

module _ {K R : Type 0} (d : Discrete K) (id : R → ℕ) (key : R → K) (indexed : K → Bool) where
  -- Every row lies under its own id.
  abbrev pub WellKeyed : GoMap ℕ R → Type 0
  WellKeyed rows = (i : ℕ) (r : R) → get ℕ_discrete i rows ≡ some r → id r ≡ i

  abbrev pub enter : R → GoMap K R → GoMap K R
  enter r index = if indexed (key r) then put d (key r) r index else index

  abbrev pub leave : R → GoMap K R → GoMap K R
  leave r index = if indexed (key r) then remove d (key r) index else index

  pub record IsIndex (rows : GoMap ℕ R) (index : GoMap K R) : Type 0 where
    pub rows_in :
        (i : ℕ) (r : R)
        → get ℕ_discrete i rows ≡ some r
        → indexed (key r) ≡ true
        → get d (key r) index ≡ some r
    pub rows_of :
        (k : K) (r : R)
        → get d k index ≡ some r
        → (key r ≡ k) × (indexed k ≡ true) × (get ℕ_discrete (id r) rows ≡ some r)

  module _ (rows : GoMap ℕ R) (index : GoMap K R) (v : IsIndex rows index) where
    -- Two rows with one key are one row.
    pub key_unique :
        (i j : ℕ) (r s : R)
        → WellKeyed rows
        → get ℕ_discrete i rows ≡ some r
        → get ℕ_discrete j rows ≡ some s
        → key r ≡ key s
        → indexed (key r) ≡ true
        → i ≡ j
    key_unique i j r s w hr hs e x =
        ground (arith, v.rows_in i r hr x, v.rows_in j s hs (rw (← e) x), w i r hr, w j s hs)

    pub insert-IsIndex :
        (r : R)
        → WellKeyed rows
        → get ℕ_discrete (id r) rows ≡ none
        → (indexed (key r) ≡ true → get d (key r) index ≡ none)
        → IsIndex (put ℕ_discrete (id r) r rows) (enter r index)
    insert-IsIndex r w fresh free = record {
      rows_in = λ i x h t. ground (
        arith,
        get-put ℕ_discrete (id r) i r rows,
        get-put d (key r) (key x) r index,
        v.rows_in i x,
      );
      rows_of = λ k x h. ground (
        arith,
        get-put d (key r) k r index,
        get-put ℕ_discrete (id r) (id x) r rows,
        v.rows_of k x,
      );
    }

    module _ (old : R) (w : WellKeyed rows) (at : get ℕ_discrete (id old) rows ≡ some old) where
      pub replace-IsIndex :
          (r : R)
          → id r ≡ id old
          → (indexed (key r) ≡ true → key old ≢ key r → get d (key r) index ≡ none)
          → IsIndex (put ℕ_discrete (id r) r rows) (enter r (leave old index))
      replace-IsIndex r same free = record {
        rows_in = λ i x h t. ground (
          arith,
          get-put ℕ_discrete (id r) i r rows,
          get-put d (key r) (key x) r (leave old index),
          get-remove d (key old) (key x) index,
          v.rows_in i x,
          v.rows_in (id old) old at,
          w i x,
          w (id old) old at,
        );
        rows_of = λ k x h. ground (
          arith,
          get-put d (key r) k r (leave old index),
          get-remove d (key old) k index,
          get-put ℕ_discrete (id r) (id x) r rows,
          v.rows_of k x,
          v.rows_in (id old) old at,
          w (id old) old at,
        );
      }

      pub delete-IsIndex : IsIndex (remove ℕ_discrete (id old) rows) (leave old index)
      delete-IsIndex = record {
        rows_in = λ i x h t. ground (
          arith,
          get-remove ℕ_discrete (id old) i rows,
          get-remove d (key old) (key x) index,
          v.rows_in i x,
          v.rows_in (id old) old at,
          w i x,
        );
        rows_of = λ k x h. ground (
          arith,
          get-remove d (key old) k index,
          get-remove ℕ_discrete (id old) (id x) rows,
          v.rows_of k x,
          v.rows_in (id old) old at,
        );
      }

  pub put-WellKeyed :
      (r : R) (rows : GoMap ℕ R) → WellKeyed rows → WellKeyed (put ℕ_discrete (id r) r rows)
  put-WellKeyed r rows w i x h = ground (arith, get-put ℕ_discrete (id r) i r rows, w i x)

  pub remove-WellKeyed :
      (k : ℕ) (rows : GoMap ℕ R) → WellKeyed rows → WellKeyed (remove ℕ_discrete k rows)
  remove-WellKeyed k rows w i x h = ground (arith, get-remove ℕ_discrete k i rows, w i x)
