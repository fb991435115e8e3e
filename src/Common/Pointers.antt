-- ===== src/Common/Pointers.antt =====
-- A table of rows by id with an index by a key whose entries name a row by its id: the index holds
-- ids, or copies of rows that can be older than the row of the table.
use Prim.Native.Nat.{ℕ}
use mathlib.Core.Path.{◌≡◌}
use mathlib.Core.Logic.{◌≢◌}
use mathlib.Core.Option.{Option, none, some}
use native.Mathlib.Omega.{arith}
use native.Mathlib.Decide.{ℕ_discrete}
use aegis_panel.Common.Maps.{GoMap, get, put, remove, get-put, get-remove}

abbrev pub option_map : {A B : Type 0} → (A → B) → Option A → Option B
option_map f none = none
option_map f (some a) = some (f a)

module _ {K R V : Type 0} (d : Discrete K) (key : R → K) (ref : V → ℕ) where
  -- Each row has an entry under its key that names it, and each entry names a row with that key.
  pub record Points (rows : GoMap ℕ R) (index : GoMap K V) : Type 0 where
    pub rows_in :
        (i : ℕ) (r : R)
        → get ℕ_discrete i rows ≡ some r
        → option_map ref (get d (key r) index) ≡ some i
    pub rows_of :
        (k : K) (v : V)
        → get d k index ≡ some v
        → option_map key (get ℕ_discrete (ref v) rows) ≡ some k

  module _ (rows : GoMap ℕ R) (index : GoMap K V) (p : Points rows index) where
    -- Two rows with one key are one row.
    pub Points_unique :
        (i j : ℕ) (r s : R)
        → get ℕ_discrete i rows ≡ some r
        → get ℕ_discrete j rows ≡ some s
        → key r ≡ key s
        → i ≡ j
    Points_unique i j r s hr hs e =
        let low : option_map ref (get d (key r) index) ≡ some i = p.rows_in i r hr in
        let high : option_map ref (get d (key r) index) ≡ some j = rw e (p.rows_in j s hs) in cc

    pub insert-Points :
        (i : ℕ) (r : R) (v : V)
        → ref v ≡ i
        → get ℕ_discrete i rows ≡ none
        → get d (key r) index ≡ none
        → Points (put ℕ_discrete i r rows) (put d (key r) v index)
    insert-Points i r v e fresh free = record {
      rows_in = λ j x h.
          ground (
            arith,
            get-put ℕ_discrete i j r rows,
            get-put d (key r) (key x) v index,
            p.rows_in j x,
          );
      rows_of = λ k w h.
          ground (
            arith,
            get-put d (key r) k v index,
            get-put ℕ_discrete i (ref w) r rows,
            p.rows_of k w,
          );
    }

    module _ (i : ℕ) (old : R) (at : get ℕ_discrete i rows ≡ some old) where
      pub keep-Points : (r : R) → key r ≡ key old → Points (put ℕ_discrete i r rows) index
      keep-Points r e = record {
        rows_in = λ j x h.
            ground (arith, get-put ℕ_discrete i j r rows, p.rows_in j x, p.rows_in i old at);
        rows_of = λ k w h. ground (arith, get-put ℕ_discrete i (ref w) r rows, p.rows_of k w);
      }

      pub move-Points :
          (r : R) (v : V)
          → ref v ≡ i
          → key r ≢ key old
          → get d (key r) index ≡ none
          → Points (put ℕ_discrete i r rows) (put d (key r) v (remove d (key old) index))
      move-Points r v e moved free = record {
        rows_in = λ j x h. ground (
          arith,
          get-put ℕ_discrete i j r rows,
          get-put d (key r) (key x) v (remove d (key old) index),
          get-remove d (key old) (key x) index,
          p.rows_in j x,
          p.rows_in i old at,
        );
        rows_of = λ k w h. ground (
          arith,
          get-put d (key r) k v (remove d (key old) index),
          get-remove d (key old) k index,
          get-put ℕ_discrete i (ref w) r rows,
          p.rows_of k w,
          p.rows_in i old at,
        );
      }

      pub drop-Points : Points (remove ℕ_discrete i rows) (remove d (key old) index)
      drop-Points = record {
        rows_in = λ j x h. ground (
          arith,
          get-remove ℕ_discrete i j rows,
          get-remove d (key old) (key x) index,
          p.rows_in j x,
          p.rows_in i old at,
        );
        rows_of = λ k w h. ground (
          arith,
          get-remove d (key old) k index,
          get-remove ℕ_discrete i (ref w) rows,
          p.rows_of k w,
          p.rows_in i old at,
        );
      }
