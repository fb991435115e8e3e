-- ===== src/Common/Ranges.antt =====
-- Loops over a Go map, and `sort.Slice` as an insertion sort (where Go leaves the order of equal
-- items open, this is one of the orders).
use mathlib.Core.Path.{◌≡◌}
use mathlib.Core.Logic.{inl, inr}
use mathlib.Core.Bool.{Bool, true}
use mathlib.Core.Option.{none, some}
use mathlib.Core.List.{List, [], ◌∷◌}
use native.Mathlib.Omega.{arith}
use aegis_panel.Common.Tests.{if◌then◌else◌, Bool-cases}
use aegis_panel.Common.Lists.{All}
use aegis_panel.Common.Maps.{GoMap, get, remove, get-remove, Entries, Entries-remove}

module _ {ℓ} {A : Type ℓ} (before : A → A → Bool) where
  unfoldable pub insert_by : A → List A → List A
  insert_by x [] = x ∷ []
  insert_by x (y ∷ ys) = let rest = insert_by x ys in if before y x then y ∷ rest else x ∷ y ∷ ys

  unfoldable pub sort_by : List A → List A
  unfolding insert_by
  sort_by [] = []
  sort_by (x ∷ xs) = insert_by x (sort_by xs)

  module _ {κ} (P : A → Type κ) where
    All-insert_by : (x : A) (ys : List A) → P x → All P ys → All P (insert_by x ys)
    unfolding insert_by
    All-insert_by x [] h hs = (h, tt)
    All-insert_by x (y ∷ ys) h hs = elim (Bool-cases (before y x)) [
      | inl e ↦ rw e (hs.0, All-insert_by x ys h hs.1)
      | inr e ↦ rw e (h, hs)
    ]

    pub All-sort_by : (xs : List A) → All P xs → All P (sort_by xs)
    unfolding sort_by
    All-sort_by [] h = tt
    All-sort_by (x ∷ xs) h = All-insert_by x (sort_by xs) h.0 (All-sort_by xs h.1)

unfoldable pub vals {ℓ} : {K V : Type ℓ} → GoMap K V → List V
vals [] = []
vals ((_, v) ∷ m) = v ∷ vals m

module _ {ℓ} {K V : Type ℓ} (d : Discrete K) (doomed : V → Bool) where
  -- for k, v := range entries { if doomed(v) { delete(m, k) } }
  unfoldable pub drop_where : GoMap K V → GoMap K V → GoMap K V
  drop_where [] m = m
  drop_where ((k, v) ∷ es) m =
      let rest = drop_where es m in if doomed v then remove d k rest else rest

  -- What is left was there.
  pub drop_where_left :
      (j : K) (v : V) (es m : GoMap K V) → get d j (drop_where es m) ≡ some v → get d j m ≡ some v
  unfolding drop_where
  drop_where_left j v [] m h = h
  drop_where_left j v ((k, w) ∷ es) m h = elim (Bool-cases (doomed w)) [
    | inl e ↦ ground (arith, get-remove d k j (drop_where es m), drop_where_left j v es m)
    | inr e ↦ ground (arith, drop_where_left j v es m)
  ]

  -- What was doomed is gone.
  pub drop_where_gone :
      (j : K) (v : V) (es m : GoMap K V)
      → get d j es ≡ some v
      → doomed v ≡ true
      → get d j (drop_where es m) ≡ none
  unfolding drop_where get
  drop_where_gone j v [] m h e = cc
  drop_where_gone j v ((k, w) ∷ es) m h e =
      ground (arith, get-remove d k j (drop_where es m), drop_where_gone j v es m)

module _ {ℓ κ} {K V : Type ℓ} (d : Discrete K) (P : K → V → Type κ) where
  pub Entries-drop_where :
      (doomed : V → Bool) (es m : GoMap K V)
      → Entries d P m
      → Entries d P (drop_where d doomed es m)
  unfolding drop_where
  Entries-drop_where doomed [] m h = h
  Entries-drop_where doomed ((k, v) ∷ es) m h = elim (Bool-cases (doomed v)) [
    | inl e ↦
        rw e (Entries-remove d P k (drop_where d doomed es m) (Entries-drop_where doomed es m h))
    | inr e ↦ rw e (Entries-drop_where doomed es m h)
  ]

  -- A range over a map meets entries alone.
  pub All-vals :
      (Q : V → Type κ) (m : GoMap K V)
      → ((k : K) (v : V) → P k v → Q v)
      → Entries d P m
      → All Q (vals m)
  unfolding vals
  All-vals Q [] f h = tt
  All-vals Q ((k, v) ∷ m) f h = (f k v h.0, All-vals Q m f h.1)
