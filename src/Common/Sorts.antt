-- ===== src/Common/Sorts.antt =====
-- What the insertion sort that stands for `sort.Slice` returns.
use Prim.Native.Nat.{ℕ, zero, suc}
use mathlib.Core.Path.{◌≡◌, refl, sym, ap, subst}
use mathlib.Core.Logic.{inl, inr, ◌⊎◌}
use mathlib.Core.Bool.{Bool, true, false, ◌||◌}
use mathlib.Core.List.{List, [], ◌∷◌, map}
use native.Mathlib.Omega.{arith}
use aegis_panel.Common.Tests.{Bool-cases}
use aegis_panel.Common.Lists.{All, In, length, take}
use aegis_panel.Common.Ranges.{insert_by, sort_by}
use aegis_panel.Common.Distinct.{member}

module _ {A : Type 0} (before : A → A → Bool) where
  -- No item comes before its predecessor.
  abbrev pub Sorted : List A → Type 0
  Sorted [] = Unit
  Sorted (x ∷ []) = Unit
  Sorted (x ∷ y ∷ zs) = (before y x ≡ false) × Sorted (y ∷ zs)

  module _ (asym : (x y : A) → before x y ≡ true → before y x ≡ false) where
    insert-Sorted : (x : A) (ys : List A) → Sorted ys → Sorted (insert_by before x ys)
    unfolding insert_by
    insert-Sorted x [] h = tt
    insert-Sorted x (y ∷ []) h = elim (Bool-cases (before y x)) [
      | inl e ↦ rw e (asym y x e, tt)
      | inr e ↦ rw e (e, tt)
    ]
    insert-Sorted x (y ∷ z ∷ zs) h = elim (Bool-cases (before y x)) [
      | inr e ↦ rw e (e, h)
      | inl e ↦
          let rest = insert-Sorted x (z ∷ zs) h.1 in
          elim (Bool-cases (before z x)) [
            | inl f ↦ rw (e, f) (h.0, rw f at rest)
            | inr f ↦ rw (e, f) (asym y x e, rw f at rest)
          ]
    ]

    pub sort-Sorted : (xs : List A) → Sorted (sort_by before xs)
    unfolding sort_by
    sort-Sorted [] = tt
    sort-Sorted (x ∷ xs) = insert-Sorted x (sort_by before xs) (sort-Sorted xs)

  -- The sort keeps the items.
  In-insert_by : (q x : A) (ys : List A) → In q (x ∷ ys) → In q (insert_by before x ys)
  unfolding insert_by
  In-insert_by q x [] m = m
  In-insert_by q x (y ∷ ys) m = elim (Bool-cases (before y x)) [
    | inr e ↦ rw e m
    | inl e ↦ rw e (elim m [
      | inl at ↦ inr (In-insert_by q x ys (inl at))
      | inr (inl at) ↦ inl at
      | inr (inr later) ↦ inr (In-insert_by q x ys (inr later))
    ])
  ]

  pub In-sort_by : (q : A) (xs : List A) → In q xs → In q (sort_by before xs)
  unfolding sort_by
  In-sort_by q [] m = absurd m
  In-sort_by q (x ∷ xs) (inl at) = In-insert_by q x (sort_by before xs) (inl at)
  In-sort_by q (x ∷ xs) (inr m) = In-insert_by q x (sort_by before xs) (inr (In-sort_by q xs m))

  pub take-Sorted : (n : ℕ) (xs : List A) → Sorted xs → Sorted (take n xs)
  take-Sorted zero xs h = tt
  take-Sorted (suc n) [] h = tt
  take-Sorted (suc zero) (x ∷ xs) h = tt
  take-Sorted (suc (suc n)) (x ∷ []) h = tt
  take-Sorted (suc (suc n)) (x ∷ y ∷ zs) h = (h.0, take-Sorted (suc n) (y ∷ zs) h.1)

  module _
      (trans : (x y z : A) → before y x ≡ false → before z y ≡ false → before z x ≡ false) where
    head-first : (q x : A) (xs : List A) → Sorted (x ∷ xs) → In q xs → before q x ≡ false
    head-first q x [] h m = absurd m
    head-first q x (y ∷ ys) h (inl at) = subst (λ z. before z x ≡ false) (sym at) h.0
    head-first q x (y ∷ ys) h (inr m) = trans x y q h.0 (head-first q y ys h.1 m)

    tail-Sorted : (x : A) (xs : List A) → Sorted (x ∷ xs) → Sorted xs
    tail-Sorted x [] h = tt
    tail-Sorted x (y ∷ ys) h = h.1

    -- What the start of a sorted list leaves out does not come before what it has.
    pub take_first :
        (q : A) (n : ℕ) (xs : List A)
        → Sorted xs
        → In q xs
        → In q (take n xs) ⊎ ((length (take n xs) ≡ n) × All (λ x. before q x ≡ false) (take n xs))
    take_first q zero xs h m = inr (refl, tt)
    take_first q (suc n) [] h m = absurd m
    take_first q (suc n) (x ∷ xs) h (inl at) = inl (inl at)
    take_first q (suc n) (x ∷ xs) h (inr m) = elim (take_first q n xs (tail-Sorted x xs h) m) [
      | inl found ↦ inl (inr found)
      | inr (full, all) ↦ inr (ap suc full, (head-first q x xs h m, all))
    ]

  module _ {B : Type 0} (key : A → B) (same : B → B → Bool) where
    -- The sort keeps the items.
    member-insert :
        (q : B) (x : A) (ys : List A)
        → member same q (map key (insert_by before x ys))
          ≡ (same (key x) q || member same q (map key ys))
    unfolding insert_by
    member-insert q x [] = ground arith
    member-insert q x (y ∷ ys) = elim (Bool-cases (before y x)) [
      | inl e ↦ rw e (ground (arith, member-insert q x ys))
      | inr e ↦ rw e (ground arith)
    ]

    pub member-sort :
        (q : B) (xs : List A)
        → member same q (map key (sort_by before xs)) ≡ member same q (map key xs)
    unfolding sort_by
    member-sort q [] = ground arith
    member-sort q (x ∷ xs) = ground (arith, member-insert q x (sort_by before xs), member-sort q xs)
