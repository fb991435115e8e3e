-- ===== src/Common/Distinct.antt =====
-- Loops that skip what they have seen, as the code writes them with a map of seen items.
use mathlib.Core.Path.{◌≡◌}
use mathlib.Core.Logic.{◌↔◌, inl, inr}
use mathlib.Core.Bool.{Bool, true, false, not, ◌&&◌}
use mathlib.Core.List.{List, [], ◌∷◌}
use native.Mathlib.Omega.{arith}
use aegis_panel.Common.Tests.{if◌then◌else◌, Bool-cases}

-- _, ok := seen[x]
abbrev pub member : {A : Type 0} → (A → A → Bool) → A → List A → Bool
member same x [] = false
member same x (y ∷ ys) = let rest = member same x ys in if same y x then true else rest

-- A loop that skips the items seen before.
unfoldable pub distinct_from : {A : Type 0} → (A → A → Bool) → List A → List A → List A
distinct_from same seen [] = []
distinct_from same seen (x ∷ xs) =
    let old = distinct_from same seen xs in
    let new = distinct_from same (x ∷ seen) xs in if member same x seen then old else x ∷ new

module _ {A : Type 0} (same : A → A → Bool) where
  -- Each item once.
  abbrev pub NoRepeat : List A → Type 0
  NoRepeat [] = Unit
  NoRepeat (x ∷ xs) = (member same x xs ≡ false) × NoRepeat xs

  module _ (same_iff : (x y : A) → (same x y ≡ true) ↔ (x ≡ y)) where
    -- The loop keeps just the items that were not seen before.
    pub member-distinct_from :
        (seen xs : List A) (q : A)
        → member same q (distinct_from same seen xs)
          ≡ (member same q xs && not (member same q seen))
    unfolding distinct_from
    member-distinct_from seen [] q = ground arith
    member-distinct_from seen (x ∷ xs) q = elim (Bool-cases (member same x seen)) [
      | inl e ↦ ground (arith, member-distinct_from seen xs q, same_iff x q)
      | inr e ↦ ground (arith, member-distinct_from (x ∷ seen) xs q, same_iff x q)
    ]

    pub distinct_from-NoRepeat : (seen xs : List A) → NoRepeat (distinct_from same seen xs)
    unfolding distinct_from
    distinct_from-NoRepeat seen [] = tt
    distinct_from-NoRepeat seen (x ∷ xs) = elim (Bool-cases (member same x seen)) [
      | inl e ↦ rw e (distinct_from-NoRepeat seen xs)
      | inr e ↦ rw e (
        ground (arith, member-distinct_from (x ∷ seen) xs x, same_iff x x),
        distinct_from-NoRepeat (x ∷ seen) xs,
      )
    ]
