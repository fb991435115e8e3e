-- ===== src/Common/Maps.antt =====
-- Go's `map[K]V` as an association list with one entry to a key. A range over a map visits the
-- entries in an order that Go leaves open: here it is the order of the list, which the theorems
-- leave open too.
use Prim.Native.Nat.{◌+◌, ◌≤◌, ◌<◌}
use mathlib.Core.Path.{◌≡◌, subst}
use mathlib.Core.Logic.{◌≢◌, ite, if_pos, if_neg}
use mathlib.Core.Option.{Option, none, some, some-injective}
use mathlib.Core.List.{List, [], ◌∷◌}
use native.Mathlib.Omega.{arith}
use aegis_panel.Common.Lists.{length}

abbrev pub GoMap {ℓ} : Type ℓ → Type ℓ → Type ℓ
GoMap K V = List (K × V)

module _ {ℓ} {K V : Type ℓ} (d : Discrete K) where
  -- v, ok := m[k]
  unfoldable pub get : K → GoMap K V → Option V
  get k [] = none
  get k ((j, v) ∷ m) = ite (d j k) (some v) (get k m)

  -- delete(m, k)
  unfoldable pub remove : K → GoMap K V → GoMap K V
  remove k [] = []
  remove k ((j, v) ∷ m) = let rest = remove k m in ite (d j k) rest ((j, v) ∷ rest)

  -- m[k] = v
  unfoldable pub put : K → V → GoMap K V → GoMap K V
  unfolding remove
  put k v m = (k, v) ∷ remove k m

  pub get-remove : (k j : K) (m : GoMap K V) → get j (remove k m) ≡ ite (d k j) none (get j m)
  unfolding get remove
  get-remove k j [] = ground arith
  get-remove k j ((i, v) ∷ m) = ground (arith, get-remove k j m)

  pub get-put :
      (k j : K) (v : V) (m : GoMap K V) → get j (put k v m) ≡ ite (d k j) (some v) (get j m)
  unfolding get put
  get-put k j v m = ground (arith, get-remove k j m)

  pub get-put_self : (k : K) (v : V) (m : GoMap K V) → get k (put k v m) ≡ some v
  get-put_self k v m = ground (arith, get-put k k v m)

  pub get-put_ne : (k j : K) (v : V) (m : GoMap K V) → k ≢ j → get j (put k v m) ≡ get j m
  get-put_ne k j v m h = ground (arith, get-put k j v m)

  pub get-remove_self : (k : K) (m : GoMap K V) → get k (remove k m) ≡ none
  get-remove_self k m = ground (arith, get-remove k k m)

  -- Each key has one entry.
  abbrev pub Unique : GoMap K V → Type ℓ
  Unique [] = Unit
  Unique ((k, v) ∷ m) = (get k m ≡ none) × Unique m

  pub Unique-remove : (k : K) (m : GoMap K V) → Unique m → Unique (remove k m)
  unfolding remove
  Unique-remove k [] h = tt
  Unique-remove k ((j, v) ∷ m) h = elim (d j k) [
    | yes p ↦ rw (if_pos _ p) (Unique-remove k m h.1)
    | no p ↦ rw (if_neg _ p) (ground (arith, get-remove k j m), Unique-remove k m h.1)
  ]

  pub Unique-put : (k : K) (v : V) (m : GoMap K V) → Unique m → Unique (put k v m)
  unfolding put
  Unique-put k v m h = (ground (arith, get-remove k k m), Unique-remove k m h)

  pub length-remove-le : (k : K) (m : GoMap K V) → length (remove k m) ≤ length m
  unfolding remove
  length-remove-le k [] = omega arith
  length-remove-le k ((j, v) ∷ m) = ground (arith, length-remove-le k m)

  pub length-remove-lt :
      (k : K) (m : GoMap K V) {v : V} → get k m ≡ some v → length (remove k m) < length m
  unfolding get remove
  length-remove-lt k [] h = cc
  length-remove-lt k ((j, w) ∷ m) {v} h =
      ground (arith, length-remove-le k m, length-remove-lt k m {v = v})

  pub length-put-le : (k : K) (v : V) (m : GoMap K V) → length (put k v m) ≤ length m + 1
  unfolding put
  length-put-le k v m = omega (arith, length-remove-le k m)

  pub length-put_old :
      (k : K) (v : V) (m : GoMap K V) {w : V} → get k m ≡ some w → length (put k v m) ≤ length m
  unfolding put
  length-put_old k v m h = omega (arith, length-remove-lt k m h)

  module _ {κ} (P : K → V → Type κ) where
    -- A property of every entry.
    abbrev pub Entries : GoMap K V → Type κ
    Entries [] = Unit
    Entries ((k, v) ∷ m) = P k v × Entries m

    pub Entries-remove : (k : K) (m : GoMap K V) → Entries m → Entries (remove k m)
    unfolding remove
    Entries-remove k [] h = tt
    Entries-remove k ((j, v) ∷ m) h = elim (d j k) [
      | yes p ↦ rw (if_pos _ p) (Entries-remove k m h.1)
      | no p ↦ rw (if_neg _ p) (h.0, Entries-remove k m h.1)
    ]

    pub Entries-put : (k : K) (v : V) (m : GoMap K V) → P k v → Entries m → Entries (put k v m)
    unfolding put
    Entries-put k v m p h = (p, Entries-remove k m h)

    pub Entries-get : (k : K) (v : V) (m : GoMap K V) → Entries m → get k m ≡ some v → P k v
    unfolding get
    Entries-get k v [] h e = cc
    Entries-get k v ((j, w) ∷ m) h e = elim (d j k) [
      | yes p ↦
          let q : w ≡ v = some-injective w v (rw (if_pos _ p) at e) in
          subst (P k) q (subst (λ i. P i w) p h.0)
      | no p ↦ Entries-get k v m h.1 (rw (if_neg _ p) at e)
    ]
