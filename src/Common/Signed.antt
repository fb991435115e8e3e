-- ===== src/Common/Signed.antt =====
-- Go's signed integers: the sign and size of a value, as far as the panel reads them (comparisons
-- with constants). Values lie in the range of their Go type.
use Prim.Native.Nat.{ℕ, ◌+◌, ◌-◌}
use mathlib.Core.Path.{ap}
use mathlib.Core.Logic.{◌≢◌}
use native.Mathlib.Omega.{arith}
use mathlib.Core.Bool.{Bool, true, false}
use native.Mathlib.Decide.{ℕ_discrete}
use aegis_panel.Common.Tests.{ltb, if◌then◌else◌}

-- `negsuc n` is -(n + 1).
pub data ℤ : Type 0 where
  pos : ℕ → ℤ
  negsuc : ℕ → ℤ

-- z < 0
abbrev pub is_neg : ℤ → Bool
is_neg (pos n) = false
is_neg (negsuc n) = true

-- z < n
abbrev pub is_below : ℤ → ℕ → Bool
is_below (pos m) n = ltb m n
is_below (negsuc m) n = true

-- z > n
abbrev pub is_above : ℤ → ℕ → Bool
is_above (pos m) n = ltb n m
is_above (negsuc m) n = false

-- y + z
abbrev pub add_signed : ℤ → ℤ → ℤ
add_signed (pos m) (pos n) = pos (m + n)
add_signed (pos m) (negsuc n) = if ltb n m then pos (m - n - 1) else negsuc (n - m)
add_signed (negsuc m) (pos n) = if ltb m n then pos (n - m - 1) else negsuc (m - n)
add_signed (negsuc m) (negsuc n) = negsuc (m + n + 1)

-- y < z
abbrev pub lt_signed : ℤ → ℤ → Bool
lt_signed (pos m) (pos n) = ltb m n
lt_signed (pos m) (negsuc n) = false
lt_signed (negsuc m) (pos n) = true
lt_signed (negsuc m) (negsuc n) = ltb n m

pub pos_ne : (m n : ℕ) → m ≢ n → pos m ≢ pos n
pos_ne m n h e = ground arith

pub negsuc_ne : (m n : ℕ) → m ≢ n → negsuc m ≢ negsuc n
negsuc_ne m n h e = ground arith

unfoldable pub ℤ_discrete : Discrete ℤ
ℤ_discrete (pos m) (pos n) = elim (ℕ_discrete m n) [
  | yes p ↦ yes (ap pos p)
  | no h ↦ no (pos_ne m n h)
]
ℤ_discrete (pos m) (negsuc n) = no (λ e. cc)
ℤ_discrete (negsuc m) (pos n) = no (λ e. cc)
ℤ_discrete (negsuc m) (negsuc n) = elim (ℕ_discrete m n) [
  | yes p ↦ yes (ap negsuc p)
  | no h ↦ no (negsuc_ne m n h)
]
