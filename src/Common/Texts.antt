-- ===== src/Common/Texts.antt =====
-- Go strings as native texts, compared whole, and as the list of their code points.
use Prim.Native.Nat.{ℕ, Ordering, ◌+◌}
use Prim.Native.Char.{code}
use Prim.Native.String.{String, compare}
use mathlib.Core.Path.{◌≡◌, refl, ap}
use mathlib.Core.Logic.{◌≢◌, ◌↔◌}
use mathlib.Core.Bool.{Bool, true, false, ◌&&◌, ◌||◌}
use aegis_panel.Common.Tests.{leb, ltb, ◌==◌, if◌then◌else◌}
use mathlib.Core.List.{List, [], ◌∷◌}
use text.Mathlib.Text.{◌==◌ as str_eq}
use text.Mathlib.TextEquality.{eq_iff}
use native.Mathlib.Omega.{arith}
use native.Mathlib.Decide.{ℕ_discrete}

decide_eq : (s t : String) (b : Bool) → str_eq s t ≡ b → Dec (s ≡ t)
decide_eq s t true e = yes ((eq_iff s t).0 e)
decide_eq s t false e = no (λ p. ground (arith, (eq_iff s t).1 p))

unfoldable pub String_discrete : Discrete String
unfolding decide_eq
String_discrete s t = decide_eq s t (str_eq s t) refl

-- The code points of a text.
abbrev pub codes : String → List ℕ
codes String.[] = []
codes (String.◌∷◌ c s) = code c ∷ codes s

-- s == t
abbrev pub is_text : String → String → Bool
is_text s t = str_eq s t

pub is_text_iff : (s t : String) → (is_text s t ≡ true) ↔ (s ≡ t)
is_text_iff s t = eq_iff s t

pub differ : (s t : String) → is_text s t ≡ false → s ≢ t
differ s t h e = ground (arith, eq_iff s t)

-- unicode.IsSpace
unfoldable pub is_space : ℕ → Bool
is_space c =
    (leb 9 c && leb c 13)
    || ((c == 32 || (c == 133 || c == 160))
        || ((c == 5760 || (leb 8192 c && leb c 8202))
            || ((c == 8232 || c == 8233) || (c == 8239 || (c == 8287 || c == 12288)))))

-- strings.TrimSpace: the space at the front, the space at the end, both.
unfoldable pub trim_left : String → String
unfolding is_space
trim_left String.[] = ""
trim_left (String.◌∷◌ c s) =
    let rest = trim_left s in if is_space (code c) then rest else String.◌∷◌ c s

unfoldable pub keep_end : Bool → String → String → String
keep_end true short long = short
keep_end false short long = long

unfoldable pub trim_right : String → String
unfolding is_space keep_end
trim_right String.[] = ""
trim_right (String.◌∷◌ c s) =
    let rest = trim_right s in
    keep_end (is_text rest "" && is_space (code c)) "" (String.◌∷◌ c rest)

unfoldable pub trim_space : String → String
unfolding trim_left trim_right
trim_space s = trim_right (trim_left s)

-- s < t, byte by byte.
abbrev pub lt_text : String → String → Bool
lt_text s t = elim (compare s t) [ Ordering.lt ↦ true | _ ↦ false ]

-- A letter, a digit, '-', '_' or '.'
unfoldable pub is_name_char : ℕ → Bool
is_name_char r =
    (leb b'a' r && leb r b'z')
    || ((leb b'A' r && leb r b'Z')
        || ((leb b'0' r && leb r b'9') || (r == b'-' || (r == b'_' || r == b'.'))))

-- r < 0x20 || r == 0x7f
unfoldable pub is_control : ℕ → Bool
is_control r = ltb r 32 || r == 127

abbrev pub every : (ℕ → Bool) → List ℕ → Bool
every p [] = true
every p (r ∷ rs) = p r && every p rs

pub heads_differ : (x y : ℕ) (xs ys : List ℕ) → x ≢ y → (x ∷ xs) ≢ (y ∷ ys)
heads_differ x y xs ys n e = ground arith

abbrev pub tail_of : List ℕ → List ℕ
tail_of [] = []
tail_of (x ∷ xs) = xs

unfoldable pub decide_cons :
    (x y : ℕ) (xs ys : List ℕ) → Dec (x ≡ y) → Dec (xs ≡ ys) → Dec ((x ∷ xs) ≡ (y ∷ ys))
decide_cons x y xs ys (no n) t = no (heads_differ x y xs ys n)
decide_cons x y xs ys (yes p) (yes q) = yes (λ i. p i ∷ q i)
decide_cons x y xs ys (yes p) (no n) = no (λ e. n (ap tail_of e))

-- Texts compared as the lists of their code points.
unfoldable pub codes_discrete : Discrete (List ℕ)
unfolding decide_cons ℕ_discrete
codes_discrete [] [] = yes refl
codes_discrete [] (y ∷ ys) = no (λ e. cc)
codes_discrete (x ∷ xs) [] = no (λ e. cc)
codes_discrete (x ∷ xs) (y ∷ ys) = decide_cons x y xs ys (ℕ_discrete x y) (codes_discrete xs ys)

-- toLowerASCII, on code points.
unfoldable pub lower_code : ℕ → ℕ
lower_code c = if leb b'A' c && leb c b'Z' then c + 32 else c

unfoldable pub lower_ascii : List ℕ → List ℕ
unfolding lower_code
lower_ascii [] = []
lower_ascii (c ∷ cs) = lower_code c ∷ lower_ascii cs
