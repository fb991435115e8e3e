-- ===== src/Backups/Cron.antt =====
-- backend/internal/backups/schedule.go: five-field cron expressions. A text is the list of its code
-- points; an error is `none`, without its text. The library calls (`Index`, `SplitN`, `Split`,
-- `Atoi`, `Fields`) are written out; `Atoi` fails past the range of an int, which no field accepts.
pub mod Fields
pub mod Daily
use aegis_panel.Common.{
  ℕ, zero, suc, ◌+◌, ◌-◌, ◌*◌, Bool, true, false, ◌&&◌, ◌||◌, not, Option, none, some, List, [],
  ◌∷◌, ◌==◌, ltb, leb, if◌then◌else◌, sort_by, length, select, is_space, ℤ, pos, negsuc,
}

-- slices.Contains
unfoldable pub contains : ℕ → List ℕ → Bool
contains n [] = false
contains n (x ∷ xs) = let rest = contains n xs in if x == n then true else rest

unfoldable pub keep : ℕ → Option (List ℕ × List ℕ) → Option (List ℕ × List ℕ)
keep x none = none
keep x (some (before, after)) = some (x ∷ before, after)

-- A text cut in two at the first place of a byte, if there is one.
unfoldable pub cut : ℕ → List ℕ → Option (List ℕ × List ℕ)
unfolding keep
cut c [] = none
cut c (x ∷ xs) = let rest = cut c xs in if x == c then some ([], xs) else keep x rest

unfoldable pub prepend : ℕ → List (List ℕ) → List (List ℕ)
prepend x [] = (x ∷ []) ∷ []
prepend x (p ∷ ps) = (x ∷ p) ∷ ps

unfoldable pub split : (ℕ → Bool) → List ℕ → List (List ℕ)
unfolding prepend
split at [] = [] ∷ []
split at (x ∷ xs) = let rest = split at xs in if at x then [] ∷ rest else prepend x rest

unfoldable pub digits : ℕ → List ℕ → Option ℕ
digits n [] = some n
digits n (c ∷ cs) =
    let rest = digits (n * 10 + (c - b'0')) cs in if leb b'0' c && leb c b'9' then rest else none

unfoldable pub negated : Option ℕ → Option ℤ
negated none = none
negated (some zero) = some (pos zero)
negated (some (suc n)) = some (negsuc n)

unfoldable pub plain : Option ℕ → Option ℤ
plain none = none
plain (some n) = some (pos n)

-- Digits, after a sign or without one.
unfoldable pub unsigned : List ℕ → Option ℕ
unfolding digits
unsigned [] = none
unsigned (c ∷ cs) = digits 0 (c ∷ cs)

unfoldable pub atoi : List ℕ → Option ℤ
unfolding unsigned negated plain
atoi [] = none
atoi (c ∷ cs) =
    if c == b'-'
    then negated (unsigned cs)
    else if c == b'+'
    then plain (unsigned cs)
    else plain (unsigned (c ∷ cs))

-- A value between the bounds.
unfoldable pub in_bounds : ℕ → ℕ → Option ℤ → Option ℕ
in_bounds lo hi (some (pos n)) = if ltb n lo || ltb hi n then none else some n
in_bounds lo hi _ = none

unfoldable pub ordered : Option ℕ → Option ℕ → Option (ℕ × ℕ)
ordered (some start) (some end) = if ltb end start then none else some (start, end)
ordered _ _ = none

unfoldable pub range_of : ℕ → ℕ → Option (List ℕ × List ℕ) → Option (ℕ × ℕ)
unfolding atoi in_bounds ordered
range_of lo hi none = none
range_of lo hi (some (before, after)) =
    ordered (in_bounds lo hi (atoi before)) (in_bounds lo hi (atoi after))

unfoldable pub parse_range : List ℕ → ℕ → ℕ → Option (ℕ × ℕ)
unfolding cut range_of
parse_range s lo hi = range_of lo hi (cut b'-' s)

-- for i := start; i <= end; i += step, with fuel that `steps` gives.
unfoldable pub stepped : ℕ → ℕ → ℕ → ℕ → List ℕ
stepped zero i end step = []
stepped (suc fuel) i end step =
    let rest = stepped fuel (i + step) end step in if leb i end then i ∷ rest else []

unfoldable pub steps : ℕ → ℕ → ℕ → List ℕ
unfolding stepped
steps start end step = stepped (suc end - start) start end step

unfoldable pub is_star : List ℕ → Bool
is_star (c ∷ []) = c == b'*'
is_star _ = false

-- The number that a part of a list stands for, added unless it is known.
unfoldable pub add_number : ℕ → Bool → Option (List ℕ) → Option (List ℕ)
add_number n known none = none
add_number n known (some ns) = some (if known then ns else n ∷ ns)

unfoldable pub collect_part : List ℕ → Option ℕ → (ℕ → Option (List ℕ)) → Option (List ℕ)
unfolding add_number contains
collect_part seen none rest = none
collect_part seen (some n) rest = add_number n (contains n seen) (rest n)

-- The numbers of a list, without repeats, as they come in.
unfoldable pub collect : ℕ → ℕ → List ℕ → List (List ℕ) → Option (List ℕ)
unfolding atoi in_bounds collect_part
collect lo hi seen [] = some []
collect lo hi seen (p ∷ ps) =
    collect_part seen (in_bounds lo hi (atoi p)) (λ n. collect lo hi (n ∷ seen) ps)

unfoldable pub sorted : Option (List ℕ) → Option (List ℕ)
sorted none = none
sorted (some ns) = some (sort_by ltb ns)

unfoldable pub positive : Option ℤ → Option ℕ
positive (some (pos n)) = if n == 0 then none else some n
positive _ = none

unfoldable pub span : List ℕ → ℕ → ℕ → Option (ℕ × ℕ)
unfolding parse_range
span s lo hi = if is_star s then some (lo, hi) else parse_range s lo hi

unfoldable pub step_values : Option ℕ → Option (ℕ × ℕ) → Option (List ℕ)
unfolding steps
step_values (some step) (some (start, end)) = some (steps start end step)
step_values _ _ = none

unfoldable pub range_values : Option (ℕ × ℕ) → Option (List ℕ)
unfolding steps
range_values none = none
range_values (some (start, end)) = some (steps start end 1)

-- strings.Index(s, "-") > 0
unfoldable pub has_range : Option (List ℕ × List ℕ) → Bool
has_range (some (c ∷ cs, after)) = true
has_range _ = false

unfoldable pub plain_field : List ℕ → ℕ → ℕ → Option (List ℕ)
unfolding has_range range_values sorted collect split cut
plain_field s lo hi =
    if has_range (cut b'-' s)
    then range_values (parse_range s lo hi)
    else sorted (collect lo hi [] (split (λ c. c == b',') s))

unfoldable pub after_slash : List ℕ → ℕ → ℕ → Option (List ℕ × List ℕ) → Option (List ℕ)
unfolding positive atoi span step_values plain_field
after_slash s lo hi none = plain_field s lo hi
after_slash s lo hi (some (before, after)) = step_values (positive (atoi after)) (span before lo hi)

unfoldable pub parse_cron_field : List ℕ → ℕ → ℕ → Option (List ℕ)
unfolding steps is_star after_slash cut
parse_cron_field [] lo hi = none
parse_cron_field (c ∷ cs) lo hi =
    if is_star (c ∷ cs)
    then some (steps lo hi 1)
    else after_slash (c ∷ cs) lo hi (cut b'/' (c ∷ cs))

pub record Cron : Type 0 where
  pub minute : List ℕ
  pub hour : List ℕ
  pub dom : List ℕ
  pub month : List ℕ
  pub dow : List ℕ

infixl 5 ◌>>=◌
abbrev pub ◌>>=◌ {ℓ κ} : {A : Type ℓ} {B : Type κ} → Option A → (A → Option B) → Option B
none >>= rest = none
some a >>= rest = rest a

abbrev has_length : List ℕ → Bool
has_length [] = false
has_length (c ∷ cs) = true

unfoldable pub fields : List ℕ → List (List ℕ)
unfolding split
fields s = select has_length (split is_space s)

unfoldable pub parse_parts : List (List ℕ) → Option Cron
parse_parts (m ∷ h ∷ d ∷ mo ∷ w ∷ []) = do
  minute ← parse_cron_field m 0 59
  hour ← parse_cron_field h 0 23
  dom ← parse_cron_field d 1 31
  month ← parse_cron_field mo 1 12
  dow ← parse_cron_field w 0 6
  some (record { minute = minute; hour = hour; dom = dom; month = month; dow = dow })
parse_parts _ = none

unfoldable pub parse_cron : List ℕ → Option Cron
unfolding fields parse_parts
parse_cron expr = parse_parts (fields expr)

-- What `time.Time` answers: the civil reading of a moment, Sunday the weekday 0.
pub record Civil : Type 0 where
  pub minute : ℕ
  pub hour : ℕ
  pub month : ℕ
  pub day : ℕ
  pub weekday : ℕ

unfoldable pub day_matches : Cron → Civil → Bool
unfolding contains
day_matches c t =
    let dom_wildcard = length c.dom == 31 in
    let dow_wildcard = length c.dow == 7 in
    if not dom_wildcard && not dow_wildcard
    then contains t.day c.dom || contains t.weekday c.dow
    else contains t.day c.dom && contains t.weekday c.dow

unfoldable pub matches : Cron → Civil → Bool
unfolding contains day_matches
matches c t =
    if not (contains t.minute c.minute)
    then false
    else if not (contains t.hour c.hour)
    then false
    else if not (contains t.month c.month)
    then false
    else day_matches c t
