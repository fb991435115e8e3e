-- ===== src/Users/Validate.antt =====
-- The input checks of backend/internal/users/service.go. An error keeps the field and not the text.
-- `len` counts bytes, and the loop walks code points, as in Go.
use Prim.Native.String.{len}
use aegis_panel.Common.{
  ℕ, String, Bool, true, false, ◌&&◌, ◌||◌, not, List, [], ◌∷◌, ltb, leb, ◌==◌, is_text, codes,
  Option, some, none, ℤ, is_below, is_above, if◌then◌else◌,
}
use aegis_panel.Users.Model.{
  Field, username_field, telegram_id_field, email_field, invalid, Result, ok, err, ◌>>◌, fail_if,
}

abbrev pub min_username_len : ℕ
min_username_len = 3

abbrev pub max_username_len : ℕ
max_username_len = 32

unfoldable pub is_username_char : ℕ → Bool
is_username_char r =
    (leb b'a' r && leb r b'z')
    || ((leb b'0' r && leb r b'9')
        || ((r == b'-' || (r == b'_' || r == b'.')) || (leb b'A' r && leb r b'Z')))

unfoldable pub all_username_chars : List ℕ → Bool
all_username_chars [] = true
all_username_chars (r ∷ rs) = is_username_char r && all_username_chars rs

-- u[0] == '.', and u[len(u)-1] == '.' (every character is one byte by then).
unfoldable pub starts_with_dot : List ℕ → Bool
starts_with_dot [] = false
starts_with_dot (r ∷ rs) = r == b'.'

unfoldable pub ends_with_dot : List ℕ → Bool
ends_with_dot [] = false
ends_with_dot (r ∷ []) = r == b'.'
ends_with_dot (r ∷ s ∷ rs) = ends_with_dot (s ∷ rs)

unfoldable pub validate_username : String → Result (Unit {0})
validate_username u = do
  fail_if (is_text u "") (invalid username_field)
  fail_if (ltb (len u) min_username_len) (invalid username_field)
  fail_if (ltb max_username_len (len u)) (invalid username_field)
  fail_if (not (all_username_chars (codes u))) (invalid username_field)
  fail_if (starts_with_dot (codes u) || ends_with_dot (codes u)) (invalid username_field)
  ok tt

unfoldable pub contains : ℕ → List ℕ → Bool
contains a [] = false
contains a (x ∷ xs) = let rest = contains a xs in if x == a then true else rest

-- The loop of validateUUIDList, with the ids seen so far.
unfoldable pub validate_ids : Field → List ℕ → List ℕ → Result (Unit {0})
validate_ids f seen [] = ok tt
validate_ids f seen (u ∷ us) =
    let rest = validate_ids f (u ∷ seen) us in
    if u == 0 then err (invalid f) else if contains u seen then err (invalid f) else rest

unfoldable pub validate_uuid_list : List ℕ → Field → Result (Unit {0})
validate_uuid_list us f = validate_ids f [] us

abbrev pub max_telegram_id : ℕ
max_telegram_id = 9_999_999_999

unfoldable pub out_of_range : ℤ → Bool
out_of_range t = is_below t 1 || is_above t max_telegram_id

unfoldable pub validate_telegram_id : Option ℤ → Result (Unit {0})
validate_telegram_id none = ok tt
validate_telegram_id (some t) = fail_if (out_of_range t) (invalid telegram_id_field)

-- `net/mail` decides what an address is: `is_address` is its answer.
unfoldable pub validate_email : (String → Bool) → String → Result (Unit {0})
validate_email is_address e =
    fail_if (not (is_text e "") && not (is_address e)) (invalid email_field)
