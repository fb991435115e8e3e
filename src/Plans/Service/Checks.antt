-- ===== src/Plans/Service/Checks.antt =====
-- What the service's checks let through.
use Prim.Native.String.{len}
use aegis_panel.Common.{
  ℕ, ◌≤◌, String, trim_space, trim_left, trim_right, ◌≡◌, ◌≢◌, ◌↔◌, true, is_text_iff, some, ℤ, pos,
  arith, refl, ap, ◌∙◌,
}
use aegis_panel.Plans.Model.{is_valid_plan, ok, >>-eq-ok}
use aegis_panel.Plans.Service.{
  min_duration, max_duration, max_name_len, validate_name, validate_duration, validate_non_negative,
  validate_reset, CreateInput, check_input, Env, new_plan,
}

-- A duration passes just if it lies between one minute and 3650 days.
pub validate_duration_iff :
    (d : ℤ)
    → (validate_duration d ≡ ok tt)
      ↔ ((n : ℕ) × (d ≡ pos n) × (min_duration ≤ n) × (n ≤ max_duration))
unfolding validate_duration
validate_duration_iff (pos n) =
    (λ h. (n, refl, ground arith, ground arith), λ (m, e, l, u). ground arith)
validate_duration_iff (ℤ.negsuc n) = (λ h. absurd (ground arith), λ (m, e, l, u). cc)

trim_space_empty : trim_space "" ≡ ""
unfolding trim_space trim_left trim_right
trim_space_empty = refl

-- A name that passes is not blank, and at most 64 bytes long without its outer spaces.
pub validate_name-bounds :
    (n : String)
    → validate_name n ≡ ok tt
    → (n ≢ "") × (trim_space n ≢ "") × (len (trim_space n) ≤ max_name_len)
unfolding validate_name
validate_name-bounds n h =
    let filled : trim_space n ≢ "" = λ e. ground (arith, is_text_iff (trim_space n) "") in
    (λ e. filled (ap trim_space e ∙ trim_space_empty), filled, ground arith)

-- A plan made of checked input is valid for the store.
pub check_input-valid :
    (env : Env) (i : CreateInput)
    → check_input i ≡ ok tt
    → is_valid_plan (some (new_plan env i)) ≡ true
unfolding check_input is_valid_plan new_plan validate_duration validate_non_negative validate_reset
check_input-valid env i h =
    let (named, _, _) = validate_name-bounds i.name (>>-eq-ok (validate_name i.name) _ h).0 in
    ground (arith, is_text_iff i.name "")
