-- ===== src/Plans/Service.antt =====
-- backend/internal/plans/service.go over the in-memory store. A call returns the plan, the store and
-- what it sent out, in order: a webhook event and an audit entry. What those receivers do with it
-- cannot fail the call, and is not part of it.
pub mod Checks
pub mod Changes
use Prim.Native.String.{len}
use aegis_panel.Common.{
  ℕ, String, trim_space, not, Option, some, none, List, [], ◌∷◌, ◌==◌, ltb, is_text, ℤ, is_neg,
  is_below, is_above, if◌then◌else◌,
}
use aegis_panel.Plans.Model.{
  Plan, ResetPeriod, reset_monthly, is_valid_reset, Field, id_field, name_field,
  traffic_limit_field, duration_field, device_limit_field, reset_period_field, price_field, invalid,
  Result, ok, err, ◌>>=◌, ◌>>◌, fail_if,
}
use aegis_panel.Plans.Store
use aegis_panel.Plans.Store.{MemoryStore}

abbrev pub min_name_len : ℕ
min_name_len = 1

abbrev pub max_name_len : ℕ
max_name_len = 64

-- 1 minute, and 3650 days, in nanoseconds.
abbrev pub min_duration : ℕ
min_duration = 60_000_000_000

abbrev pub max_duration : ℕ
max_duration = 315_360_000_000_000_000

unfoldable pub validate_name : String → Result (Unit {0})
validate_name n = do
  fail_if (is_text (trim_space n) "") (invalid name_field)
  fail_if (ltb (len (trim_space n)) min_name_len) (invalid name_field)
  fail_if (ltb max_name_len (len (trim_space n))) (invalid name_field)
  ok tt

unfoldable pub validate_duration : ℤ → Result (Unit {0})
validate_duration d = do
  fail_if (not (is_above d 0)) (invalid duration_field)
  fail_if (is_below d min_duration) (invalid duration_field)
  fail_if (is_above d max_duration) (invalid duration_field)
  ok tt

-- validateNonNegativeInt64 and validateNonNegativeInt
unfoldable pub validate_non_negative : ℤ → Field → Result (Unit {0})
validate_non_negative v f = fail_if (is_neg v) (invalid f)

unfoldable pub validate_reset : ResetPeriod → Result (Unit {0})
validate_reset r = fail_if (not (is_valid_reset r)) (invalid reset_period_field)

-- The service's clock, the store's clock, and the fresh id.
pub record Env : Type 0 where
  pub now : ℕ
  pub store_now : ℕ
  pub new_id : ℕ

-- An event with the plan's id, or an audit entry with the rows before and after.
pub data Effect : Type 0 where
  dispatches : (event : String) → (id : ℕ) → Effect
  records : (action : String) → (id : ℕ) → (before after : Option Plan) → Effect

abbrev pub Call : Type 0
Call = Result (Plan × MemoryStore × List Effect)

unfoldable pub get : ℕ → MemoryStore → Result Plan
get id s = do fail_if (id == 0) (invalid id_field); Store.get_by_id id s

unfoldable pub get_by_name : String → MemoryStore → Result Plan
get_by_name name s = do validate_name name; Store.get_by_name name s

pub record CreateInput : Type 0 where
  pub name : String
  pub traffic_limit_bytes : ℤ
  pub duration : ℤ
  pub device_limit : ℤ
  pub reset_period : ResetPeriod
  pub price_cents : ℤ

abbrev pub reset_or_monthly : ResetPeriod → ResetPeriod
reset_or_monthly r = if is_text r "" then reset_monthly else r

unfoldable pub check_input : CreateInput → Result (Unit {0})
check_input i = do
  validate_name i.name
  validate_duration i.duration
  validate_non_negative i.traffic_limit_bytes traffic_limit_field
  validate_non_negative i.device_limit device_limit_field
  validate_non_negative i.price_cents price_field
  validate_reset (reset_or_monthly i.reset_period)

unfoldable pub new_plan : Env → CreateInput → Plan
new_plan env i = record {
  id = env.new_id;
  name = i.name;
  traffic_limit_bytes = i.traffic_limit_bytes;
  duration = i.duration;
  device_limit = i.device_limit;
  reset_period = reset_or_monthly i.reset_period;
  price_cents = i.price_cents;
  created_at = env.now;
  updated_at = env.now;
}

abbrev pub created : Plan × MemoryStore → Call
created (out, t) =
    ok
      (out, t, dispatches "plan.created" out.id ∷ records "plan.create" out.id none (some out) ∷ [])

unfoldable pub create : Env → CreateInput → MemoryStore → Call
unfolding new_plan
create env i s = do
  check_input i
  stored ← Store.create (some (new_plan env i)) env.store_now s
  created stored

-- A `none` leaves the field alone.
pub record UpdateInput : Type 0 where
  pub name : Option String
  pub traffic_limit_bytes : Option ℤ
  pub duration : Option ℤ
  pub device_limit : Option ℤ
  pub reset_period : Option ResetPeriod
  pub price_cents : Option ℤ

abbrev pub given {ℓ} : {A : Type ℓ} → Option A → (A → Result (Unit {0})) → Result (Unit {0})
given none check = ok tt
given (some a) check = check a

abbrev pub choose {ℓ} : {A : Type ℓ} → Option A → A → A
choose none old = old
choose (some a) old = a

unfoldable pub check_update : UpdateInput → Result (Unit {0})
check_update i = do
  given i.name validate_name
  given i.traffic_limit_bytes (λ v. validate_non_negative v traffic_limit_field)
  given i.duration validate_duration
  given i.device_limit (λ v. validate_non_negative v device_limit_field)
  given i.reset_period validate_reset
  given i.price_cents (λ v. validate_non_negative v price_field)

unfoldable pub merged : Env → UpdateInput → Plan → Plan
merged env i cur = record cur {
  name = choose i.name cur.name;
  traffic_limit_bytes = choose i.traffic_limit_bytes cur.traffic_limit_bytes;
  duration = choose i.duration cur.duration;
  device_limit = choose i.device_limit cur.device_limit;
  reset_period = choose i.reset_period cur.reset_period;
  price_cents = choose i.price_cents cur.price_cents;
  updated_at = env.now;
}

-- `cur` is the struct that the merge and the store have written to: the audit entry's "before".
unfoldable pub finish_update : ℕ → Plan × MemoryStore → Call
finish_update id (cur, t) = do
  out ← Store.get_by_id id t
  ok (
    out,
    t,
    dispatches "plan.updated" out.id ∷ records "plan.update" out.id (some cur) (some out) ∷ [],
  )

unfoldable pub update : Env → ℕ → UpdateInput → MemoryStore → Call
unfolding merged
update env id i s = do
  fail_if (id == 0) (invalid id_field)
  cur ← Store.get_by_id id s
  check_update i
  stored ← Store.update (some (merged env i cur)) env.store_now s
  finish_update id stored

unfoldable pub delete : ℕ → MemoryStore → Call
delete id s = do
  fail_if (id == 0) (invalid id_field)
  cur ← Store.get_by_id id s
  t ← Store.delete id s
  ok (cur, t, dispatches "plan.deleted" id ∷ records "plan.delete" id (some cur) none ∷ [])
