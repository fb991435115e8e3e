-- ===== src/Users/Service.antt =====
-- backend/internal/users/service.go over the in-memory store. A call returns the user, the store
-- and what it sent out, in order: webhook events, audit entries and deltas. What those receivers do
-- with it cannot fail the call, and is not part of it.
pub mod Rotation
pub mod Changes
mod Tests
use aegis_panel.Common.{
  ℕ, ◌+◌, String, Bool, true, false, ◌&&◌, ◌||◌, not, Option, some, none, List, [], ◌∷◌, ◌==◌,
  is_text, ℤ, is_neg, if◌then◌else◌,
}
use aegis_panel.Cores.Batched.{DeltaKind, add_user, remove_user, set_limit}
use aegis_panel.Users.Model.{
  User, Status, active, is_valid_status, Field, id_field, username_field, sub_token_field,
  status_field, traffic_limit_field, traffic_used_field, device_limit_field, telegram_id_field,
  email_field, hosts_allowlist_field, hosts_blocklist_field, Error, mint_failed, invalid, Result,
  ok, err, ◌>>=◌, ◌>>◌, fail_if, or_fail,
}
use aegis_panel.Users.Validate.{
  validate_username, validate_uuid_list, validate_telegram_id, validate_email,
}
use aegis_panel.Users.Access.{HostNodesLookup, delta_nodes}
use aegis_panel.Users.Store
use aegis_panel.Users.Store.{MemoryStore}

-- What a call takes from outside: the two clock readings, the fresh id and token (`none` if the
-- random source fails), the answer of net/mail, the wired lookup and appliers.
pub record Env : Type 0 where
  pub now : ℕ
  pub store_now : ℕ
  pub new_id : ℕ
  pub token : Option String
  pub is_address : String → Bool
  pub lookup : HostNodesLookup
  pub appliers : List (ℕ × Bool)

pub data Effect : Type 0 where
  dispatches : String → ℕ → Effect
  records : String → ℕ → Effect
  enqueues : DeltaKind → ℕ → Option ℤ → List ℕ → Effect

abbrev pub Call : Type 0
Call = Result (User × MemoryStore × List Effect)

abbrev effects : Env → String → String → DeltaKind → Option ℤ → ℕ → User → List Effect
effects env event action kind limit id filtered =
    dispatches event id
    ∷ records action id
    ∷ enqueues kind id limit (delta_nodes env.lookup env.appliers (some filtered))
    ∷ []

pub record CreateInput : Type 0 where
  pub username : String
  pub external_id : String
  pub status : Status
  pub plan_id : Option ℕ
  pub expire_at : Option ℕ
  pub traffic_limit_bytes : ℤ
  pub traffic_used_bytes : ℤ
  pub last_reset_at : Option ℕ
  pub device_limit : ℤ
  pub hosts_allowlist : List ℕ
  pub hosts_blocklist : List ℕ
  pub telegram_id : Option ℤ
  pub email : String

abbrev status_or_active : Status → Status
status_or_active s = if is_text s "" then active else s

new_user : Env → CreateInput → String → User
new_user env i tok = record {
  id = env.new_id;
  external_id = i.external_id;
  username = i.username;
  status = status_or_active i.status;
  plan_id = i.plan_id;
  expire_at = i.expire_at;
  traffic_limit_bytes = i.traffic_limit_bytes;
  traffic_used_bytes = i.traffic_used_bytes;
  last_reset_at = i.last_reset_at;
  device_limit = i.device_limit;
  hosts_allowlist = i.hosts_allowlist;
  hosts_blocklist = i.hosts_blocklist;
  sub_token = tok;
  sub_token_rotated_at = none;
  sub_token_prev = "";
  sub_token_prev_expires_at = none;
  telegram_id = i.telegram_id;
  email = i.email;
  created_at = env.now;
  updated_at = env.now;
}

check_input : Env → CreateInput → Result (Unit {0})
check_input env i = do
  validate_username i.username
  fail_if (not (is_valid_status (status_or_active i.status))) (invalid status_field)
  fail_if (is_neg i.traffic_limit_bytes) (invalid traffic_limit_field)
  fail_if (is_neg i.traffic_used_bytes) (invalid traffic_used_field)
  fail_if (is_neg i.device_limit) (invalid device_limit_field)
  validate_telegram_id i.telegram_id
  validate_email env.is_address i.email
  validate_uuid_list i.hosts_allowlist hosts_allowlist_field
  validate_uuid_list i.hosts_blocklist hosts_blocklist_field

finish_create : Env → User × MemoryStore → Call
finish_create env (out, t) =
    ok (out, t, effects env "user.created" "user.create" add_user none out.id out)

pub create : Env → CreateInput → MemoryStore → Call
unfolding new_user
create env i s = do
  check_input env i
  tok ← or_fail env.token mint_failed
  stored ← Store.create (some (new_user env i tok)) env.store_now s
  finish_create env stored

pub get : ℕ → MemoryStore → Result User
get id s = do fail_if (id == 0) (invalid id_field); Store.get_by_id id s

pub get_by_username : String → MemoryStore → Result User
get_by_username name s = do validate_username name; Store.get_by_username name s

pub get_by_sub_token : String → Bool → ℕ → MemoryStore → Result User
get_by_sub_token token use_prev now s = do
  fail_if (is_text token "") (invalid sub_token_field)
  Store.get_by_sub_token token use_prev now s

pub list_by_status : Status → MemoryStore → Result (List User)
list_by_status status s = do
  fail_if (not (is_valid_status status)) (invalid status_field)
  ok (Store.list_by_status status s)

-- A `none` leaves the field alone.
pub record UpdateInput : Type 0 where
  pub external_id : Option String
  pub username : Option String
  pub status : Option Status
  pub plan_id : Option ℕ
  pub expire_at : Option ℕ
  pub traffic_limit_bytes : Option ℤ
  pub traffic_used_bytes : Option ℤ
  pub last_reset_at : Option ℕ
  pub device_limit : Option ℤ
  pub hosts_allowlist : Option (List ℕ)
  pub hosts_blocklist : Option (List ℕ)
  pub telegram_id : Option ℤ
  pub email : Option String

abbrev given {ℓ} : {A : Type ℓ} → Option A → (A → Result (Unit {0})) → Result (Unit {0})
given none check = ok tt
given (some a) check = check a

-- `x` if it is given, else the old value.
abbrev choose {ℓ} : {A : Type ℓ} → Option A → A → A
choose none old = old
choose (some a) old = a

-- A pointer that replaces a pointer.
abbrev choose_some {ℓ} : {A : Type ℓ} → Option A → Option A → Option A
choose_some none old = old
choose_some (some a) old = some a

-- A negative limit is left out.
abbrev choose_nonneg : Option ℤ → ℤ → ℤ
choose_nonneg none old = old
choose_nonneg (some a) old = if is_neg a then old else a

-- Zero is let through: it is meant to unlink.
update_telegram_id : ℤ → Result (Unit {0})
update_telegram_id (ℤ.pos n) = if n == 0 then ok tt else validate_telegram_id (some (ℤ.pos n))
update_telegram_id t = validate_telegram_id (some t)

check_update : Env → UpdateInput → Result (Unit {0})
unfolding update_telegram_id
check_update env i = do
  given i.username validate_username
  given i.status (λ st. fail_if (not (is_valid_status st)) (invalid status_field))
  given i.hosts_allowlist (λ l. validate_uuid_list l hosts_allowlist_field)
  given i.hosts_blocklist (λ l. validate_uuid_list l hosts_blocklist_field)
  given i.telegram_id update_telegram_id
  given i.email (validate_email env.is_address)

merged : Env → UpdateInput → User → User
merged env i cur = record cur {
  external_id = choose i.external_id cur.external_id;
  username = choose i.username cur.username;
  status = choose i.status cur.status;
  plan_id = choose_some i.plan_id cur.plan_id;
  expire_at = choose_some i.expire_at cur.expire_at;
  traffic_limit_bytes = choose_nonneg i.traffic_limit_bytes cur.traffic_limit_bytes;
  traffic_used_bytes = choose_nonneg i.traffic_used_bytes cur.traffic_used_bytes;
  last_reset_at = choose_some i.last_reset_at cur.last_reset_at;
  device_limit = choose_nonneg i.device_limit cur.device_limit;
  hosts_allowlist = choose i.hosts_allowlist cur.hosts_allowlist;
  hosts_blocklist = choose i.hosts_blocklist cur.hosts_blocklist;
  telegram_id = choose_some i.telegram_id cur.telegram_id;
  email = choose i.email cur.email;
  updated_at = env.now;
}

-- The delta of an update: a quota change if a limit was given, else an addition.
abbrev update_kind : Option ℤ → DeltaKind
update_kind none = add_user
update_kind (some _) = set_limit

abbrev update_limit : Option ℤ → ℤ → Option ℤ
update_limit none stored = none
update_limit (some _) stored = some stored

finish_update : Env → UpdateInput → ℕ → User × MemoryStore → Call
finish_update env i id (_, t) = do
  out ← Store.get_by_id id t
  ok (
    out,
    t,
    effects env "user.updated" "user.update" (update_kind i.traffic_limit_bytes)
        (update_limit i.traffic_limit_bytes out.traffic_limit_bytes) out.id out,
  )

pub update : Env → ℕ → UpdateInput → MemoryStore → Call
unfolding merged
update env id i s = do
  fail_if (id == 0) (invalid id_field)
  cur ← Store.get_by_id id s
  check_update env i
  stored ← Store.update (some (merged env i cur)) env.store_now s
  finish_update env i id stored

pub delete : Env → ℕ → MemoryStore → Call
delete env id s = do
  fail_if (id == 0) (invalid id_field)
  cur ← Store.get_by_id id s
  t ← Store.delete id s
  ok (cur, t, effects env "user.deleted" "user.delete" remove_user none id cur)

-- 24 hours in nanoseconds.
abbrev pub default_rotation_grace : ℕ
default_rotation_grace = 86_400_000_000_000

abbrev pub grace_or_default : ℤ → ℕ
grace_or_default (ℤ.pos n) = if n == 0 then default_rotation_grace else n
grace_or_default _ = default_rotation_grace

rotated : ℕ → ℕ → String → User → User
rotated now grace tok cur = record cur {
  sub_token = tok;
  sub_token_prev = cur.sub_token;
  sub_token_prev_expires_at = some (now + grace);
  sub_token_rotated_at = some now;
  updated_at = now;
}

finish_rotate : Env → ℕ → User × MemoryStore → Call
finish_rotate env id (_, t) = do
  out ← Store.get_by_id id t
  ok (out, t, effects env "user.updated" "user.rotate_token" add_user none out.id out)

pub rotate_sub_token : Env → ℕ → ℤ → MemoryStore → Call
unfolding rotated
rotate_sub_token env id grace s = do
  fail_if (id == 0) (invalid id_field)
  cur ← Store.get_by_id id s
  tok ← or_fail env.token mint_failed
  stored ← Store.update (some (rotated env.now (grace_or_default grace) tok cur)) env.store_now s
  finish_rotate env id stored
