-- ===== src/Users/Service/Tests.antt =====
-- The service on one user's life, and the theorems at it.
use aegis_panel.Common.{
  String, ℕ_discrete, String_discrete, get, put, remove, ◌≡◌, ◌≢◌, refl, ap, differ, true, false,
  Option, some, none, List, [], ◌∷◌, pos, arith,
}
use aegis_panel.Cores.Batched.{BatchedApplier, flush}
use aegis_panel.Users.Model.{User, Result, ok, err, is_valid_status, is_valid_user}
use aegis_panel.Users.Validate.{
  validate_username, validate_uuid_list, validate_telegram_id, validate_email, all_username_chars,
  is_username_char, starts_with_dot, ends_with_dot, validate_ids,
}
use aegis_panel.Users.Store
use aegis_panel.Users.Store.{
  MemoryStore, new_memory_store, get_by_id, get_by_sub_token, create_row, install, uninstall, taken,
  update_row, by_prev, honour_prev, current_or_prev,
}
use aegis_panel.Users.Store.Indexes.{Indexed, new-Indexed}
use aegis_panel.Users.Service
use aegis_panel.Users.Service.{
  Env, Effect, CreateInput, UpdateInput, create, update, delete, rotate_sub_token, merged,
  check_input, finish_create, check_update, finish_update, finish_rotate,
}
use aegis_panel.Users.Service.Changes.{create_sound, delete_after_update_lost, absorb_effects}
use aegis_panel.Users.Service.Rotation.{old_token_expires}

abbrev env : Env
env = record {
  now = 100;
  store_now = 101;
  new_id = 7;
  token = some "aaaa";
  is_address = λ _. true;
  lookup = none;
  appliers = (1, true) ∷ (2, false) ∷ [];
}

abbrev rotating : Env
rotating = record env { now = 200; store_now = 201; token = some "bbbb" }

abbrev ann : CreateInput
ann = record {
  username = "ann.b";
  external_id = "";
  status = "";
  plan_id = some 3;
  expire_at = none;
  traffic_limit_bytes = pos 0;
  traffic_used_bytes = pos 0;
  last_reset_at = none;
  device_limit = pos 0;
  hosts_allowlist = [];
  hosts_blocklist = [];
  telegram_id = none;
  email = "";
}

abbrev unlink : UpdateInput
unlink = record {
  external_id = none;
  username = none;
  status = none;
  plan_id = some 0;
  expire_at = none;
  traffic_limit_bytes = none;
  traffic_used_bytes = none;
  last_reset_at = none;
  device_limit = none;
  hosts_allowlist = none;
  hosts_blocklist = none;
  telegram_id = none;
  email = none;
}

abbrev Outcome : Type 0
Outcome = User × MemoryStore × List Effect

abbrev value_or : Outcome → Result Outcome → Outcome
value_or d (ok a) = a
value_or d (err e) = d

abbrev nobody : User
nobody = record {
  id = 0;
  external_id = "";
  username = "";
  status = "";
  plan_id = none;
  expire_at = none;
  traffic_limit_bytes = pos 0;
  traffic_used_bytes = pos 0;
  last_reset_at = none;
  device_limit = pos 0;
  hosts_allowlist = [];
  hosts_blocklist = [];
  sub_token = "";
  sub_token_rotated_at = none;
  sub_token_prev = "";
  sub_token_prev_expires_at = none;
  telegram_id = none;
  email = "";
  created_at = 0;
  updated_at = 0;
}

abbrev nothing : Outcome
nothing = (nobody, new_memory_store, [])

abbrev created : Outcome
created = value_or nothing (create env ann new_memory_store)

abbrev updated : Outcome
updated = value_or nothing (update env 7 unlink created.1)

abbrev deleted : Outcome
deleted = value_or nothing (delete env 7 updated.1)

abbrev rotated : Outcome
rotated = value_or nothing (rotate_sub_token rotating 7 (pos 50) created.1)

creates : create env ann new_memory_store ≡ ok created
unfolding create check_input validate_username all_username_chars is_username_char starts_with_dot
    ends_with_dot validate_telegram_id validate_email validate_uuid_list validate_ids
    is_valid_status finish_create Store.create create_row is_valid_user taken install get put
    ℕ_discrete String_discrete new_memory_store
creates = refl

updates : update env 7 unlink created.1 ≡ ok updated
unfolding create update check_input validate_username all_username_chars is_username_char
    starts_with_dot ends_with_dot validate_telegram_id validate_email validate_uuid_list
    validate_ids is_valid_status finish_create Store.create create_row is_valid_user taken install
    get put ℕ_discrete String_discrete new_memory_store check_update merged finish_update
    Store.update update_row uninstall remove get_by_id
updates = refl

deletes : delete env 7 updated.1 ≡ ok deleted
unfolding create update check_input validate_username all_username_chars is_username_char
    starts_with_dot ends_with_dot validate_telegram_id validate_email validate_uuid_list
    validate_ids is_valid_status finish_create Store.create create_row is_valid_user taken install
    get put ℕ_discrete String_discrete new_memory_store check_update merged finish_update
    Store.update update_row uninstall remove get_by_id delete Store.delete
deletes = refl

rotates : rotate_sub_token rotating 7 (pos 50) created.1 ≡ ok rotated
unfolding create rotate_sub_token finish_rotate check_input validate_username all_username_chars
    is_username_char starts_with_dot ends_with_dot validate_telegram_id validate_email
    validate_uuid_list validate_ids is_valid_status finish_create Store.create create_row
    is_valid_user taken install get put ℕ_discrete String_discrete new_memory_store Store.update
    update_row uninstall remove get_by_id Service.rotated
rotates = refl

start_indexed : Indexed created.1
start_indexed =
    (create_sound env ann new_memory_store created.1 created.0 created.2 new-Indexed creates).0

abbrev idle : BatchedApplier
idle = record { window = 9; max_queue = 4; queue = []; pending = []; flushed = [] }

delete_after_update_lost_example :
    flush (absorb_effects deleted.2 (absorb_effects updated.2 idle)) ≡ idle
delete_after_update_lost_example =
    delete_after_update_lost env env 7 unlink created.1 updated.1 deleted.1 updated.0 deleted.0
      updated.2 deleted.2 idle start_indexed updates refl deletes refl

abbrev or_else : String → Option String → String
or_else d none = d
or_else d (some t) = t

-- The freshly minted token is not the one that was there.
fresh_token : rotating.token ≢ some created.0.sub_token
unfolding create check_input validate_username all_username_chars is_username_char starts_with_dot
    ends_with_dot validate_telegram_id validate_email validate_uuid_list validate_ids
    is_valid_status finish_create Store.create create_row is_valid_user taken install get put
    ℕ_discrete String_discrete new_memory_store
fresh_token e = differ "bbbb" "aaaa" refl (ap (or_else "") e)

old_token_named : created.0.sub_token ≢ ""
unfolding create check_input validate_username all_username_chars is_username_char starts_with_dot
    ends_with_dot validate_telegram_id validate_email validate_uuid_list validate_ids
    is_valid_status finish_create Store.create create_row is_valid_user taken install get put
    ℕ_discrete String_discrete new_memory_store
old_token_named = differ "aaaa" "" refl

before_rotation : get_by_id 7 created.1 ≡ ok created.0
unfolding create check_input validate_username all_username_chars is_username_char starts_with_dot
    ends_with_dot validate_telegram_id validate_email validate_uuid_list validate_ids
    is_valid_status finish_create Store.create create_row is_valid_user taken install get put
    ℕ_discrete String_discrete new_memory_store get_by_id
before_rotation = refl

old_token_expires_example : get_by_sub_token created.0.sub_token true 251 rotated.1 ≢ ok nobody
old_token_expires_example =
    old_token_expires rotating 7 (pos 50) created.1 rotated.1 rotated.0 created.0 rotated.2 251
      start_indexed rotates before_rotation old_token_named fresh_token true nobody (ground arith)
