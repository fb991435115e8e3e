-- ===== src/Users/Store/Tests.antt =====
-- The store after two creates and an update, and the theorems at it.
use aegis_panel.Common.{
  ℕ, ◌≡◌, ◌≢◌, refl, String, String_discrete, ℕ_discrete, get, put, remove, true, none, some, [],
  pos,
}
use aegis_panel.Users.Model.{User, is_valid_user, is_valid_status, ok}
use aegis_panel.Users.Store.{
  MemoryStore, new_memory_store, install, uninstall, taken, create_row, create, update_row, update,
  get_by_sub_token, by_prev, honour_prev, current_or_prev,
}
use aegis_panel.Users.Store.Indexes.{Indexed, Reach, start, next, creates, updates, Reach-Indexed}
use aegis_panel.Users.Store.Lookups.{Row, Speaks, get_by_sub_token-Speaks}

abbrev named : ℕ → String → String → User
named id name token = record {
  id = id;
  external_id = "";
  username = name;
  status = "active";
  plan_id = none;
  expire_at = none;
  traffic_limit_bytes = pos 0;
  traffic_used_bytes = pos 0;
  last_reset_at = none;
  device_limit = pos 0;
  hosts_allowlist = [];
  hosts_blocklist = [];
  sub_token = token;
  sub_token_rotated_at = none;
  sub_token_prev = "";
  sub_token_prev_expires_at = none;
  telegram_id = none;
  email = "";
  created_at = 9;
  updated_at = 9;
}

abbrev bob : User
bob = named 1 "bob" "t1"

-- The same user with a new token, the old one good until 20.
abbrev bob_rotated : User
bob_rotated = record bob {
  sub_token = "t2";
  sub_token_prev = "t1";
  sub_token_prev_expires_at = some 20;
}

abbrev one_row : MemoryStore
one_row = install bob new_memory_store

abbrev after : MemoryStore
after = install bob_rotated (uninstall bob one_row)

creates_bob : create (some bob) 9 new_memory_store ≡ ok (bob, one_row)
unfolding create create_row is_valid_user is_valid_status taken install get put ℕ_discrete
    String_discrete new_memory_store
creates_bob = refl

updates_bob : update (some bob_rotated) 9 one_row ≡ ok (bob_rotated, after)
unfolding update update_row is_valid_user is_valid_status taken install uninstall get put remove
    ℕ_discrete String_discrete new_memory_store
updates_bob = refl

after_reached : Reach after
after_reached =
    next (next start (creates (some bob) bob 9 creates_bob))
      (updates (some bob_rotated) bob_rotated 9 updates_bob)

found_after : get_by_sub_token "t1" true 20 after ≡ ok bob_rotated
unfolding get_by_sub_token by_prev honour_prev current_or_prev install uninstall get put remove
    ℕ_discrete String_discrete new_memory_store
found_after = refl

Reach-Indexed_example : Indexed after
Reach-Indexed_example = Reach-Indexed after_reached

get_by_sub_token-Speaks_example :
    (bob.sub_token ≢ "") × Row after bob_rotated × Speaks "t1" true 20 bob_rotated
get_by_sub_token-Speaks_example =
    get_by_sub_token-Speaks "t1" true 20 after bob_rotated (Reach-Indexed after_reached) found_after
