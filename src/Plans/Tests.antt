-- ===== src/Plans/Tests.antt =====
-- The plan store and service on small inputs.
use aegis_panel.Common.{
  String_discrete, ℕ_discrete, get, put, remove, ◌≡◌, refl, true, none, some, [], ◌∷◌, pos, arith,
  trim_space, trim_left, trim_right, keep_end, is_space,
}
use aegis_panel.Plans.Model.{Plan, is_valid_plan, is_valid_reset, among, ok}
use aegis_panel.Plans.Store
use aegis_panel.Plans.Store.{
  MemoryStore, new_memory_store, install, taken, create_row, update_row, get_by_id, get_by_name,
}
use aegis_panel.Plans.Store.Indexes.{Reach, start, next, creates, Indexed, Reach-Indexed}
use aegis_panel.Plans.Service.{
  Env, dispatches, records, CreateInput, check_input, validate_name, validate_duration,
  validate_non_negative, validate_reset, new_plan, create, UpdateInput, check_update, merged,
  finish_update, update,
}
use aegis_panel.Plans.Service.Changes.{create_succeeds}

abbrev env : Env
env = record { now = 5; store_now = 6; new_id = 7 }

abbrev input : CreateInput
input = record {
  name = " Basic ";
  traffic_limit_bytes = pos 0;
  duration = pos 86_400_000_000_000;
  device_limit = pos 3;
  reset_period = "";
  price_cents = pos 499;
}

abbrev basic : Plan
basic = record {
  id = 7;
  name = " Basic ";
  traffic_limit_bytes = pos 0;
  duration = pos 86_400_000_000_000;
  device_limit = pos 3;
  reset_period = "monthly";
  price_cents = pos 499;
  created_at = 5;
  updated_at = 6;
}

abbrev one_plan : MemoryStore
one_plan = record { by_id = (7, basic) ∷ []; by_name = (" Basic ", basic) ∷ [] }

abbrev patch : UpdateInput
patch = record {
  name = some "Pro";
  traffic_limit_bytes = none;
  duration = none;
  device_limit = none;
  reset_period = none;
  price_cents = some (pos 999);
}

abbrev pro : Plan
pro = record basic { name = "Pro"; price_cents = pos 999; updated_at = 6 }

abbrev renamed : MemoryStore
renamed = record { by_id = (7, pro) ∷ []; by_name = ("Pro", pro) ∷ [] }

input_passes : check_input input ≡ ok tt
unfolding check_input validate_name validate_duration validate_non_negative validate_reset
    is_valid_reset among trim_space trim_left trim_right keep_end is_space
input_passes = refl

-- The name keeps its outer spaces.
creates_basic :
    create env input new_memory_store
    ≡ ok (
      basic,
      one_plan,
      dispatches "plan.created" 7 ∷ records "plan.create" 7 none (some basic) ∷ [],
    )
unfolding create new_plan check_input validate_name validate_duration validate_non_negative
    validate_reset is_valid_reset among trim_space trim_left trim_right keep_end is_space
    Store.create create_row is_valid_plan taken new_memory_store install get put remove ℕ_discrete
    String_discrete
creates_basic = refl

renames_basic :
    update env 7 patch one_plan
    ≡ ok (
      pro,
      renamed,
      dispatches "plan.updated" 7 ∷ records "plan.update" 7 (some pro) (some pro) ∷ [],
    )
unfolding update merged finish_update check_update validate_name validate_non_negative
    is_valid_reset among trim_space trim_left trim_right keep_end is_space Store.update update_row
    is_valid_plan taken install get put remove ℕ_discrete String_discrete get_by_id
renames_basic = refl

stores_basic : Store.create (some basic) 6 new_memory_store ≡ ok (basic, one_plan)
unfolding Store.create create_row is_valid_plan is_valid_reset among taken new_memory_store install
    get put remove ℕ_discrete String_discrete
stores_basic = refl

reached : Reach one_plan
reached = next start (creates (some basic) basic 6 stores_basic)

create_succeeds_example :
    (out : Plan) × (t : MemoryStore) × (create env input new_memory_store
      ≡ ok (out, t, dispatches "plan.created" 7 ∷ records "plan.create" 7 none (some out) ∷ []))
    × (get_by_id 7 t ≡ ok out)
    × (out.name ≡ " Basic ")
    × (is_valid_plan (some out) ≡ true)
    × Indexed t
unfolding new_memory_store get
create_succeeds_example =
    create_succeeds env input new_memory_store (Reach-Indexed start) input_passes (λ e. omega arith)
      refl (λ i q h. cc)

abbrev empty : MemoryStore
empty = record { by_id = []; by_name = [] }

deletes_basic : Store.delete 7 one_plan ≡ ok empty
unfolding Store.delete get remove ℕ_discrete String_discrete
deletes_basic = refl
