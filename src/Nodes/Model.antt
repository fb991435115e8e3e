-- ===== src/Nodes/Model.antt =====
-- backend/internal/nodes/node.go, and the errors of store.go and service.go. Ids are numbers, 0 the
-- zero UUID; times are numbers; a nil pointer is `none`, and a nil slice the empty one; a state and a
-- transport are Go strings: any text; a ciphertext is the list of its bytes.
use aegis_panel.Common.{Fallible}
pub use aegis_panel.Common.{ok, err, ◌>>=◌, ◌>>◌, fail_if, or_fail, >>=-eq-ok, >>-eq-ok}
use aegis_panel.Common.{ℕ, String, Bool, false, ◌&&◌, not, Option, none, some, List, is_text}
use aegis_panel.Bootstrap.State.{State}

abbrev pub agent_transport_http : String
agent_transport_http = "http"

abbrev pub agent_transport_grpc : String
agent_transport_grpc = "grpc"

pub record Node : Type 0 where
  pub id : ℕ
  pub name : String
  pub region : String
  pub state : State
  pub capacity_hint : String
  pub address : String
  pub agent_bearer : String
  pub ssh_private_key_ciphertext : List ℕ
  pub agent_transport : String
  pub tags : List String
  pub created_at : ℕ
  pub updated_at : ℕ

unfoldable pub is_valid_node : Option Node → Bool
is_valid_node none = false
is_valid_node (some n) =
    not (is_text n.name "") && (not (is_text n.region "") && not (is_text n.address ""))

-- The input that a ValidationError names.
pub data Field : Type 0 where
  id_field name_field region_field address_field state_field agent_transport_field : Field

pub data Error : Type 0 where
  nil_node zero_id missing_id not_found duplicate_name duplicate_id : Error
  invalid : Field → Error

abbrev pub Result {ℓ} : Type ℓ → Type ℓ
Result A = Fallible Error A
