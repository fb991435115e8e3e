-- ===== src/Inbounds/Model.antt =====
-- backend/internal/inbounds/inbound.go, and the errors of store.go and service.go.
-- Ids are numbers, 0 the zero UUID (their order is that of the UUIDs' texts); times are numbers; a
-- nil pointer is `none`, and a nil slice or map the empty one; a protocol is a Go string: any text.
-- A value of `Params` is kept as a text: the code here only copies it.
use aegis_panel.Common.{Fallible}
pub use aegis_panel.Common.{ok, err, ◌>>=◌, ◌>>◌, fail_if, or_fail, >>=-eq-ok, >>-eq-ok}
use aegis_panel.Common.{
  ℕ, String, Bool, true, false, ◌||◌, Option, none, some, List, ℤ, is_below, is_above,
  if◌then◌else◌, is_text, ◌==◌,
}

abbrev pub Protocol : Type 0
Protocol = String

abbrev pub default_listen : String
default_listen = "::"

abbrev pub max_port : ℕ
max_port = 65_535

pub record Inbound : Type 0 where
  pub id : ℕ
  pub node_id : ℕ
  pub name : String
  pub protocol : Protocol
  pub listen : String
  pub listen_port : ℤ
  pub listen_ports : List ℤ
  pub enabled : Bool
  pub tags : List String
  pub template_id : Option ℕ
  pub params : List (String × String)
  pub created_at : ℕ
  pub updated_at : ℕ

abbrev pub bad_port : ℤ → Bool
bad_port p = is_below p 1 || is_above p max_port

unfoldable pub is_valid_inbound : Option Inbound → Bool
is_valid_inbound none = false
is_valid_inbound (some i) =
    if is_text i.name ""
    then false
    else if i.node_id == 0
    then false
    else if is_text i.protocol ""
    then false
    else if bad_port i.listen_port
    then false
    else if is_text i.listen ""
    then false
    else true

-- What a duplicate collides with.
pub data Slot : Type 0 where
  id_slot name_slot port_slot : Slot

-- The input that a ValidationError names.
pub data Field : Type 0 where
  id_field name_field node_id_field protocol_field listen_field listen_port_field : Field
  listen_ports_field tags_field template_id_field : Field

pub data Error : Type 0 where
  nil_inbound zero_id missing_id not_found lookup_failed : Error
  duplicate : Slot → Error
  invalid : Field → Error

abbrev pub Result {ℓ} : Type ℓ → Type ℓ
Result A = Fallible Error A
