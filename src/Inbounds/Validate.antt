-- ===== src/Inbounds/Validate.antt =====
-- backend/internal/inbounds/validate.go. An error keeps the field and not the text. `len` counts
-- bytes, and a loop over a text walks code points, as in Go.
pub mod Ports
pub mod Listens
use Prim.Native.String.{len}
use aegis_panel.Common.{
  ℕ, zero, suc, String, Bool, true, false, ◌&&◌, ◌||◌, not, List, [], ◌∷◌, ltb, leb, ◌==◌, is_text,
  codes, ℤ, ℤ_discrete, is_name_char, is_control, every, member, distinct_from, trim_space,
  collect_tags, length, take, if◌then◌else◌, Option, none, some, ite,
}
use aegis_panel.Inbounds.Model.{
  Protocol, bad_port, Field, name_field, node_id_field, protocol_field, listen_field,
  listen_port_field, listen_ports_field, tags_field, invalid, Result, ok, err, ◌>>=◌, ◌>>◌, fail_if,
}

abbrev pub max_name_len : ℕ
max_name_len = 63

abbrev pub max_listen_len : ℕ
max_listen_len = 63

abbrev pub max_tag_len : ℕ
max_tag_len = 32

abbrev pub max_tags : ℕ
max_tags = 16

unfoldable pub validate_name : String → Result (Unit {0})
validate_name name = do
  fail_if (is_text name "") (invalid name_field)
  fail_if (ltb max_name_len (len name)) (invalid name_field)
  fail_if (not (every is_name_char (codes name))) (invalid name_field)

-- `exists` says whether the nodes service finds a node.
unfoldable pub validate_node : (ℕ → Bool) → ℕ → Result (Unit {0})
validate_node exists id = do
  fail_if (id == 0) (invalid node_id_field)
  fail_if (not (exists id)) (invalid node_id_field)

-- isAllowedProtocol, with the keys of allowedProtocols.
unfoldable pub is_allowed_protocol : Protocol → Bool
is_allowed_protocol p =
    is_text p "vless" || (is_text p "hysteria2" || (is_text p "shadowsocks" || is_text p "trojan"))

unfoldable pub validate_protocol : Protocol → Result (Unit {0})
validate_protocol p = do
  fail_if (is_text p "") (invalid protocol_field)
  fail_if (not (is_allowed_protocol p)) (invalid protocol_field)

unfoldable pub validate_port : ℤ → Result (Unit {0})
validate_port p = fail_if (bad_port p) (invalid listen_port_field)

unfoldable pub is_host_char : ℕ → Bool
is_host_char r = is_name_char r || r == b':'

unfoldable pub is_printable_host : String → Bool
is_printable_host s = not (is_text s "") && every is_host_char (codes s)

-- `is_ip` is the answer of net.ParseIP.
unfoldable pub validate_listen : (String → Bool) → String → Result (Unit {0})
validate_listen is_ip s = do
  fail_if (is_text s "") (invalid listen_field)
  fail_if (ltb max_listen_len (len s)) (invalid listen_field)
  fail_if (not (every (λ r. not (is_control r)) (codes s))) (invalid listen_field)
  if is_ip s then ok tt else fail_if (not (is_printable_host s)) (invalid listen_field)

abbrev pub max_listen_ports : ℕ
max_listen_ports = 8

unfoldable pub same_port : ℤ → ℤ → Bool
unfolding ℤ_discrete
same_port p q = ite (ℤ_discrete p q) true false

-- The loop of normaliseListenPorts, with the ports seen so far.
unfoldable pub collect_ports : List ℤ → List ℤ → Result (List ℤ)
unfolding same_port
collect_ports seen [] = ok []
collect_ports seen (p ∷ ps) =
    let old = collect_ports seen ps in
    let new = collect_ports (p ∷ seen) ps in
    do validate_port p; if member same_port p seen then old else do rest ← new; ok (p ∷ rest)

unfoldable pub normalise_listen_ports : List ℤ → Result (List ℤ)
unfolding collect_ports
normalise_listen_ports ps = do
  fail_if (ltb max_listen_ports (length ps)) (invalid listen_ports_field)
  collect_ports [] ps

abbrev pub long_tag : String → Bool
long_tag raw = not (is_text (trim_space raw) "") && ltb max_tag_len (len (trim_space raw))

unfoldable pub any_long : List String → Bool
any_long [] = false
any_long (raw ∷ rest) = long_tag raw || any_long rest

unfoldable pub validate_tags : List String → Result (Unit {0})
validate_tags tags = do
  fail_if (ltb max_tags (length tags)) (invalid tags_field)
  fail_if (any_long tags) (invalid tags_field)

unfoldable pub normalise_tags : List String → List String
unfolding collect_tags
normalise_tags tags = collect_tags max_tag_len max_tags [] tags
