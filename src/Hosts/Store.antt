-- ===== src/Hosts/Store.antt =====
-- backend/internal/hosts/store.go. A store's clock is the argument `now`; on an error the store is
-- unchanged. The table holds clones (the clone of a host is the host), and the other map ids. The
-- mutex makes each method one step.
pub mod Remarks
pub mod Lookups
use aegis_panel.Common.{
  ℕ, String, ℕ_discrete, codes, codes_discrete, lower_ascii, GoMap, get, put, remove, Bool, true,
  false, ◌&&◌, Option, none, some, List, [], ◌∷◌, ◌==◌, ltb, lt_signed, is_some, if◌then◌else◌,
  vals, sort_by, ite, distinct_from, map,
}
use aegis_panel.Hosts.Model.{
  Host, Endpoint, nil_host, zero_id, missing_id, not_found, duplicate_remark, duplicate_id, Result,
  ok, err, ◌>>=◌, ◌>>◌, fail_if, or_fail,
}

pub record MemoryStore : Type 0 where
  pub by_id : GoMap ℕ Host
  pub by_key : GoMap (List ℕ) ℕ

unfoldable pub new_memory_store : MemoryStore
new_memory_store = record { by_id = []; by_key = [] }

unfoldable pub remark_key : String → List ℕ
unfolding lower_ascii
remark_key remark = lower_ascii (codes remark)

-- The row as it was stored (the caller's struct is written too), and the store.
unfoldable pub create_row : Host → ℕ → MemoryStore → Result (Host × MemoryStore)
unfolding remark_key
create_row h now s = do
  fail_if (h.id == 0) zero_id
  fail_if (is_some (get codes_discrete (remark_key h.remark) s.by_key)) duplicate_remark
  fail_if (is_some (get ℕ_discrete h.id s.by_id)) duplicate_id
  let row = record h { created_at = now; updated_at = now }
  ok (
    row,
    record {
      by_id = put ℕ_discrete h.id row s.by_id;
      by_key = put codes_discrete (remark_key h.remark) h.id s.by_key;
    },
  )

unfoldable pub create : Option Host → ℕ → MemoryStore → Result (Host × MemoryStore)
create none now s = err nil_host
create (some h) now s = create_row h now s

unfoldable pub get_by_id : ℕ → MemoryStore → Result Host
get_by_id id s = or_fail (get ℕ_discrete id s.by_id) not_found

-- A key whose id has no row would be a nil dereference: `none`.
unfoldable pub get_by_remark : String → MemoryStore → Option (Result Host)
unfolding remark_key
get_by_remark remark s = elim (get codes_discrete (remark_key remark) s.by_key) [
  | none ↦ some (err not_found)
  | some id ↦ elim (get ℕ_discrete id s.by_id) [ none ↦ none | some h ↦ some (ok h) ]
]

unfoldable pub before : Host → Host → Bool
before g h =
    if lt_signed g.priority h.priority
    then true
    else if lt_signed h.priority g.priority
    then false
    else ltb g.created_at h.created_at

unfoldable pub list : MemoryStore → List Host
unfolding vals sort_by before
list s = sort_by before (vals s.by_id)

unfoldable pub update_found : Host → Host → ℕ → MemoryStore → Result (Host × MemoryStore)
unfolding remark_key
update_found existing h now s =
    let row : Host = record h { created_at = existing.created_at; updated_at = now } in
    let rows : GoMap ℕ Host = put ℕ_discrete h.id row s.by_id in
    ite (codes_discrete (remark_key h.remark) (remark_key existing.remark))
      (ok (row, record s { by_id = rows }))
      (if is_some (get codes_discrete (remark_key h.remark) s.by_key)
        then err duplicate_remark
        else ok (
          row,
          record {
            by_id = rows;
            by_key =
                put codes_discrete (remark_key h.remark) h.id
                  (remove codes_discrete (remark_key existing.remark) s.by_key);
          },
        ))

unfoldable pub update : Option Host → ℕ → MemoryStore → Result (Host × MemoryStore)
update none now s = err missing_id
update (some h) now s = do
  fail_if (h.id == 0) missing_id
  existing ← or_fail (get ℕ_discrete h.id s.by_id) not_found
  update_found existing h now s

unfoldable pub delete : ℕ → MemoryStore → Result MemoryStore
unfolding remark_key
delete id s = do
  h ← or_fail (get ℕ_discrete id s.by_id) not_found
  ok (record {
    by_id = remove ℕ_discrete id s.by_id;
    by_key = remove codes_discrete (remark_key h.remark) s.by_key;
  })

abbrev pub is_endpoint : ℕ → ℕ → Endpoint → Bool
is_endpoint node inbound ep = (ep.node_id == node) && (ep.inbound_id == inbound)

unfoldable pub uses : ℕ → ℕ → List Endpoint → Bool
uses node inbound [] = false
uses node inbound (ep ∷ eps) =
    let rest = uses node inbound eps in if is_endpoint node inbound ep then true else rest

-- The loops of HostsForInbound: the first host with such an endpoint.
unfoldable pub find_host : ℕ → ℕ → List Host → Option ℕ
unfolding uses
find_host node inbound [] = none
find_host node inbound (h ∷ hs) =
    let rest = find_host node inbound hs in
    if uses node inbound h.endpoints then some h.id else rest

unfoldable pub hosts_for_inbound : ℕ → ℕ → MemoryStore → Option ℕ
unfolding vals find_host
hosts_for_inbound node inbound s = find_host node inbound (vals s.by_id)

abbrev pub node_of : Endpoint → ℕ
node_of ep = ep.node_id

unfoldable pub nodes_for_host : ℕ → MemoryStore → Result (List ℕ)
unfolding distinct_from
nodes_for_host id s = do
  h ← or_fail (get ℕ_discrete id s.by_id) not_found
  ok (distinct_from ◌==◌ [] (map node_of h.endpoints))
