-- ===== src/Inbounds/Validate/Ports.antt =====
-- What normaliseListenPorts returns.
use aegis_panel.Common.{
  ◌≤◌, ◌≡◌, ◌↔◌, subst, true, false, ◌&&◌, not, List, [], ◌∷◌, ℤ, arith, length, member, All,
  Bool-cases, inl, inr,
}
use aegis_panel.Inbounds.Model.{bad_port, ok, ◌>>=◌, >>=-eq-ok}
use aegis_panel.Inbounds.Validate.{
  same_port, validate_port, collect_ports, normalise_listen_ports, max_listen_ports,
}

same_port_iff : (p q : ℤ) → (same_port p q ≡ true) ↔ (p ≡ q)
unfolding same_port
same_port_iff p q = ground arith

-- Each port once.
abbrev pub Distinct : List ℤ → Type 0
Distinct [] = Unit
Distinct (p ∷ ps) = (member same_port p ps ≡ false) × Distinct ps

abbrev pub Port : ℤ → Type 0
Port p = bad_port p ≡ false

-- What the loop returns: the ports that were not seen before, each once.
pub record Collected (seen ps out : List ℤ) : Type 0 where
  pub members :
      (q : ℤ) → member same_port q out ≡ (member same_port q ps && not (member same_port q seen))
  pub distinct : Distinct out
  pub ports : All Port out
  pub shorter : length out ≤ length ps

collect-Collected : (seen ps out : List ℤ) → collect_ports seen ps ≡ ok out → Collected seen ps out
unfolding collect_ports validate_port
collect-Collected seen [] out h = record {
  members = λ q. ground arith;
  distinct = ground arith;
  ports = ground arith;
  shorter = ground arith;
}
collect-Collected seen (p ∷ ps) out h = elim (Bool-cases (member same_port p seen)) [
  | inl e ↦
      let c = collect-Collected seen ps out (ground arith) in
      record {
        members = λ q. ground (arith, c.members q, same_port_iff p q);
        distinct = c.distinct;
        ports = c.ports;
        shorter = omega (arith, c.shorter);
      }
  | inr e ↦
      let step : (collect_ports (p ∷ seen) ps >>= λ rest. ok (p ∷ rest)) ≡ ok out = ground arith in
      let (rest, found, same) = >>=-eq-ok (collect_ports (p ∷ seen) ps) _ step in
      let c = collect-Collected (p ∷ seen) ps rest found in
      let q : p ∷ rest ≡ out = ground arith in
      let fresh : member same_port p rest ≡ false =
        ground (arith, c.members p, same_port_iff p p) in
      let valid : bad_port p ≡ false = ground arith in
      subst (Collected seen (p ∷ ps)) q (record {
        members = λ q. ground (arith, c.members q, same_port_iff p q);
        distinct = (fresh, c.distinct);
        ports = (valid, c.ports);
        shorter = omega (arith, c.shorter);
      })
]

-- Where normaliseListenPorts succeeds, it returns just the ports that it was given, each once, all
-- of them from 1 to 65535, and at most eight.
pub normalise_listen_ports-ports :
    (ps out : List ℤ)
    → normalise_listen_ports ps ≡ ok out
    → ((q : ℤ) → member same_port q out ≡ member same_port q ps)
      × Distinct out
      × All Port out
      × (length out ≤ max_listen_ports)
unfolding normalise_listen_ports
normalise_listen_ports-ports ps out h =
    let c = collect-Collected [] ps out (ground arith) in
    (λ q. ground (arith, c.members q), c.distinct, c.ports, ground (arith, c.shorter))
