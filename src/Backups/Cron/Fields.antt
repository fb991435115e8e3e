-- ===== src/Backups/Cron/Fields.antt =====
-- What a field of a cron expression stands for.
use aegis_panel.Common.{
  ℕ, zero, suc, ◌+◌, ◌-◌, ◌*◌, ◌≤◌, ◌≡◌, Bool-cases, Option, Option-cases, none, some, List, [],
  ◌∷◌, ◌==◌, ltb, leb, All, All-sort_by, sort_by, arith, ℤ, pos, negsuc, inl, inr,
}
use aegis_panel.Backups.Cron.{
  contains, cut, split, atoi, in_bounds, ordered, range_of, parse_range, stepped, steps, is_star,
  collect, sorted, positive, span, step_values, range_values, has_range, plain_field, after_slash,
  parse_cron_field, add_number, collect_part,
}

-- `n` is one of i, i + step, i + 2 * step, ... up to `end`.
abbrev pub Lands : ℕ → ℕ → ℕ → ℕ → Type 0
Lands n i end step = (n ≤ end) × ((k : ℕ) × (n ≡ i + k * step))

-- A value between the bounds of its field.
abbrev pub Within : ℕ → ℕ → ℕ → Type 0
Within lo hi n = (lo ≤ n) × (n ≤ hi)

stepped-Within :
    (lo hi fuel i end step : ℕ) → lo ≤ i → end ≤ hi → All (Within lo hi) (stepped fuel i end step)
unfolding stepped
stepped-Within lo hi zero i end step low high = tt
stepped-Within lo hi (suc fuel) i end step low high = elim (Bool-cases (leb i end)) [
  | inl e ↦
      rw e ((low, ground arith), stepped-Within lo hi fuel (i + step) end step (omega arith) high)
  | inr e ↦ rw e tt
]

steps-Within :
    (lo hi start end step : ℕ) → lo ≤ start → end ≤ hi → All (Within lo hi) (steps start end step)
unfolding steps
steps-Within lo hi start end step low high =
    stepped-Within lo hi (suc end - start) start end step low high

in_bounds-Within : (lo hi : ℕ) (z : Option ℤ) (n : ℕ) → in_bounds lo hi z ≡ some n → Within lo hi n
unfolding in_bounds
in_bounds-Within lo hi none n h = cc
in_bounds-Within lo hi (some (negsuc m)) n h = cc
in_bounds-Within lo hi (some (pos m)) n h = ground arith

parse_range-Within :
    (s : List ℕ) (lo hi a b : ℕ) → parse_range s lo hi ≡ some (a, b) → (lo ≤ a) × (a ≤ b) × (b ≤ hi)
unfolding parse_range range_of ordered
parse_range-Within s lo hi a b h = elim (Option-cases (cut b'-' s)) [
  | inl e ↦ absurd (ground arith)
  | inr ((x, y), e) ↦ elim (Option-cases (in_bounds lo hi (atoi x))) [
    | inl q ↦ absurd (ground arith)
    | inr (m, q) ↦ elim (Option-cases (in_bounds lo hi (atoi y))) [
      | inl r ↦ absurd (ground arith)
      | inr (n, r) ↦
          let low = in_bounds-Within lo hi (atoi x) m q in
          let high = in_bounds-Within lo hi (atoi y) n r in ground arith
    ]
  ]
]

span-Within : (s : List ℕ) (lo hi a b : ℕ) → span s lo hi ≡ some (a, b) → (lo ≤ a) × (b ≤ hi)
unfolding span
span-Within s lo hi a b h = elim (Bool-cases (is_star s)) [
  | inl e ↦ ground arith
  | inr e ↦ let (low, _, high) = parse_range-Within s lo hi a b (ground arith) in (low, high)
]

collect-Within :
    (lo hi : ℕ) (seen : List ℕ) (ps : List (List ℕ)) (vs : List ℕ)
    → collect lo hi seen ps ≡ some vs
    → All (Within lo hi) vs
unfolding collect collect_part add_number
collect-Within lo hi seen [] [] h = tt
collect-Within lo hi seen [] (v ∷ vs) h = cc
collect-Within lo hi seen (p ∷ ps) vs h = elim (Option-cases (in_bounds lo hi (atoi p))) [
  | inl e ↦ absurd (ground arith)
  | inr (n, e) ↦ elim (Option-cases (collect lo hi (n ∷ seen) ps)) [
    | inl q ↦ absurd (ground arith)
    | inr (ns, q) ↦
        let rest = collect-Within lo hi (n ∷ seen) ps ns q in
        let own = in_bounds-Within lo hi (atoi p) n e in
        elim (Bool-cases (contains n seen)) [
          | inl known ↦ let same : ns ≡ vs = ground arith in rw (← same) rest
          | inr new ↦ let same : n ∷ ns ≡ vs = ground arith in rw (← same) (own, rest)
        ]
  ]
]

plain_field-Within :
    (s : List ℕ) (lo hi : ℕ) (vs : List ℕ) → plain_field s lo hi ≡ some vs → All (Within lo hi) vs
unfolding plain_field range_values sorted
plain_field-Within s lo hi vs h = elim (Bool-cases (has_range (cut b'-' s))) [
  | inl e ↦ elim (Option-cases (parse_range s lo hi)) [
    | inl q ↦ absurd (ground arith)
    | inr ((a, b), q) ↦
        let (low, _, high) = parse_range-Within s lo hi a b q in
        let same : steps a b 1 ≡ vs = ground arith in
        rw (← same) (steps-Within lo hi a b 1 low high)
  ]
  | inr e ↦ elim (Option-cases (collect lo hi [] (split (λ c. c == b',') s))) [
    | inl q ↦ absurd (ground arith)
    | inr (ns, q) ↦
        let same : sort_by ltb ns ≡ vs = ground arith in
        rw (← same) (
          All-sort_by ltb (Within lo hi) ns
            (collect-Within lo hi [] (split (λ c. c == b',') s) ns q))
  ]
]

after_slash-Within :
    (s : List ℕ) (lo hi : ℕ) (o : Option (List ℕ × List ℕ)) (vs : List ℕ)
    → after_slash s lo hi o ≡ some vs
    → All (Within lo hi) vs
unfolding after_slash step_values
after_slash-Within s lo hi none vs h = plain_field-Within s lo hi vs h
after_slash-Within s lo hi (some (before, after)) vs h =
    elim (Option-cases (positive (atoi after))) [
      | inl e ↦ absurd (ground arith)
      | inr (step, e) ↦ elim (Option-cases (span before lo hi)) [
        | inl q ↦ absurd (ground arith)
        | inr ((a, b), q) ↦
            let (low, high) = span-Within before lo hi a b q in
            let same : steps a b step ≡ vs = ground arith in
            rw (← same) (steps-Within lo hi a b step low high)
      ]
    ]

-- Whatever the text of a field is, each value that it is read as lies within the bounds of the
-- field.
pub parse_cron_field-Within :
    (s : List ℕ) (lo hi : ℕ) (vs : List ℕ)
    → parse_cron_field s lo hi ≡ some vs
    → All (Within lo hi) vs
unfolding parse_cron_field
parse_cron_field-Within [] lo hi vs h = cc
parse_cron_field-Within (c ∷ cs) lo hi vs h = elim (Bool-cases (is_star (c ∷ cs))) [
  | inl e ↦
      let same : steps lo hi 1 ≡ vs = ground arith in
      rw (← same) (steps-Within lo hi lo hi 1 (omega arith) (omega arith))
  | inr e ↦ after_slash-Within (c ∷ cs) lo hi (cut b'/' (c ∷ cs)) vs (ground arith)
]
