-- ===== src/RateLimit/Eviction.antt =====
-- The cap on the keys: what is evicted, and that the cap holds.
use aegis_panel.Common.{
  ℕ, ◌≤◌, ◌<◌, ◌≡◌, ◌≢◌, ◌⊎◌, refl, subst, Unique, Unique-remove, Unique-put, lt→ltb, leb→le,
  length-put_old, Entries-get, ◌∙◌, ap, String, String_discrete, GoMap, get, remove, Bool-cases,
  Option, some, none, [], ◌∷◌, length, arith, ltb, leb, inl, inr, if_pos, if_neg, length-remove-lt,
  length-put-le, Entries, Entries-put, Entries-remove,
}
use aegis_panel.RateLimit.{
  Bucket, Limiter, positive, oldest, evict_found, evict_oldest, make_room, serve, fresh,
  allow_found, allow,
}

-- An entry of the map under this key, last seen then.
abbrev Holds : String → ℕ → GoMap String Bucket → Type 0
Holds k t [] = ⊥
Holds k t ((i, b) ∷ m) = ((i ≡ k) × (b.last_seen ≡ t)) ⊎ Holds k t m

abbrev NoOlder : ℕ → GoMap String Bucket → Type 0
NoOlder t = Entries String_discrete (λ _ b. t ≤ b.last_seen)

NoOlder-le : (m : GoMap String Bucket) (s t : ℕ) → s ≤ t → NoOlder t m → NoOlder s m
NoOlder-le [] s t h o = tt
NoOlder-le ((i, b) ∷ m) s t h o = (omega arith, NoOlder-le m s t h o.1)

-- What the scan ends with, from a best candidate so far.
record Best (m : GoMap String Bucket) (j : String) (seen : ℕ) : Type 0 where
  key : String
  at : ℕ
  found : oldest m (some (j, seen)) ≡ some (key, at)
  le_start : at ≤ seen
  no_older : NoOlder at m
  held : ((j ≡ key) × (seen ≡ at)) ⊎ Holds key at m

oldest-Best : (m : GoMap String Bucket) (j : String) (seen : ℕ) → Best m j seen
unfolding oldest
oldest-Best [] j seen = record {
  key = j;
  at = seen;
  found = refl;
  le_start = omega arith;
  no_older = tt;
  held = inl (refl, refl);
}
oldest-Best ((i, b) ∷ m) j seen =
    let older = oldest-Best m i b.last_seen in
    let rest = oldest-Best m j seen in
    elim (Bool-cases (ltb b.last_seen seen)) [
      | inl e ↦ record {
        key = older.key;
        at = older.at;
        found = rw (e, oldest) older.found;
        le_start = ground (arith, older.le_start);
        no_older = (older.le_start, older.no_older);
        held = inr (older.held);
      }
      | inr e ↦ record {
        key = rest.key;
        at = rest.at;
        found = rw (e, oldest) rest.found;
        le_start = rest.le_start;
        no_older = (ground (arith, rest.le_start), rest.no_older);
        held = elim rest.held [ inl p ↦ inl p | inr p ↦ inr (inr p) ];
      }
    ]

Holds-get :
    (k : String) (t : ℕ) (m : GoMap String Bucket)
    → Unique String_discrete m
    → Holds k t m
    → (b : Bucket) × (get String_discrete k m ≡ some b) × (b.last_seen ≡ t)
unfolding get
Holds-get k t [] u h = absurd h
Holds-get k t ((i, b) ∷ m) u (inl (e, at)) = (b, if_pos (String_discrete i k) e _ _, at)
Holds-get k t ((i, b) ∷ m) u (inr h) =
    let (c, found, at) = Holds-get k t m u.1 h in
    (c, if_neg (String_discrete i k) (λ e. clash i e u.0 found) _ _ ∙ found, at)
  where
    clash :
        (i : String)
        → i ≡ k
        → get String_discrete i m ≡ none
        → {c : Bucket} → get String_discrete k m ≡ some c
        → ⊥
    clash i e missing found = ground arith

-- No key is the empty text.
abbrev IsNamed : String → Bucket → Type 0
IsNamed k b = k ≢ ""

abbrev pub Named : GoMap String Bucket → Type 0
Named = Entries String_discrete IsNamed

-- A full map with named keys loses exactly a key that no other is older than.
pub evict_oldest_lem :
    (i : String) (b : Bucket) (m : GoMap String Bucket)
    → Unique String_discrete ((i, b) ∷ m)
    → Named ((i, b) ∷ m)
    → (k : String) × (c : Bucket) × (get String_discrete k ((i, b) ∷ m) ≡ some c)
      × Entries String_discrete (λ _ x. c.last_seen ≤ x.last_seen) ((i, b) ∷ m)
      × (evict_oldest ((i, b) ∷ m) ≡ remove String_discrete k ((i, b) ∷ m))
unfolding evict_oldest
evict_oldest_lem i b m u n =
    let best = oldest-Best m i b.last_seen in
    let (c, found, at) = Holds-get best.key best.at ((i, b) ∷ m) u best.held in
    let named : best.key ≢ "" = Entries-get String_discrete _ best.key c ((i, b) ∷ m) n found in
    (
      best.key,
      c,
      found,
      NoOlder-le ((i, b) ∷ m) c.last_seen best.at (omega (arith, at))
          (best.le_start, best.no_older),
      rw (best.found, evict_found) (if_neg (String_discrete best.key "") named _ _),
    )

-- A capped limiter between calls.
pub record Capped (l : Limiter) : Type 0 where
  pub cap : 0 < positive l.max_keys
  pub unique : Unique String_discrete l.keys
  pub named : Named l.keys
  pub fits : length l.keys ≤ positive l.max_keys

record Room (l : Limiter) (m : GoMap String Bucket) : Type 0 where
  unique : Unique String_discrete m
  named : Named m
  fits : length m < positive l.max_keys

make_room-Room : (l : Limiter) → Capped l → Room l (make_room l)
unfolding make_room
make_room-Room l v = elim (Bool-cases (leb (positive l.max_keys) (length l.keys))) [
  | inl e ↦ rw (e, lt→ltb 0 (positive l.max_keys) v.cap) (full l.keys refl (leb→le _ _ e))
  | inr e ↦
      rw (e, lt→ltb 0 (positive l.max_keys) v.cap)
        (record { unique = v.unique; named = v.named; fits = ground arith })
]
  where
    full :
        (m : GoMap String Bucket)
        → l.keys ≡ m
        → positive l.max_keys ≤ length l.keys
        → Room l (evict_oldest m)
    full [] q le = absurd (omega (arith, v.cap, le, ap length q))
    full ((i, b) ∷ m) q le =
        let u : Unique String_discrete ((i, b) ∷ m) = subst (Unique String_discrete) q v.unique in
        let n : Named ((i, b) ∷ m) = subst Named q v.named in
        let (k, c, found, _, e) = evict_oldest_lem i b m u n in
        rw e (record {
          unique = Unique-remove String_discrete k ((i, b) ∷ m) u;
          named = Entries-remove String_discrete IsNamed k ((i, b) ∷ m) n;
          fits =
              omega
                (arith, length-remove-lt String_discrete k ((i, b) ∷ m) found, ap length q, v.fits);
        })

-- `Allow` for a key that is not the empty text keeps the number of tracked keys within the cap.
pub allow-Capped :
    (l : Limiter) (k : String) (now : ℕ) → k ≢ "" → Capped l → Capped (allow l k now).0
unfolding allow allow_found
allow-Capped l k now named v = elim (Bool-cases (leb (positive l.rps) 0)) [
  | inl e ↦ rw e v
  | inr e ↦ rw e (go (get String_discrete k l.keys) refl)
]
  where
    go : (o : Option Bucket) → get String_discrete k l.keys ≡ o → Capped (allow_found l k now o).0
    go none e =
        let r = make_room-Room l v in
        record {
          cap = v.cap;
          unique =
              Unique-put String_discrete k (serve l now (fresh l now)).0 (make_room l) r.unique;
          named =
              Entries-put String_discrete IsNamed k (serve l now (fresh l now)).0 (make_room l)
                named r.named;
          fits = omega (
            arith,
            length-put-le String_discrete k (serve l now (fresh l now)).0 (make_room l),
            r.fits,
          );
        }
    go (some b) e = record {
      cap = v.cap;
      unique = Unique-put String_discrete k (serve l now b).0 l.keys v.unique;
      named = Entries-put String_discrete IsNamed k (serve l now b).0 l.keys named v.named;
      fits = omega (arith, length-put_old String_discrete k (serve l now b).0 l.keys e, v.fits);
    }
