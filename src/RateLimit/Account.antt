-- ===== src/RateLimit/Account.antt =====
-- What one bucket has let through, against what it has earned.
use aegis_panel.Common.{
  ℕ, ◌+◌, ◌-◌, ◌*◌, ◌≤◌, ◌≡◌, ◌≢◌, ◌⊎◌, refl, ◌∙◌, ap, String, String_discrete, get, get-put_ne,
  Bool, Bool-cases, true, false, Option, some, none, arith, leb, inl, inr,
}
use aegis_panel.RateLimit.Wait.{allow-settings, bucket_of}
use aegis_panel.RateLimit.{
  token, Bucket, Limiter, positive, idle_refill, refill, consume, serve, fresh, make_room,
  allow_found, allow,
}

-- `Granted burst rate t0 g now b`: since `t0` the bucket has let `g` requests through, and it has had no
-- more than its burst and what the rate earns.
pub record Granted (burst rate t0 g now : ℕ) (b : Bucket) : Type 0 where
  pub refilled : b.last_refill ≤ b.last_seen
  pub seen : b.last_seen ≤ now
  pub spent : g * token + b.tokens + t0 * rate ≤ burst + b.last_refill * rate

abbrev GrantedBy : Limiter → ℕ → ℕ → ℕ → Bucket → Type 0
GrantedBy l = Granted l.burst (positive l.rps)

-- Idle refill is off, or gives no more than the rate would have.
abbrev pub IdleFair : Limiter → Type 0
IdleFair l = (positive l.idle ≡ 0) ⊎ (l.burst ≤ positive l.idle * positive l.rps)

pub mul_mono : (a b r : ℕ) → a ≤ b → a * r ≤ b * r
mul_mono a b r h = grind arith

pub earned : (a b r : ℕ) → a ≤ b → a * r + (b - a) * r ≡ b * r
earned a b r h =
    let whole : a + (b - a) ≡ b = omega arith in omega (arith, ap (λ (n : ℕ). n * r) whole)

abbrev pub count : Bool → ℕ
count true = 1
count false = 0

-- The same account while a call is served, before it marks the bucket as seen.
record Spent (l : Limiter) (t0 g now : ℕ) (b : Bucket) : Type 0 where
  past : b.last_refill ≤ now
  within : g * token + b.tokens + t0 * positive l.rps ≤ l.burst + b.last_refill * positive l.rps

idle_refill-Spent :
    (l : Limiter) (t0 g now : ℕ) (b : Bucket)
    → IdleFair l
    → GrantedBy l t0 g now b
    → Spent l t0 g now (idle_refill l now b)
unfolding idle_refill
idle_refill-Spent l t0 g now b fair v = ground (
  arith,
  earned b.last_seen now (positive l.rps),
  mul_mono (positive l.idle) (now - b.last_seen) (positive l.rps),
  mul_mono b.last_refill b.last_seen (positive l.rps),
)

refill-Spent :
    (l : Limiter) (t0 g now : ℕ) (b : Bucket)
    → Spent l t0 g now b
    → Spent l t0 g now (refill l now b)
unfolding refill
refill-Spent l t0 g now b v = ground (arith, earned b.last_refill now (positive l.rps))

seen-Granted :
    (l : Limiter) (t0 g now : ℕ) (b : Bucket)
    → Spent l t0 g now b
    → GrantedBy l t0 g now (record b { last_seen = now })
seen-Granted l t0 g now b v = record { refilled = v.past; seen = omega arith; spent = v.within }

consume-Granted :
    (l : Limiter) (t0 g now : ℕ) (b : Bucket)
    → GrantedBy l t0 g now b
    → GrantedBy l t0 (g + count (consume l b).1) now (consume l b).0
unfolding consume
consume-Granted l t0 g now b v = ground arith

-- A call keeps the account of its bucket.
pub serve-Granted :
    (l : Limiter) (t0 g now : ℕ) (b : Bucket)
    → IdleFair l
    → GrantedBy l t0 g now b
    → GrantedBy l t0 (g + count (serve l now b).1) now (serve l now b).0
unfolding serve
serve-Granted l t0 g now b fair v =
    consume-Granted l t0 g now _ (
      seen-Granted l t0 g now _ (refill-Spent l t0 g now _ (idle_refill-Spent l t0 g now b fair v)))

later-Granted :
    (l : Limiter) (t0 g now later : ℕ) (b : Bucket)
    → now ≤ later
    → GrantedBy l t0 g now b
    → GrantedBy l t0 g later b
later-Granted l t0 g now later b h v = record {
  refilled = v.refilled;
  seen = omega arith;
  spent = v.spent;
}

no_eviction : (l : Limiter) → positive l.max_keys ≡ 0 → make_room l ≡ l.keys
unfolding make_room
no_eviction l h = rw h

-- With no cap on the keys no bucket is dropped.
pub get-allow_ne :
    (l : Limiter) (j k : String) (now : ℕ)
    → positive l.max_keys ≡ 0
    → j ≢ k
    → get String_discrete k (allow l j now).0.keys ≡ get String_discrete k l.keys
unfolding allow allow_found
get-allow_ne l j k now uncapped other = elim (Bool-cases (leb (positive l.rps) 0)) [
  | inl e ↦ rw e refl
  | inr e ↦ rw e (go (get String_discrete j l.keys))
]
  where
    go :
        (o : Option Bucket)
        → get String_discrete k (allow_found l j now o).0.keys ≡ get String_discrete k l.keys
    go (some b) = get-put_ne String_discrete j k _ l.keys other
    go none =
        get-put_ne String_discrete j k _ (make_room l) other
        ∙ ap (get String_discrete k) (no_eviction l uncapped)

allow-max_keys : (l : Limiter) (k : String) (now : ℕ) → (allow l k now).0.max_keys ≡ l.max_keys
unfolding allow allow_found
allow-max_keys l k now = elim (Bool-cases (leb (positive l.rps) 0)) [
  | inl e ↦ rw e refl
  | inr e ↦ rw e (go (get String_discrete k l.keys))
]
  where
    go : (o : Option Bucket) → (allow_found l k now o).0.max_keys ≡ l.max_keys
    go (some b) = refl
    go none = refl

-- What the settings of two limiters share.
pub record Same (l m : Limiter) : Type 0 where
  pub rate : m.rps ≡ l.rps
  pub idle_time : m.idle ≡ l.idle
  pub size : m.burst ≡ l.burst
  pub cap : m.max_keys ≡ l.max_keys

pub allow-Same : (l : Limiter) (k : String) (now : ℕ) → Same l (allow l k now).0
allow-Same l k now =
    let s = allow-settings l k now in
    record { rate = s.0; idle_time = s.1; size = s.2; cap = allow-max_keys l k now }

-- The account of one key: its bucket's, or nothing granted yet.
abbrev pub Account : ℕ → ℕ → ℕ → ℕ → ℕ → Option Bucket → Type 0
Account burst rate t0 g now none = (g ≡ 0) × (t0 ≤ now)
Account burst rate t0 g now (some b) = Granted burst rate t0 g now b

pub Account-bucket :
    (l : Limiter) (t0 g now later : ℕ) (o : Option Bucket)
    → now ≤ later
    → Account l.burst (positive l.rps) t0 g now o
    → GrantedBy l t0 g later (bucket_of l later o)
unfolding fresh
Account-bucket l t0 g now later none h a = record {
  refilled = omega arith;
  seen = omega arith;
  spent = ground (arith, mul_mono t0 later (positive l.rps));
}
Account-bucket l t0 g now later (some b) h a = later-Granted l t0 g now later b h a

pub Account-later :
    (burst rate t0 g now later : ℕ) (o : Option Bucket)
    → now ≤ later
    → Account burst rate t0 g now o
    → Account burst rate t0 g later o
Account-later burst rate t0 g now later none h a = (a.0, omega arith)
Account-later burst rate t0 g now later (some b) h v = record {
  refilled = v.refilled;
  seen = omega arith;
  spent = v.spent;
}
