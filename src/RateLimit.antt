-- ===== src/RateLimit.antt =====
-- backend/internal/ratelimit/ratelimit.go: a token bucket for each key.
-- Floats: a rate is counted in millionths of a token per second and a bucket in `token` = 10^15
-- parts of a token, so that nanoseconds times rate is exact; the rounding of Go's float64 is not
-- modelled. Times and durations are nanoseconds. `burst` is not negative; the rate, the idle time
-- and the cap may be, and then mean "off" as 0 does.
pub mod Wait
pub mod Account
pub mod Bound
pub mod Eviction
mod Tests
use aegis_panel.Common.{
  ℕ, ◌+◌, ◌-◌, ◌*◌, ◌/◌, String, String_discrete, GoMap, get, put, remove, Bool, true, false, ◌&&◌,
  ◌||◌, Option, none, some, List, [], ◌∷◌, length, ltb, leb, if◌then◌else◌, ite, ℤ, pos, negsuc,
}

abbrev pub token : ℕ
token = 1_000_000_000_000_000

pub record Bucket : Type 0 where
  pub tokens : ℕ
  pub last_refill : ℕ
  pub last_seen : ℕ

pub record Limiter : Type 0 where
  pub keys : GoMap String Bucket
  pub rps : ℤ
  pub burst : ℕ
  pub idle : ℤ
  pub max_keys : ℤ

-- The value of a setting that is off at 0 and below.
abbrev pub positive : ℤ → ℕ
positive (pos n) = n
positive (negsuc n) = 0

pub new_limiter : ℤ → ℕ → ℤ → Limiter
new_limiter rate burst idle = record {
  keys = [];
  rps = rate;
  burst = burst;
  idle = idle;
  max_keys = pos 0;
}

pub set_max_keys : ℤ → Limiter → Limiter
set_max_keys n l = record l { max_keys = n }

pub size : Limiter → ℕ
size l = length l.keys

-- The scan for the oldest key: the first one, then any that is strictly older.
oldest : GoMap String Bucket → Option (String × ℕ) → Option (String × ℕ)
oldest [] best = best
oldest ((k, b) ∷ m) none = oldest m (some (k, b.last_seen))
oldest ((k, b) ∷ m) (some (j, seen)) =
    oldest m (if ltb b.last_seen seen then some (k, b.last_seen) else some (j, seen))

-- The empty key, which also stands for "nothing found", is never deleted.
evict_found : Option (String × ℕ) → GoMap String Bucket → GoMap String Bucket
unfolding remove
evict_found none m = m
evict_found (some (k, seen)) m = ite (String_discrete k "") m (remove String_discrete k m)

pub evict_oldest : GoMap String Bucket → GoMap String Bucket
unfolding oldest evict_found
evict_oldest m = evict_found (oldest m none) m

pub make_room : Limiter → GoMap String Bucket
unfolding evict_oldest
make_room l =
    if ltb 0 (positive l.max_keys) && leb (positive l.max_keys) (length l.keys)
    then evict_oldest l.keys
    else l.keys

pub idle_refill : Limiter → ℕ → Bucket → Bucket
idle_refill l now b =
    if ltb 0 (positive l.idle) && ltb (positive l.idle) (now - b.last_seen)
    then record b { tokens = l.burst; last_refill = now }
    else b

pub refill : Limiter → ℕ → Bucket → Bucket
refill l now b =
    let elapsed = now - b.last_refill in
    let tokens = b.tokens + elapsed * positive l.rps in
    if ltb 0 elapsed
    then record b { tokens = if ltb l.burst tokens then l.burst else tokens; last_refill = now }
    else b

-- The bucket, whether the request may proceed, and how long to wait if not.
pub consume : Limiter → Bucket → Bucket × Bool × ℕ
consume l b =
    if leb token b.tokens
    then (record b { tokens = b.tokens - token }, true, 0)
    else (b, false, (token - b.tokens) / positive l.rps)

pub serve : Limiter → ℕ → Bucket → Bucket × Bool × ℕ
unfolding idle_refill refill consume
serve l now b =
    let refilled = refill l now (idle_refill l now b) in
    consume l (record refilled { last_seen = now })

pub fresh : Limiter → ℕ → Bucket
fresh l now = record { tokens = l.burst; last_refill = now; last_seen = now }

store_bucket : Limiter → String → GoMap String Bucket → Bucket × Bool × ℕ → Limiter × Bool × ℕ
unfolding put
store_bucket l k m (b, allowed, wait) =
    (record l { keys = put String_discrete k b m }, allowed, wait)

pub allow_found : Limiter → String → ℕ → Option Bucket → Limiter × Bool × ℕ
unfolding store_bucket serve fresh make_room
allow_found l k now (some b) = store_bucket l k l.keys (serve l now b)
allow_found l k now none = store_bucket l k (make_room l) (serve l now (fresh l now))

pub allow : Limiter → String → ℕ → Limiter × Bool × ℕ
unfolding allow_found get
allow l k now =
    if leb (positive l.rps) 0
    then (l, true, 0)
    else allow_found l k now (get String_discrete k l.keys)

-- `Allow` on a nil limiter lets everything pass.
pub allow_nil_safe : Option Limiter → String → ℕ → Bool × ℕ
unfolding allow
allow_nil_safe none k now = (true, 0)
allow_nil_safe (some l) k now = let (l', allowed, wait) = allow l k now in (allowed, wait)
