-- ===== src/RateLimit/Tests.antt =====
-- The limiter on short runs, and the theorems at them.
use aegis_panel.Common.{
  ℕ, ◌+◌, ◌*◌, ◌-◌, ◌≤◌, String, String_discrete, get, put, ◌≡◌, refl, inl, true, false, some, List,
  [], ◌∷◌, arith, pos, differ,
}
use aegis_panel.RateLimit.{token, Limiter, allow}
use aegis_panel.RateLimit.Wait.{retry_after_enough}
use aegis_panel.RateLimit.Bound.{passed, passed-le}
use aegis_panel.RateLimit.Eviction.{Capped, allow-Capped}

-- Three requests a second, a burst of one.
abbrev limiter : Limiter
limiter = record { keys = []; rps = pos 3_000_000; burst = token; idle = pos 0; max_keys = pos 0 }

-- The bucket of a key that has just used its one token.
abbrev spent : Limiter
spent = record limiter {
  keys = ("a", record { tokens = 0; last_refill = 10; last_seen = 10 }) ∷ [];
}

refused_for : ((allow spent "a" 10).1 ≡ false) × ((allow spent "a" 10).2 ≡ 333_333_333)
unfolding allow get String_discrete
refused_for = (refl, refl)

abbrev calls : List (ℕ × String)
calls = (5, "a") ∷ (5, "b") ∷ (6, "a") ∷ (400_000_000, "a") ∷ []

two_of_three : passed "a" limiter calls ≡ 2
unfolding passed allow get put String_discrete
two_of_three = refl

passed-le_example : passed "a" limiter calls * token ≤ token + (400_000_000 - 5) * 3_000_000
unfolding get
passed-le_example = passed-le limiter "a" 5 calls (omega arith) refl (inl refl) refl (omega arith)

retry_after_enough_example :
    (allow (allow spent "a" 10).0 "a" (10 + ((allow spent "a" 10).2 + 1))).1 ≡ true
unfolding get String_discrete
retry_after_enough_example =
    retry_after_enough spent "a" 10 (omega arith) refl (omega arith) (omega arith) refused_for.0

kept :
    get String_discrete "a" (allow spent "a" 10).0.keys
    ≡ some (record { tokens = 0; last_refill = 10; last_seen = 10 })
unfolding allow get put String_discrete
kept = refl

abbrev capped : Limiter
capped = record spent { max_keys = pos 1 }

capped-Capped : Capped capped
unfolding get
capped-Capped = record {
  cap = omega arith;
  unique = (refl, tt);
  named = (differ "a" "" refl, tt);
  fits = omega arith;
}

-- The cap of one key holds while a second key comes in.
allow-Capped_example : Capped (allow capped "b" 20).0
allow-Capped_example = allow-Capped capped "b" 20 (differ "b" "" refl) capped-Capped
