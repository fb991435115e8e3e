-- ===== src/RateLimit/Wait.antt =====
-- One bucket over time: how long a refused caller waits.
use native.Mathlib.Nat.{div-add-mod}
use aegis_panel.Common.{
  ℕ, String, String_discrete, Option, some, none, get, get-put_self, ◌∙◌, sym, subst, ◌+◌, ◌-◌, ◌*◌,
  ◌/◌, ◌%◌, ap, ◌≢◌, ◌≤◌, ◌<◌, ◌≡◌, refl, ◌↔◌, Bool, true, false, arith, leb, ℤ, not_le, Bool-cases,
  inl, inr,
}
use aegis_panel.RateLimit.{
  token, Bucket, fresh, make_room, allow_found, allow, Limiter, positive, serve,
}

-- After a refusal the bucket is full up to `now` and holds less than a token.
refused :
    (l : Limiter) (now : ℕ) (b : Bucket)
    → b.last_refill ≤ now
    → (serve l now b).1 ≡ false
    → ((serve l now b).0.last_refill ≡ now)
      × ((serve l now b).0.tokens < token)
      × ((serve l now b).2 ≡ (token - (serve l now b).0.tokens) / positive l.rps)
unfolding serve
refused l now b past h = ground arith

-- With no idle refill, a bucket that is full up to `now` earns for what lies after it.
served_after :
    (l : Limiter) (now w : ℕ) (b : Bucket)
    → positive l.idle ≡ 0
    → token ≤ l.burst
    → b.last_refill ≡ now
    → 0 < w
    → ((serve l (now + w) b).1 ≡ true) ↔ (token ≤ b.tokens + w * positive l.rps)
unfolding serve
served_after l now w b i room past pos = ground arith

-- A refused caller is let through exactly when what it waited has earned the missing part of a
-- token (with no idle refill, and room for a whole token in the bucket).
pub refused_then_allowed :
    (l : Limiter) (now w : ℕ) (b : Bucket)
    → positive l.idle ≡ 0
    → token ≤ l.burst
    → b.last_refill ≤ now
    → 0 < w
    → (serve l now b).1 ≡ false
    → let b' = (serve l now b).0 in
      ((serve l (now + w) b').1 ≡ true) ↔ (token ≤ b'.tokens + w * positive l.rps)
refused_then_allowed l now w b i room past pos h =
    served_after l now w (serve l now b).0 i room (refused l now b past h).0 pos

enough : (d r : ℕ) → 0 < r → d ≤ (d / r + 1) * r
enough d r h = grind arith

-- The bucket that the limiter uses for a key: the stored one, or a full one.
abbrev pub bucket_of : Limiter → ℕ → Option Bucket → Bucket
bucket_of l now (some b) = b
bucket_of l now none = fresh l now

allow_found-serve :
    (l : Limiter) (k : String) (now : ℕ) (o : Option Bucket)
    → ((allow_found l k now o).1 ≡ (serve l now (bucket_of l now o)).1)
      × ((allow_found l k now o).2 ≡ (serve l now (bucket_of l now o)).2)
      × (get String_discrete k (allow_found l k now o).0.keys
          ≡ some (serve l now (bucket_of l now o)).0)
unfolding allow_found
allow_found-serve l k now (some b) = (refl, refl, get-put_self String_discrete k _ l.keys)
allow_found-serve l k now none = (refl, refl, get-put_self String_discrete k _ (make_room l))

allow_found-settings :
    (l : Limiter) (k : String) (now : ℕ) (o : Option Bucket)
    → ((allow_found l k now o).0.rps ≡ l.rps)
      × ((allow_found l k now o).0.idle ≡ l.idle)
      × ((allow_found l k now o).0.burst ≡ l.burst)
unfolding allow_found
allow_found-settings l k now (some b) = (refl, refl, refl)
allow_found-settings l k now none = (refl, refl, refl)

-- A limiter that is on answers for a key as its bucket does, and stores what the bucket became.
pub allow-serve :
    (l : Limiter) (k : String) (now : ℕ)
    → 0 < positive l.rps
    → let b = bucket_of l now (get String_discrete k l.keys) in
      ((allow l k now).1 ≡ (serve l now b).1)
      × ((allow l k now).2 ≡ (serve l now b).2)
      × (get String_discrete k (allow l k now).0.keys ≡ some (serve l now b).0)
unfolding allow
allow-serve l k now on =
    rw (not_le (positive l.rps) 0 on) (allow_found-serve l k now (get String_discrete k l.keys))

pub allow-settings :
    (l : Limiter) (k : String) (now : ℕ)
    → ((allow l k now).0.rps ≡ l.rps)
      × ((allow l k now).0.idle ≡ l.idle)
      × ((allow l k now).0.burst ≡ l.burst)
unfolding allow
allow-settings l k now = elim (Bool-cases (leb (positive l.rps) 0)) [
  | inl e ↦ rw e (refl, refl, refl)
  | inr e ↦ rw e (allow_found-settings l k now (get String_discrete k l.keys))
]

-- The bucket has not been refilled in the future.
abbrev pub IsPast : ℕ → Option Bucket → Type 0
IsPast now none = Unit
IsPast now (some b) = b.last_refill ≤ now

bucket_of-past :
    (l : Limiter) (now : ℕ) (o : Option Bucket)
    → IsPast now o
    → (bucket_of l now o).last_refill ≤ now
unfolding fresh
bucket_of-past l now none h = omega arith
bucket_of-past l now (some b) h = h

again :
    {r : ℤ} (l : Limiter) (k : String) (now w : ℕ) (b : Bucket)
    → get String_discrete k l.keys ≡ some b
    → b.last_refill ≡ now
    → 0 < positive l.rps
    → positive l.idle ≡ 0
    → token ≤ l.burst
    → 0 < w
    → l.rps ≡ r
    → ((allow l k (now + w)).1 ≡ true) ↔ (token ≤ b.tokens + w * positive r)
again l k now w b e full on idle room pos q =
    rw (← q, (allow-serve l k (now + w) on).0, e) (served_after l now w b idle room full pos)

-- Between a refusal and the next call for the key, the answer to that call is decided by the time
-- that passed: it is let through exactly when rate times time makes up what the bucket lacked.
pub allow_after_refusal :
    (l : Limiter) (k : String) (now w : ℕ)
    → 0 < positive l.rps
    → positive l.idle ≡ 0
    → token ≤ l.burst
    → IsPast now (get String_discrete k l.keys)
    → (allow l k now).1 ≡ false
    → 0 < w
    → (b : Bucket) × (get String_discrete k (allow l k now).0.keys ≡ some b)
      × (b.tokens < token)
      × ((allow l k now).2 ≡ (token - b.tokens) / positive l.rps)
      × (((allow (allow l k now).0 k (now + w)).1 ≡ true) ↔ (token ≤ b.tokens + w * positive l.rps))
allow_after_refusal l k now w on idle room past no_room pos =
    let o = get String_discrete k l.keys in
    let b = (serve l now (bucket_of l now o)).0 in
    let l' = (allow l k now).0 in
    let answer = allow-serve l k now on in
    let kept = allow-settings l k now in
    let r =
      refused l now (bucket_of l now o) (bucket_of-past l now o past) (sym answer.0 ∙ no_room) in
    (
      b,
      answer.2,
      r.1,
      answer.1 ∙ r.2,
      again l' k now w b answer.2 r.0 (rw kept.0 on) (rw kept.1 idle) (rw kept.2 room) pos kept.0,
    )

not_true : (b : Bool) → ¬ (b ≡ true) → b ≡ false
not_true b h = ground arith

exact : (d r w : ℕ) → 0 < r → w ≡ d / r → d ≤ w * r → d % r ≡ 0
exact d r w on e h = omega (arith, ap (λ (n : ℕ). n * r) e, div-add-mod d r)

-- One nanosecond past the wait that a refusal names, the caller is let through. The limiter is on,
-- without idle refill and with a burst of a token at least, and the key was last refilled in the
-- past.
pub retry_after_enough :
    (l : Limiter) (k : String) (now : ℕ)
    → 0 < positive l.rps
    → positive l.idle ≡ 0
    → token ≤ l.burst
    → IsPast now (get String_discrete k l.keys)
    → (allow l k now).1 ≡ false
    → (allow (allow l k now).0 k (now + ((allow l k now).2 + 1))).1 ≡ true
retry_after_enough l k now on idle room past no_room =
    let w = (allow l k now).2 in
    let (b, _, less, wait, answer) =
      allow_after_refusal l k now (w + 1) on idle room past no_room (omega arith) in
    answer.1 (
      omega (
        arith,
        wait,
        enough (token - b.tokens) (positive l.rps) on,
        ap (λ (n : ℕ). (n + 1) * positive l.rps) wait,
      ))

-- The wait is cut off to a whole nanosecond, not rounded up: where it is positive and not exact, a
-- caller who waits just that long is refused again. The limiter is on, without idle refill and with
-- a burst of a token at least, and the key was last refilled in the past.
pub retry_after_too_short :
    (l : Limiter) (k : String) (now : ℕ) (b : Bucket)
    → 0 < positive l.rps
    → positive l.idle ≡ 0
    → token ≤ l.burst
    → IsPast now (get String_discrete k l.keys)
    → (allow l k now).1 ≡ false
    → 0 < (allow l k now).2
    → get String_discrete k (allow l k now).0.keys ≡ some b
    → (token - b.tokens) % positive l.rps ≢ 0
    → (allow (allow l k now).0 k (now + (allow l k now).2)).1 ≡ false
retry_after_too_short l k now b on idle room past no_room some_wait at inexact =
    let w = (allow l k now).2 in
    let (c, at', less, wait, answer) =
      allow_after_refusal l k now w on idle room past no_room some_wait in
    let q : c ≡ b = ground arith in
    not_true (allow (allow l k now).0 k (now + w)).1 λ through.
      subst (λ x. (token - x.tokens) % positive l.rps ≢ 0) (sym q) inexact
        (exact (token - c.tokens) (positive l.rps) w on wait (omega (arith, answer.0 through)))
