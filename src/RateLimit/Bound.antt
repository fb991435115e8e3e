-- ===== src/RateLimit/Bound.antt =====
-- How much one key can get through, whatever the other keys do.
use aegis_panel.Common.{
  ℕ, ◌+◌, ◌-◌, ◌*◌, ◌≤◌, ◌<◌, ◌≡◌, ◌≢◌, ◌⊎◌, refl, sym, subst, ◌∙◌, ap, String, String_discrete,
  get, Option, some, none, List, [], ◌∷◌, arith, ite, if_pos, if_neg,
}
use aegis_panel.RateLimit.Wait.{allow-serve, bucket_of}
use aegis_panel.RateLimit.{token, Bucket, Limiter, positive, allow}
use aegis_panel.RateLimit.Account.{
  IdleFair, mul_mono, earned, count, serve-Granted, get-allow_ne, Same, allow-Same, Account,
  Account-bucket, Account-later,
}

-- How many of the calls for `k` get through.
unfoldable pub passed : String → Limiter → List (ℕ × String) → ℕ
passed k l [] = 0
passed k l ((now, j) ∷ calls) =
    ite (String_discrete j k) (count (allow l j now).1) 0 + passed k (allow l j now).0 calls

-- The clock does not go back, and the time of the last call.
abbrev pub Ordered : ℕ → List (ℕ × String) → Type 0
Ordered t [] = Unit
Ordered t ((now, _) ∷ calls) = (t ≤ now) × Ordered now calls

abbrev pub last_time : ℕ → List (ℕ × String) → ℕ
last_time t [] = t
last_time t ((now, _) ∷ calls) = last_time now calls

last_time-ge : (t : ℕ) (calls : List (ℕ × String)) → Ordered t calls → t ≤ last_time t calls
last_time-ge t [] h = omega arith
last_time-ge t ((now, j) ∷ calls) h = omega (arith, h.0, last_time-ge now calls h.1)

-- The settings under which the account is kept.
record Metered (l : Limiter) (burst rate : ℕ) : Type 0 where
  on : 0 < rate
  rated : positive l.rps ≡ rate
  sized : l.burst ≡ burst
  uncapped : positive l.max_keys ≡ 0
  fair : (positive l.idle ≡ 0) ⊎ (burst ≤ positive l.idle * rate)

Metered-Same :
    (l m : Limiter) (burst rate : ℕ) → Same l m → Metered l burst rate → Metered m burst rate
Metered-Same l m burst rate s v = record {
  on = v.on;
  rated = ap positive s.rate ∙ v.rated;
  sized = s.size ∙ v.sized;
  uncapped = ap positive s.cap ∙ v.uncapped;
  fair = rw s.idle_time v.fair;
}

own_call :
    (l : Limiter) (k : String) (burst rate t0 g now later : ℕ)
    → Metered l burst rate
    → now ≤ later
    → Account burst rate t0 g now (get String_discrete k l.keys)
    → Account burst rate t0
        (g + count (allow l k later).1)
        later
        (get String_discrete k (allow l k later).0.keys)
own_call l k burst rate t0 g now later v h a =
    let o = get String_discrete k l.keys in
    let answer = allow-serve l k later (rw v.rated v.on) in
    rw (← v.rated, ← v.sized, answer.2, answer.0)
      (serve-Granted l t0 g later (bucket_of l later o) (rw (v.rated, v.sized) v.fair)
        (Account-bucket l t0 g now later o h (rw (v.rated, v.sized) a)))

other_call :
    (l : Limiter) (j k : String) (burst rate t0 g now later : ℕ)
    → Metered l burst rate
    → j ≢ k
    → now ≤ later
    → Account burst rate t0 g now (get String_discrete k l.keys)
    → Account burst rate t0 g later (get String_discrete k (allow l j later).0.keys)
other_call l j k burst rate t0 g now later v other h a =
    rw (get-allow_ne l j k later v.uncapped other) (Account-later burst rate t0 g now later _ h a)

Account-within :
    (burst rate t0 g now : ℕ) (o : Option Bucket)
    → Account burst rate t0 g now o
    → g * token + t0 * rate ≤ burst + now * rate
Account-within burst rate t0 g now none a = omega (arith, a.0, mul_mono t0 now rate a.1)
Account-within burst rate t0 g now (some b) v =
    omega (arith, v.spent, mul_mono b.last_refill now rate (omega (arith, v.refilled, v.seen)))

run-Account :
    (l : Limiter) (k : String) (burst rate t0 g now : ℕ) (calls : List (ℕ × String))
    → Metered l burst rate
    → Ordered now calls
    → Account burst rate t0 g now (get String_discrete k l.keys)
    → ((g + passed k l calls) * token + t0 * rate ≤ burst + last_time now calls * rate)
unfolding passed
run-Account l k burst rate t0 g now [] v h a = omega (arith, Account-within burst rate t0 g now _ a)
run-Account l k burst rate t0 g now ((later, j) ∷ calls) v h a =
    let l' = (allow l j later).0 in
    let v' = Metered-Same l l' burst rate (allow-Same l j later) v in
    elim (String_discrete j k) [
      | yes e ↦
          let own : Account burst rate t0 (g + count (allow l j later).1) later
              (get String_discrete k l'.keys) =
            subst
              (λ i.
                Account burst rate t0 (g + count (allow l i later).1) later
                  (get String_discrete k (allow l i later).0.keys))
              (sym e) (own_call l k burst rate t0 g now later v h.0 a) in
          rw (if_pos _ e) (
            omega (
              arith,
              run-Account l' k burst rate t0 (g + count (allow l j later).1) later calls v' h.1 own,
            ))
      | no e ↦ rw (if_neg _ e) (
          omega (
            arith,
            run-Account l' k burst rate t0 g later calls v' h.1
                (other_call l j k burst rate t0 g now later v e h.0 a),
          ))
    ]

-- Whatever calls are made for whatever keys, in the order of their times from `t0` on, a key that
-- was not tracked gets through at most its burst and what the rate earns from `t0` to the last
-- call. The limiter is on, with no cap on the keys; its idle refill is off, or the rate earns the
-- burst in an idle period.
pub passed-le :
    (l : Limiter) (k : String) (t0 : ℕ) (calls : List (ℕ × String))
    → 0 < positive l.rps
    → positive l.max_keys ≡ 0
    → IdleFair l
    → get String_discrete k l.keys ≡ none
    → Ordered t0 calls
    → passed k l calls * token ≤ l.burst + (last_time t0 calls - t0) * positive l.rps
passed-le l k t0 calls on uncapped fair new h =
    let v : Metered l l.burst (positive l.rps) = record {
      on = on;
      rated = refl;
      sized = refl;
      uncapped = uncapped;
      fair = fair;
    } in
    omega (
      arith,
      run-Account l k l.burst (positive l.rps) t0 0 t0 calls v h (rw new (refl, omega arith)),
      earned t0 (last_time t0 calls) (positive l.rps) (last_time-ge t0 calls h),
    )
