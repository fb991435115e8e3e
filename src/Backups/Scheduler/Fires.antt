-- ===== src/Backups/Scheduler/Fires.antt =====
-- When backups fire, over a whole run of the scheduler.
use aegis_panel.Common.{
  ℕ, ◌≤◌, ◌<◌, ◌≡◌, ◌⊎◌, refl, Bool, Bool-cases, false, List, [], ◌∷◌, if◌then◌else◌, arith, inl,
  inr,
}
use aegis_panel.Backups.Cron.{Cron, Civil, matches}
use aegis_panel.Backups.Scheduler.{
  Scheduler, truncate, maybe_fire, Happening, tick, reload, happen, run,
}

-- Minutes that follow one another, all after `bound`.
abbrev pub Ascending : ℕ → List ℕ → Type 0
Ascending bound [] = Unit
Ascending bound (m ∷ ms) = (bound < m) × Ascending m ms

weaken : (a b : ℕ) (ms : List ℕ) → a ≤ b → Ascending b ms → Ascending a ms
weaken a b [] le h = tt
weaken a b (m ∷ ms) le h = (omega (arith, h.0), h.1)

-- A tick fires in no minute, or in one that is later than all before.
maybe_fire-cases :
    (civil : ℕ → Civil) (cancelled : Bool) (now : ℕ) (s : Scheduler)
    → let (t, fired) = maybe_fire civil cancelled now s in
      (s.last ≤ t.last) × ((fired ≡ []) ⊎ ((fired ≡ t.last ∷ []) × (s.last < t.last)))
unfolding maybe_fire
maybe_fire-cases civil cancelled now s = ground arith

-- Over every sequence of ticks, at whatever moments, and of reloads of the schedule, the backups
-- fire in ever later minutes: no minute has two.
pub run-Ascending :
    (civil : ℕ → Civil) (hs : List Happening) (s : Scheduler) → Ascending s.last (run civil hs s)
unfolding run happen
run-Ascending civil [] s = tt
run-Ascending civil (reload c ∷ hs) s = run-Ascending civil hs (record s { cron = c })
run-Ascending civil (tick cancelled now ∷ hs) s =
    let (later, fired) = maybe_fire-cases civil cancelled now s in
    let t = (maybe_fire civil cancelled now s).0 in
    let rest = run-Ascending civil hs t in
    elim fired [
      | inl e ↦ rw e (weaken s.last t.last (run civil hs t) later rest)
      | inr (e, lt) ↦ rw e (lt, rest)
    ]

-- Ticks at the given moments, with the context alive.
abbrev pub ticks : List ℕ → List Happening
ticks [] = []
ticks (now ∷ nows) = tick false now ∷ ticks nows

-- The ticks come in minutes of their own, all after `bound`.
abbrev pub Spaced : ℕ → List ℕ → Type 0
Spaced bound [] = Unit
Spaced bound (now ∷ nows) = (bound < truncate now) × Spaced (truncate now) nows

-- The minutes of the moments that the schedule matches.
pub due : (ℕ → Civil) → Cron → List ℕ → List ℕ
due civil c [] = []
due civil c (now ∷ nows) =
    let rest = due civil c nows in if matches c (civil now) then truncate now ∷ rest else rest

maybe_fire-due :
    (civil : ℕ → Civil) (now : ℕ) (s : Scheduler)
    → s.last < truncate now
    → maybe_fire civil false now s ≡ (
      record s { last = truncate now },
      if matches s.cron (civil now) then truncate now ∷ [] else [],
    )
unfolding maybe_fire
maybe_fire-due civil now s later = ground arith

-- While the context is alive and the ticks come in minutes of their own, after the last one looked
-- at, a backup fires in exactly the minutes whose ticks the schedule matches.
pub run-due :
    (civil : ℕ → Civil) (nows : List ℕ) (s : Scheduler)
    → Spaced s.last nows
    → run civil (ticks nows) s ≡ due civil s.cron nows
unfolding run happen due
run-due civil [] s h = refl
run-due civil (now ∷ nows) s h =
    let rest = run-due civil nows (record s { last = truncate now }) h.1 in
    rw (maybe_fire-due civil now s h.0, rest)
      (elim (Bool-cases (matches s.cron (civil now))) [ inl e ↦ rw e refl | inr e ↦ rw e refl ])
