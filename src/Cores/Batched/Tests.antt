-- ===== src/Cores/Batched/Tests.antt =====
-- The applier on short runs, and the theorems at them.
use aegis_panel.Common.{ℕ, ℕ_discrete, ◌≡◌, refl, get, put, List, [], ◌∷◌, pos}
use aegis_panel.Cores.Batched.{
  Delta, DeltaKind, add_user, remove_user, set_limit, new_batched_applier, absorb_into, absorb_all,
  Turn, send, receive, tick, run,
}
use aegis_panel.Cores.Batched.Absorb.{absorb_all-user_window, user_window}
use aegis_panel.Cores.Batched.Loop.{Windows, run-Windows, sent}

abbrev delta : DeltaKind → ℕ → Delta
delta kind user = record { kind = kind; user_id = user; payload = ""; enqueued = 5 }

abbrev deltas : List Delta
deltas = delta add_user 1 ∷ delta set_limit 2 ∷ delta remove_user 1 ∷ delta remove_user 2 ∷ []

abbrev turns : List Turn
turns =
    send 3 (delta add_user 1)
    ∷ send 3 (delta set_limit 2)
    ∷ receive
    ∷ tick
    ∷ receive
    ∷ send 4 (delta remove_user 2)
    ∷ []

-- The addition of user 1 is flushed, and the removal of user 2 is pending when the run ends.
two_windows : run turns (new_batched_applier (pos 0) (pos 0)) ≡ record {
  window = 20_000_000_000;
  max_queue = 1000;
  queue = [];
  pending = (2, delta remove_user 2) ∷ [];
  flushed = (delta add_user 1 ∷ []) ∷ [];
}
unfolding run new_batched_applier absorb_into get put ℕ_discrete
two_windows = refl

cancelled : absorb_all deltas [] ≡ (2, delta remove_user 2) ∷ []
unfolding absorb_all absorb_into ℕ_discrete
cancelled = refl

absorb_all-user_window_example :
    get ℕ_discrete 2 (absorb_all deltas []) ≡ user_window 2 (get ℕ_discrete 2 []) deltas
absorb_all-user_window_example = absorb_all-user_window 2 deltas []

run-Windows_example :
    let b = new_batched_applier (pos 5) (pos 2) in Windows (sent turns b) (run turns b)
run-Windows_example = run-Windows (pos 5) (pos 2) turns
