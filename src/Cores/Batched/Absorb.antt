-- ===== src/Cores/Batched/Absorb.antt =====
-- What a window leaves pending for one user.
use aegis_panel.Common.{
  ℕ, ℕ_discrete, GoMap, get, put, remove, get-put, get-remove, ◌≡◌, refl, ◌∙◌, Option, none, some,
  List, [], ◌∷◌, ◌++◌, arith, ite, if◌then◌else◌, ap, Option-cases, inl, inr, Bool-cases, Unique,
  Unique-put, Unique-remove, Entries, Entries-put, Entries-remove,
}
use aegis_panel.Cores.Batched.{
  BatchedApplier, absorb, flush, add_user, remove_user, Delta, cancels, absorb_into, absorb_all,
  merge,
}

-- The user's own state: what one more delta makes of the pending one.
abbrev pub step_user : Option Delta → Delta → Option Delta
step_user none d = some d
step_user (some old) d = if cancels old.kind d.kind then none else some d

-- A delta changes the entry of its own user, by the rule for one user, and no other entry.
pub get-absorb :
    (u : ℕ) (d : Delta) (m : GoMap ℕ Delta)
    → get ℕ_discrete u (absorb_into d m)
      ≡ ite (ℕ_discrete d.user_id u) (step_user (get ℕ_discrete u m) d) (get ℕ_discrete u m)
unfolding absorb_into merge
get-absorb u d m = elim (Option-cases (get ℕ_discrete d.user_id m)) [
  | inl e ↦ ground (arith, get-put ℕ_discrete d.user_id u d m)
  | inr (old, e) ↦
      ground (arith, get-put ℕ_discrete d.user_id u d m, get-remove ℕ_discrete d.user_id u m)
]

-- The deltas of one user alone, folded by the rule for one user.
pub user_window : ℕ → Option Delta → List Delta → Option Delta
user_window u s [] = s
user_window u s (d ∷ ds) = user_window u (ite (ℕ_discrete d.user_id u) (step_user s d) s) ds

-- What a window leaves for a user depends on that user's deltas alone, in their order: coalescing
-- never mixes users.
pub absorb_all-user_window :
    (u : ℕ) (ds : List Delta) (m : GoMap ℕ Delta)
    → get ℕ_discrete u (absorb_all ds m) ≡ user_window u (get ℕ_discrete u m) ds
unfolding absorb_all user_window
absorb_all-user_window u [] m = refl
absorb_all-user_window u (d ∷ ds) m =
    absorb_all-user_window u ds (absorb_into d m) ∙ ap (λ s. user_window u s ds) (get-absorb u d m)

pub absorb_all-append :
    (ds es : List Delta) (m : GoMap ℕ Delta)
    → absorb_all (ds ++ es) m ≡ absorb_all es (absorb_all ds m)
unfolding absorb_all
absorb_all-append [] es m = refl
absorb_all-append (d ∷ ds) es m = absorb_all-append ds es (absorb_into d m)

-- One entry to a user, under the user's own id.
pub record Coalesced (m : GoMap ℕ Delta) : Type 0 where
  pub unique : Unique ℕ_discrete m
  pub keyed : Entries ℕ_discrete (λ u d. d.user_id ≡ u) m

absorb_into-Coalesced : (d : Delta) (m : GoMap ℕ Delta) → Coalesced m → Coalesced (absorb_into d m)
unfolding absorb_into merge
absorb_into-Coalesced d m c = go (get ℕ_discrete d.user_id m)
  where
    added : Coalesced (put ℕ_discrete d.user_id d m)
    added = record {
      unique = Unique-put ℕ_discrete d.user_id d m c.unique;
      keyed = Entries-put ℕ_discrete _ d.user_id d m refl c.keyed;
    }

    gone : Coalesced (remove ℕ_discrete d.user_id m)
    gone = record {
      unique = Unique-remove ℕ_discrete d.user_id m c.unique;
      keyed = Entries-remove ℕ_discrete _ d.user_id m c.keyed;
    }

    go : (o : Option Delta) → Coalesced (merge o d m)
    go none = added
    go (some old) = elim (Bool-cases (cancels old.kind d.kind)) [
      | inl e ↦ rw e gone
      | inr e ↦ rw e added
    ]

-- However many deltas a window takes, it keeps at most one for each user, filed under that user.
pub absorb_all-Coalesced :
    (ds : List Delta) (m : GoMap ℕ Delta) → Coalesced m → Coalesced (absorb_all ds m)
unfolding absorb_all
absorb_all-Coalesced [] m c = c
absorb_all-Coalesced (d ∷ ds) m c =
    absorb_all-Coalesced ds (absorb_into d m) (absorb_into-Coalesced d m c)

-- An addition and then a removal of one user, with nothing else pending, leave the applier as it
-- was, and the next tick hands nothing to the callback. `users.Service.Update` sends an addition
-- for a user whom the node already serves, so a delete in the same window is lost.
pub update_then_delete_lost :
    (a r : Delta) (b : BatchedApplier)
    → a.kind ≡ add_user
    → r.kind ≡ remove_user
    → r.user_id ≡ a.user_id
    → b.pending ≡ []
    → flush (absorb r (absorb a b)) ≡ b
unfolding flush absorb absorb_into put remove get
update_then_delete_lost a r b ka kr same e = ground arith
