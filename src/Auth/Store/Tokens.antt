-- ===== src/Auth/Store/Tokens.antt =====
-- What the store does to one refresh token.
use aegis_panel.Common.{
  ℕ, String, String_discrete, GoMap, get, get-put, get-remove, ◌≤◌, ◌≡◌, ◌≢◌, ◌⊎◌, inl, inr, refl,
  true, false, Option-cases, none, some, [], ◌∷◌, is_text_iff, arith,
}
use aegis_panel.Auth.Model.{invalid_token, ok, err}
use aegis_panel.Auth.Store.{
  RefreshEntry, MemoryStore, save_refresh, consume_found, consume_refresh, revoke_entry,
  revoke_entries, revoke_chain, mark_used, revoke_one,
}

-- The token of this hash cannot be consumed again: it is unknown, or used.
abbrev pub Spent : String → MemoryStore → Type 0
Spent h s =
    (get String_discrete h s.refresh ≡ none)
    ⊎ ((entry : RefreshEntry) × (get String_discrete h s.refresh ≡ some entry)
        × (entry.used ≡ true))

pub Spent-consume :
    (h : String) (now : ℕ) (s : MemoryStore)
    → Spent h s
    → consume_refresh h now s ≡ (err invalid_token, s)
unfolding consume_refresh consume_found
Spent-consume h now s v = ground arith

pub consume-spends :
    (h user_id : String) (now : ℕ) (s t : MemoryStore)
    → consume_refresh h now s ≡ (ok user_id, t)
    → Spent h t
unfolding consume_refresh consume_found
consume-spends h user_id now s t e = elim (Option-cases (get String_discrete h s.refresh)) [
  | inl n ↦ absurd (ground arith)
  | inr (entry, n) ↦
      ground (arith, get-put String_discrete h h (record entry { used = true }) s.refresh)
]

pub consume_refresh-Spent :
    (h k : String) (now : ℕ) (s : MemoryStore) → Spent h s → Spent h (consume_refresh k now s).1
unfolding consume_refresh consume_found
consume_refresh-Spent h k now s v = elim (Option-cases (get String_discrete k s.refresh)) [
  | inl n ↦ ground arith
  | inr (entry, n) ↦ ground (
    arith,
    get-put String_discrete k h (record entry { used = true }) s.refresh,
    get-remove String_discrete k h s.refresh,
  )
]

pub save_refresh-Spent :
    (h k user_id : String) (expires : ℕ) (s : MemoryStore)
    → k ≢ h
    → Spent h s
    → Spent h (save_refresh user_id k expires s)
unfolding save_refresh
save_refresh-Spent h k user_id expires s other v = ground (
  arith,
  get-put String_discrete k h (record { user_id = user_id; expires_at = expires; used = false })
      s.refresh,
)

revoke_entries-get :
    (user_id h : String) (now : ℕ) (m : GoMap String RefreshEntry) (entry : RefreshEntry)
    → get String_discrete h m ≡ some entry
    → get String_discrete h (revoke_entries user_id now m) ≡ some (revoke_entry user_id now entry)
unfolding revoke_entries get
revoke_entries-get user_id h now [] entry e = cc
revoke_entries-get user_id h now ((k, x) ∷ m) entry e =
    ground (arith, revoke_entries-get user_id h now m entry)

revoke_entries-none :
    (user_id h : String) (now : ℕ) (m : GoMap String RefreshEntry)
    → get String_discrete h m ≡ none
    → get String_discrete h (revoke_entries user_id now m) ≡ none
unfolding revoke_entries get
revoke_entries-none user_id h now [] e = refl
revoke_entries-none user_id h now ((k, x) ∷ m) e =
    ground (arith, revoke_entries-none user_id h now m)

pub revoke_chain-Spent :
    (h user_id : String) (now : ℕ) (s : MemoryStore)
    → Spent h s
    → Spent h (revoke_chain user_id now s)
unfolding revoke_chain revoke_entry
revoke_chain-Spent h user_id now s (inl n) = inl (revoke_entries-none user_id h now s.refresh n)
revoke_chain-Spent h user_id now s (inr (entry, at, used)) = inr (
  revoke_entry user_id now entry,
  revoke_entries-get user_id h now s.refresh entry at,
  ground arith,
)

pub revoke_one-Spent : (h k : String) (s : MemoryStore) → Spent h s → Spent h (revoke_one k s)
unfolding revoke_one mark_used
revoke_one-Spent h k s v = elim (Option-cases (get String_discrete k s.refresh)) [
  | inl n ↦ ground arith
  | inr (entry, n) ↦
      ground (arith, get-put String_discrete k h (record entry { used = true }) s.refresh)
]

-- After a revocation, no token of the user can be consumed, at that time or later.
pub revoked-consume :
    (h user_id : String) (now later : ℕ) (s : MemoryStore) (entry : RefreshEntry)
    → get String_discrete h s.refresh ≡ some entry
    → entry.user_id ≡ user_id
    → now ≤ later
    → (consume_refresh h later (revoke_chain user_id now s)).0 ≡ err invalid_token
unfolding revoke_chain consume_refresh consume_found revoke_entry
revoked-consume h user_id now later s entry at own le =
    ground (
      arith,
      revoke_entries-get user_id h now s.refresh entry at,
      is_text_iff entry.user_id user_id,
    )
