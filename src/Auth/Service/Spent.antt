-- ===== src/Auth/Service/Spent.antt =====
-- A token that cannot be consumed again stays so, whatever the service is asked.
use aegis_panel.Common.{
  vals, String, ◌≡◌, ◌≢◌, inl, inr, refl, Bool-cases, Option, Option-cases, none, some, is_text,
  arith,
}
use aegis_panel.Auth.Model.{User, Result, ok, err}
use aegis_panel.Auth.Store.{
  update_password, find_by_id, MemoryStore, consume_refresh, get_by_id, find_refresh_user,
  create_user, lookup_user, install,
}
use aegis_panel.Auth.Store.Tokens.{
  Spent, consume_refresh-Spent, save_refresh-Spent, revoke_chain-Spent, revoke_one-Spent,
}
use aegis_panel.Auth.Service.{
  change_password, Env, issue, issue_pair, login_found, login, is_refresh_token, after_reuse,
  refresh_user, refresh_consumed, refresh, revoke, CreateAdminInput, create_admin,
}

-- The call does not mint a token of this hash.
abbrev pub MintsOther : Env → String → Type 0
MintsOther env h = (token : String) → env.token ≡ some token → env.hash_token token ≢ h

issue_pair-Spent :
    (env : Env) (u : User) (h : String) (s : MemoryStore)
    → MintsOther env h
    → Spent h s
    → Spent h (issue_pair env u s).1
unfolding issue_pair issue
issue_pair-Spent env u h s other v = go (env.access u) env.token refl
  where
    go : (access token : Option String) → env.token ≡ token → Spent h (issue env u access token s).1
    go none token e = v
    go (some access) none e = v
    go (some access) (some token) e =
        save_refresh-Spent h (env.hash_token token) u.id _ s (other token e) v

login-Spent :
    (env : Env) (name password h : String) (s : MemoryStore)
    → MintsOther env h
    → Spent h s
    → Spent h (login env name password s).1
unfolding login login_found
login-Spent env name password h s other v = go (lookup_user name s)
  where
    go : (u : Result User) → Spent h (login_found env password u s).1
    go (err e) = v
    go (ok u) = elim (Bool-cases (env.password_matches password u.password_hash)) [
      | inl e ↦ rw e (issue_pair-Spent env u h s other v)
      | inr e ↦ rw e v
    ]

pub refresh_user-Spent :
    (env : Env) (u : Result User) (h : String) (s : MemoryStore)
    → MintsOther env h
    → Spent h s
    → Spent h (refresh_user env u s).1
unfolding refresh_user
refresh_user-Spent env (err e) h s other v = v
refresh_user-Spent env (ok u) h s other v = issue_pair-Spent env u h s other v

after_reuse-Spent :
    (env : Env) (o : Result String) (h : String) (s : MemoryStore)
    → Spent h s
    → Spent h (after_reuse env o s)
unfolding after_reuse
after_reuse-Spent env (ok user_id) h s v = revoke_chain-Spent h user_id env.revoke_now s v
after_reuse-Spent env (err e) h s v = v

refresh_consumed-Spent :
    (env : Env) (k h : String) (c : Result String × MemoryStore)
    → MintsOther env h
    → Spent h c.1
    → Spent h (refresh_consumed env k c).1
unfolding refresh_consumed
refresh_consumed-Spent env k h (err e, s) other v =
    after_reuse-Spent env (find_refresh_user k s) h s v
refresh_consumed-Spent env k h (ok user_id, s) other v =
    refresh_user-Spent env (get_by_id user_id s) h s other v

refresh-Spent :
    (env : Env) (token h : String) (s : MemoryStore)
    → MintsOther env h
    → Spent h s
    → Spent h (refresh env token s).1
unfolding refresh
refresh-Spent env token h s other v = elim (Bool-cases (is_refresh_token token)) [
  | inl e ↦ rw e (
      refresh_consumed-Spent env (env.hash_token token) h
        (consume_refresh (env.hash_token token) env.store_now s) other
        (consume_refresh-Spent h (env.hash_token token) env.store_now s v))
  | inr e ↦ rw e v
]

revoke-Spent :
    (env : Env) (token h : String) (s : MemoryStore) → Spent h s → Spent h (revoke env token s)
unfolding revoke
revoke-Spent env token h s v = elim (Bool-cases (is_text token "")) [
  | inl e ↦ rw e v
  | inr e ↦ rw e (revoke_one-Spent h (env.hash_token token) s v)
]

same_tokens : (h : String) (s t : MemoryStore) → t.refresh ≡ s.refresh → Spent h s → Spent h t
same_tokens h s t e v = rw e v

create_admin-tokens :
    (env : Env) (i : CreateAdminInput) (s t : MemoryStore) (u : User)
    → create_admin env i s ≡ ok (u, t)
    → t.refresh ≡ s.refresh
unfolding create_admin create_user install
create_admin-tokens env i s t u e = elim (Option-cases (env.hash_password i.plaintext)) [
  | inl n ↦ absurd (ground arith)
  | inr (hash, n) ↦ ground arith
]

change_password-tokens :
    (env : Env) (id plaintext : String) (s t : MemoryStore)
    → change_password env id plaintext s ≡ ok t
    → t.refresh ≡ s.refresh
unfolding change_password update_password
change_password-tokens env id plaintext s t e = elim (Option-cases (env.hash_password plaintext)) [
  | inl n ↦ absurd (ground arith)
  | inr (hash, n) ↦ elim (Option-cases (find_by_id id (vals s.users))) [
    | inl q ↦ absurd (ground arith)
    | inr (u, q) ↦ ground arith
  ]
]

-- Calls that mint no token of hash `h`, one after another.
pub data Calls (h : String) : MemoryStore → MemoryStore → Type 0 where
  done : {s : MemoryStore} → Calls h s s
  logs_in :
      {s t : MemoryStore} (env : Env) (name password : String)
      → MintsOther env h
      → Calls h (login env name password s).1 t
      → Calls h s t
  refreshes :
      {s t : MemoryStore} (env : Env) (token : String)
      → MintsOther env h
      → Calls h (refresh env token s).1 t
      → Calls h s t
  revokes :
      {s t : MemoryStore} (env : Env) (token : String)
      → Calls h (revoke env token s) t
      → Calls h s t
  adds :
      {s r t : MemoryStore} (env : Env) (i : CreateAdminInput) (u : User)
      → create_admin env i s ≡ ok (u, r)
      → Calls h r t
      → Calls h s t
  changes :
      {s r t : MemoryStore} (env : Env) (id plaintext : String)
      → change_password env id plaintext s ≡ ok r
      → Calls h r t
      → Calls h s t

pub Calls-Spent : (h : String) {s t : MemoryStore} → Calls h s t → Spent h s → Spent h t
Calls-Spent h done v = v
Calls-Spent h {s} (logs_in env name password other rest) v =
    Calls-Spent h rest (login-Spent env name password h s other v)
Calls-Spent h {s} (refreshes env token other rest) v =
    Calls-Spent h rest (refresh-Spent env token h s other v)
Calls-Spent h {s} (revokes env token rest) v = Calls-Spent h rest (revoke-Spent env token h s v)
Calls-Spent h {s} (adds {r = r} env i u e rest) v =
    Calls-Spent h rest (same_tokens h s r (create_admin-tokens env i s r u e) v)
Calls-Spent h {s} (changes {r = r} env id plaintext e rest) v =
    Calls-Spent h rest (same_tokens h s r (change_password-tokens env id plaintext s r e) v)
