-- ===== src/Auth/Service/Sessions.antt =====
-- Refresh tokens over the calls of the service.
use aegis_panel.Common.{
  ℕ, String, String_discrete, get, put, ◌+◌, ◌≤◌, ◌≡◌, ◌≢◌, inl, inr, refl, sym, subst, ap,
  Bool-cases, true, false, some, arith, get-put_self,
}
use aegis_panel.Auth.Model.{User, invalid_token, Result, ok, err}
use aegis_panel.Auth.Store.{
  RefreshEntry, MemoryStore, consume_refresh, consume_found, save_refresh, get_by_id,
  find_refresh_user, lookup_user,
}
use aegis_panel.Auth.Store.Tokens.{Spent, Spent-consume, consume-spends, revoked-consume}
use aegis_panel.Auth.Service.{
  Env, refresh_token_ttl, access_token_ttl, LoginResult, Issued, issue, issue_pair, login_found,
  login, is_refresh_token, after_reuse, refresh_user, refresh_consumed, refresh,
}
use aegis_panel.Auth.Service.Spent.{MintsOther, Calls, Calls-Spent, refresh_user-Spent}

refresh_consumed-spends :
    (env : Env) (token : String) (s t : MemoryStore) (r : LoginResult)
    (c : Result String × MemoryStore)
    → MintsOther env (env.hash_token token)
    → consume_refresh (env.hash_token token) env.store_now s ≡ c
    → refresh_consumed env (env.hash_token token) c ≡ (ok r, t)
    → Spent (env.hash_token token) t
unfolding refresh_consumed
refresh_consumed-spends env token s t r (err e, u) other h q = absurd (ground arith)
refresh_consumed-spends env token s t r (ok user_id, u) other h q =
    let h' = env.hash_token token in
    subst (Spent h') (ap (λ (i : Issued). i.1) q) (
      refresh_user-Spent env (get_by_id user_id u) h' u other
        (consume-spends h' user_id env.store_now s u h))

-- A token that has been accepted is spent.
refresh-spends :
    (env : Env) (token : String) (s t : MemoryStore) (r : LoginResult)
    → MintsOther env (env.hash_token token)
    → refresh env token s ≡ (ok r, t)
    → Spent (env.hash_token token) t
unfolding refresh
refresh-spends env token s t r other e = elim (Bool-cases (is_refresh_token token)) [
  | inl q ↦
      refresh_consumed-spends env token s t r
        (consume_refresh (env.hash_token token) env.store_now s) other refl (ground arith)
  | inr q ↦ absurd (ground arith)
]

Spent-refresh :
    (env : Env) (token : String) (s : MemoryStore) (r : LoginResult)
    → Spent (env.hash_token token) s
    → (refresh env token s).0 ≢ ok r
unfolding refresh refresh_consumed
Spent-refresh env token s r v e = elim (Bool-cases (is_refresh_token token)) [
  | inl q ↦ ground (arith, Spent-consume (env.hash_token token) env.store_now s v)
  | inr q ↦ ground arith
]

-- A refresh token is accepted once: after a refresh took it, and whatever logins, refreshes,
-- revocations, new admins and changed passwords follow, it is refused, at any time. The calls mint
-- no token of its hash, and hash it alike.
pub refresh_once :
    (env env' : Env) (token : String) (s t u : MemoryStore) (r r' : LoginResult)
    → env'.hash_token token ≡ env.hash_token token
    → MintsOther env (env.hash_token token)
    → refresh env token s ≡ (ok r, t)
    → Calls (env.hash_token token) t u
    → (refresh env' token u).0 ≢ ok r'
refresh_once env env' token s t u r r' same other e calls = Spent-refresh env' token u r' (
    subst (λ h. Spent h u) (sym same)
      (Calls-Spent (env.hash_token token) calls (refresh-spends env token s t r other e)))

-- A well-formed token that is known as used is refused when it is shown again, and takes with it
-- every known token of its user: none of them is consumed from then on.
pub reuse_revokes :
    (env : Env) (token k : String) (later : ℕ) (s : MemoryStore) (entry mine : RefreshEntry)
    → is_refresh_token token ≡ true
    → get String_discrete (env.hash_token token) s.refresh ≡ some entry
    → entry.used ≡ true
    → get String_discrete k s.refresh ≡ some mine
    → mine.user_id ≡ entry.user_id
    → env.revoke_now ≤ later
    → ((refresh env token s).0 ≡ err invalid_token)
      × ((consume_refresh k later (refresh env token s).1).0 ≡ err invalid_token)
unfolding refresh refresh_consumed after_reuse find_refresh_user
reuse_revokes env token k later s entry mine wellformed at used own same le =
    let refused = Spent-consume (env.hash_token token) env.store_now s (inr (entry, at, used)) in
    rw (wellformed, refused, at)
      (refl, revoked-consume k entry.user_id env.revoke_now later s mine own same le)

login-saves :
    (env : Env) (name password access token : String) (u : User) (s : MemoryStore)
    → lookup_user name s ≡ ok u
    → env.password_matches password u.password_hash ≡ true
    → env.access u ≡ some access
    → env.token ≡ some token
    → (login env name password s).1
      ≡ save_refresh u.id (env.hash_token token) (env.now + refresh_token_ttl) s
unfolding login login_found issue_pair issue
login-saves env name password access token u s found matches minted minted' =
    rw (found, matches, minted, minted') refl

save-consume :
    (h user_id : String) (now expires : ℕ) (s : MemoryStore)
    → now ≤ expires
    → consume_refresh h now (save_refresh user_id h expires s) ≡ (
      ok user_id,
      record s {
        refresh =
            put String_discrete h
              (record { user_id = user_id; expires_at = expires; used = true })
              (save_refresh user_id h expires s).refresh;
      },
    )
unfolding consume_refresh consume_found save_refresh
save-consume h user_id now expires s le = ground (
  arith,
  get-put_self String_discrete h (record { user_id = user_id; expires_at = expires; used = false })
      s.refresh,
)

-- Round trip: after a login that finds its user, matches the password and mints a well-formed
-- token, a refresh with that token, until it expires, is accepted for the same user, with a new
-- token. The store finds the user by id, the token is hashed alike, and the refresh can mint.
pub login-refresh :
    (env env' : Env) (name password access token access' token' : String) (u : User)
    (s : MemoryStore)
    → lookup_user name s ≡ ok u
    → env.password_matches password u.password_hash ≡ true
    → env.access u ≡ some access
    → env.token ≡ some token
    → is_refresh_token token ≡ true
    → get_by_id u.id s ≡ ok u
    → env'.hash_token token ≡ env.hash_token token
    → env'.store_now ≤ env.now + refresh_token_ttl
    → env'.access u ≡ some access'
    → env'.token ≡ some token'
    → (r : LoginResult) × ((refresh env' token (login env name password s).1).0 ≡ ok r)
      × (r.user_id ≡ u.id)
      × (r.refresh_token ≡ token')
unfolding refresh refresh_consumed refresh_user issue_pair issue get_by_id save_refresh
login-refresh env env' name password access token access' token' u s found matches minted minted'
      hex back same soon again again' =
    let t = save_refresh u.id (env.hash_token token) (env.now + refresh_token_ttl) s in
    let logged = login-saves env name password access token u s found matches minted minted' in
    let consumed =
      save-consume (env.hash_token token) u.id env'.store_now (env.now + refresh_token_ttl) s
        soon in
    (
      record {
        access_token = access';
        refresh_token = token';
        expires_at = env'.now + access_token_ttl;
        user_id = u.id;
        scopes = u.scopes;
      },
      rw (logged, hex, same, consumed, back, again, again') refl,
      refl,
      refl,
    )
