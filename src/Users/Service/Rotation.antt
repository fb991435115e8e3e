-- ===== src/Users/Service/Rotation.antt =====
-- What a rotation of the subscription token does to the two tokens.
use aegis_panel.Common.{
  ℕ, ◌+◌, ◌<◌, String, ℕ_discrete, get, ◌≡◌, ◌≢◌, inl, inr, sym, subst, ◌∙◌, ap, Bool, false,
  Option-cases, some, List, ℤ, is_text, is_text_iff, arith, ite,
}
use aegis_panel.Users.Model.{User, ok, >>=-eq-ok, ◌>>=◌}
use aegis_panel.Users.Store
use aegis_panel.Users.Store.{MemoryStore, get_by_id, get_by_sub_token}
use aegis_panel.Users.Store.Indexes.{Indexed, update-Indexed}
use aegis_panel.Users.Store.Lookups.{
  Row, Speaks, current, previous, get_by_sub_token-Speaks, get_by_sub_token_complete, update-table,
  update-row,
}
use aegis_panel.Users.Service.{
  Env, Effect, rotated, finish_rotate, rotate_sub_token, grace_or_default,
}

-- What a successful rotation has read and written.
record Rotates (env : Env) (id : ℕ) (grace : ℤ) (s t : MemoryStore) (out : User) : Type 0 where
  cur : User
  tok : String
  minted : env.token ≡ some tok
  was : get ℕ_discrete id s.by_id ≡ some cur
  stored :
      Store.update (some (rotated env.now (grace_or_default grace) tok cur)) env.store_now s
      ≡ ok (out, t)

finish_rotate-ok :
    (env : Env) (id : ℕ) (row out : User) (t' t : MemoryStore) (es : List Effect)
    → finish_rotate env id (row, t') ≡ ok (out, t, es)
    → (t' ≡ t) × (get ℕ_discrete id t.by_id ≡ some out)
unfolding finish_rotate get_by_id
finish_rotate-ok env id row out t' t es h = elim (Option-cases (get ℕ_discrete id t'.by_id)) [
  | inl e ↦ absurd (ground arith)
  | inr (w, e) ↦ (ground arith, ground arith)
]

update_then_finish :
    (env : Env) (id : ℕ) (u out : User) (s t : MemoryStore) (es : List Effect)
    → Indexed s
    → u.id ≡ id
    → (Store.update (some u) env.store_now s >>= finish_rotate env id) ≡ ok (out, t, es)
    → Store.update (some u) env.store_now s ≡ ok (out, t)
update_then_finish env id u out s t es v same h =
    let ((row, t'), stored, finished) =
      >>=-eq-ok (Store.update (some u) env.store_now s) (finish_rotate env id) h in
    let (e, found) = finish_rotate-ok env id row out t' t es finished in
    let kept : row.id ≡ id = ap (λ r. r.id) (update-row u row env.store_now s t' stored) ∙ same in
    let table = update-table u row env.store_now s t' v stored id in ground arith

rotate-Rotates :
    (env : Env) (id : ℕ) (grace : ℤ) (s t : MemoryStore) (out : User) (es : List Effect)
    → Indexed s
    → rotate_sub_token env id grace s ≡ ok (out, t, es)
    → Rotates env id grace s t out
unfolding rotate_sub_token get_by_id
rotate-Rotates env id grace s t out es v h = elim (Option-cases (get ℕ_discrete id s.by_id)) [
  | inl e ↦ absurd (ground arith)
  | inr (cur, e) ↦ elim (Option-cases env.token) [
    | inl n ↦ absurd (ground arith)
    | inr (tok, n) ↦ record {
      cur = cur;
      tok = tok;
      minted = n;
      was = e;
      stored =
          update_then_finish env id (rotated env.now (grace_or_default grace) tok cur) out s t es v
            (v.keyed id cur e) (ground arith);
    }
  ]
]

-- The stored row after a rotation.
record Rotated (env : Env) (id : ℕ) (grace : ℤ) (s t : MemoryStore) (out : User) : Type 0 where
  cur : User
  tok : String
  minted : env.token ≡ some tok
  was : get ℕ_discrete id s.by_id ≡ some cur
  own_id : out.id ≡ id
  new_token : out.sub_token ≡ tok
  old_token : out.sub_token_prev ≡ cur.sub_token
  expiry : out.sub_token_prev_expires_at ≡ some (env.now + grace_or_default grace)
  after : Indexed t
  table :
      (j : ℕ)
      → get ℕ_discrete j t.by_id ≡ ite (ℕ_discrete id j) (some out) (get ℕ_discrete j s.by_id)

rotate-Rotated :
    (env : Env) (id : ℕ) (grace : ℤ) (s t : MemoryStore) (out : User) (es : List Effect)
    → Indexed s
    → rotate_sub_token env id grace s ≡ ok (out, t, es)
    → Rotated env id grace s t out
unfolding rotated
rotate-Rotated env id grace s t out es v h =
    let r = rotate-Rotates env id grace s t out es v h in
    let u : User = rotated env.now (grace_or_default grace) r.tok r.cur in
    let row = update-row u out env.store_now s t r.stored in
    let own : out.id ≡ id = ap (λ w. w.id) row ∙ v.keyed id r.cur r.was in
    record {
      cur = r.cur;
      tok = r.tok;
      minted = r.minted;
      was = r.was;
      own_id = own;
      new_token = ap (λ w. w.sub_token) row;
      old_token = ap (λ w. w.sub_token_prev) row;
      expiry = ap (λ w. w.sub_token_prev_expires_at) row;
      after = update-Indexed (some u) out env.store_now s t r.stored v;
      table = λ j.
          subst
            (λ k.
              get ℕ_discrete j t.by_id ≡ ite (ℕ_discrete k j) (some out) (get ℕ_discrete j s.by_id))
            own (update-table u out env.store_now s t v r.stored j);
    }

own-Row :
    (env : Env) (id : ℕ) (grace : ℤ) (s t : MemoryStore) (out : User)
    → Rotated env id grace s t out
    → Row t out
own-Row env id grace s t out r = ground (arith, r.table out.id, r.own_id)

-- Nobody holds the old token as a current one any more.
old_token_free :
    (env : Env) (id : ℕ) (grace : ℤ) (s t : MemoryStore) (out w : User)
    → Indexed s
    → (r : Rotated env id grace s t out) → is_text r.cur.sub_token "" ≡ false
    → r.tok ≢ r.cur.sub_token
    → Row t w
    → w.sub_token ≢ r.cur.sub_token
old_token_free env id grace s t out w v r named fresh row e = ground (
  arith,
  r.table w.id,
  r.new_token,
  v.tokens.rows_in w.id w,
  v.tokens.rows_in id r.cur r.was,
  v.keyed id r.cur r.was,
)

-- After a rotation, in a store whose maps agree, the new token finds the rotated user at any time,
-- if it is not empty.
pub new_token_works :
    (env : Env) (id : ℕ) (grace : ℤ) (s t : MemoryStore) (out : User) (tok : String)
    (es : List Effect) (use_prev : Bool) (now : ℕ)
    → Indexed s
    → rotate_sub_token env id grace s ≡ ok (out, t, es)
    → env.token ≡ some tok
    → tok ≢ ""
    → get_by_sub_token tok use_prev now t ≡ ok out
new_token_works env id grace s t out tok es use_prev now v h minted named =
    let r = rotate-Rotated env id grace s t out es v h in
    let q : out.sub_token ≡ tok = ground (arith, r.minted, r.new_token) in
    get_by_sub_token_complete tok use_prev now t out r.after named (own-Row env id grace s t out r)
      (current q) (λ other. absurd (other q))

module _ (env : Env) (id : ℕ) (grace : ℤ) (s t : MemoryStore) (out cur : User) (es : List Effect)
    (now : ℕ) (v : Indexed s) (h : rotate_sub_token env id grace s ≡ ok (out, t, es))
    (was : get_by_id id s ≡ ok cur) (named : cur.sub_token ≢ "")
    (fresh : env.token ≢ some cur.sub_token) where
  before : (r : Rotated env id grace s t out) → r.cur ≡ cur
  unfolding get_by_id
  before r = ground (arith, r.was)

  no_holder : (r : Rotated env id grace s t out) (w : User) → Row t w → w.sub_token ≢ cur.sub_token
  no_holder r w row e =
      let q = before r in
      old_token_free env id grace s t out w v r (ground (arith, is_text_iff cur.sub_token ""))
        (λ e'. fresh (ground (arith, r.minted))) row (e ∙ ap (λ u. u.sub_token) (sym q))

  -- Past the grace period the old token finds nobody, previous tokens asked for or not. The store's
  -- maps agree, the old token is not empty and the minted one is another.
  pub old_token_expires :
      (use_prev : Bool) (w : User)
      → env.now + grace_or_default grace < now
      → get_by_sub_token cur.sub_token use_prev now t ≢ ok w
  old_token_expires use_prev w late found =
      let r = rotate-Rotated env id grace s t out es v h in
      let (_, row, sp) = get_by_sub_token-Speaks cur.sub_token use_prev now t w r.after found in
      gone r row sp
    where
      gone : (r : Rotated env id grace s t out) → Row t w → Speaks cur.sub_token use_prev now w → ⊥
      gone r row (current e) = no_holder r w row e
      gone r row (previous expires _ e at le) = ground (
        arith,
        before r,
        r.after.prevs.rows_in w.id w row,
        r.after.prevs.rows_in out.id out (own-Row env id grace s t out r),
        r.old_token,
        r.expiry,
        is_text_iff cur.sub_token "",
      )
