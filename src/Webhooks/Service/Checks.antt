-- ===== src/Webhooks/Service/Checks.antt =====
-- What the checks of the service keep out of the store.
use aegis_panel.Common.{
  ℕ, ℕ_discrete, get, ◌≡◌, ap, ◌∙◌, Option, Option-cases, none, some, inl, inr, arith, put, remove,
  Entries, Entries-put, Entries-get, Entries-remove,
}
use aegis_panel.Webhooks.Model.{Endpoint, Result, ok, ◌>>=◌, ◌>>◌, >>=-eq-ok, >>-eq-ok}
use aegis_panel.Webhooks.Store.{
  MemoryStore, create_endpoint, get_endpoint, update_endpoint, delete_endpoint, or_now,
}
use aegis_panel.Webhooks.Service.{
  UrlParser, validate_url, validate_secret, validate_events, CreateInput, UpdateInput, check_create,
  new_endpoint, create, merged, check_update, update, delete, given, choose,
}

-- An endpoint that the checks let pass.
pub record Checked (parse_url : UrlParser) (e : Endpoint) : Type 0 where
  pub url_ok : validate_url parse_url e.url ≡ ok tt
  pub secret_ok : validate_secret e.secret ≡ ok tt
  pub events_ok : validate_events e.events ≡ ok tt

given-choose :
    {A : Type 0} (check : A → Result (Unit {0})) (o : Option A) (old : A)
    → given o check ≡ ok tt
    → check old ≡ ok tt
    → check (choose o old) ≡ ok tt
given-choose check none old h was = was
given-choose check (some a) old h was = h

-- Each stored endpoint passes the checks.
abbrev pub AllChecked : UrlParser → MemoryStore → Type 0
AllChecked parse_url s = Entries ℕ_discrete (λ k e. Checked parse_url e) s.endpoints

check_create-Checked :
    (parse_url : UrlParser) (i : CreateInput) (now id : ℕ)
    → check_create parse_url i ≡ ok tt
    → Checked parse_url (new_endpoint i now id)
unfolding check_create new_endpoint
check_create-Checked parse_url i now id h =
    let (a, rest) = >>-eq-ok (validate_url parse_url i.url) _ h in
    let (b, c) = >>-eq-ok (validate_secret i.secret) _ rest in
    record { url_ok = a; secret_ok = b; events_ok = c }

create-parts :
    (parse_url : UrlParser) (i : CreateInput) (now id store_now : ℕ) (s t : MemoryStore)
    (out : Endpoint)
    → create parse_url i now id store_now s ≡ ok (out, t)
    → (check_create parse_url i ≡ ok tt)
      × (create_endpoint (new_endpoint i now id) store_now s ≡ ok t)
unfolding create
create-parts parse_url i now id store_now s t out h = ground arith

create_endpoint-puts :
    (e : Endpoint) (now : ℕ) (s t : MemoryStore)
    → create_endpoint e now s ≡ ok t
    → t.endpoints
      ≡ put ℕ_discrete e.id
          (record e { created_at = or_now now e.created_at; updated_at = or_now now e.updated_at })
          s.endpoints
unfolding create_endpoint
create_endpoint-puts e now s t h = ground arith

create-AllChecked :
    (parse_url : UrlParser) (i : CreateInput) (now id store_now : ℕ) (s t : MemoryStore)
    (out : Endpoint)
    → create parse_url i now id store_now s ≡ ok (out, t)
    → AllChecked parse_url s
    → AllChecked parse_url t
create-AllChecked parse_url i now id store_now s t out h v =
    let (checked, stored) = create-parts parse_url i now id store_now s t out h in
    let c = check_create-Checked parse_url i now id checked in
    rw (create_endpoint-puts (new_endpoint i now id) store_now s t stored) (
      Entries-put ℕ_discrete (λ k e. Checked parse_url e) _ _ s.endpoints
        (record { url_ok = c.url_ok; secret_ok = c.secret_ok; events_ok = c.events_ok }) v)

update_endpoint-puts :
    (e : Endpoint) (now : ℕ) (s t : MemoryStore)
    → update_endpoint e now s ≡ ok t
    → t.endpoints ≡ put ℕ_discrete e.id (record e { updated_at = now }) s.endpoints
unfolding update_endpoint
update_endpoint-puts e now s t h = elim (Option-cases (get ℕ_discrete e.id s.endpoints)) [
  | inl n ↦ absurd (ground arith)
  | inr (old, n) ↦ ground arith
]

abbrev answer_with : ℕ → MemoryStore → Result (Endpoint × MemoryStore)
answer_with id t = get_endpoint id t >>= λ out. ok (out, t)

answered_store :
    (id : ℕ) (u t : MemoryStore) (out : Endpoint) → answer_with id u ≡ ok (out, t) → u ≡ t
answered_store id u t out h =
    let (w, found, same) = >>=-eq-ok (get_endpoint id u) _ h in ground arith

update-parts :
    (parse_url : UrlParser) (id : ℕ) (i : UpdateInput) (store_now : ℕ) (s t : MemoryStore)
    (out : Endpoint)
    → update parse_url id i store_now s ≡ ok (out, t)
    → (cur : Endpoint) × (get ℕ_discrete id s.endpoints ≡ some cur)
      × (check_update parse_url i ≡ ok tt)
      × (update_endpoint (merged i cur) store_now s ≡ ok t)
unfolding update get_endpoint
update-parts parse_url id i store_now s t out h =
    elim (Option-cases (get ℕ_discrete id s.endpoints)) [
      | inl n ↦ absurd (ground arith)
      | inr (cur, n) ↦
          let step : (check_update parse_url i
                >> (update_endpoint (merged i cur) store_now s >>= answer_with id))
              ≡ ok (out, t) =
            ground arith in
          let (checked, rest) = >>-eq-ok (check_update parse_url i) _ step in
          let (u, stored, finished) =
            >>=-eq-ok (update_endpoint (merged i cur) store_now s) (answer_with id) rest in
          let same : u ≡ t = answered_store id u t out finished in
          (cur, n, checked, stored ∙ ap ok same)
    ]

merged-Checked :
    (parse_url : UrlParser) (i : UpdateInput) (cur : Endpoint)
    → check_update parse_url i ≡ ok tt
    → Checked parse_url cur
    → Checked parse_url (merged i cur)
unfolding check_update merged
merged-Checked parse_url i cur h c =
    let (a, rest) = >>-eq-ok (given i.url (validate_url parse_url)) _ h in
    let (b, d) = >>-eq-ok (given i.secret validate_secret) _ rest in
    record {
      url_ok = given-choose (validate_url parse_url) i.url cur.url a c.url_ok;
      secret_ok = given-choose validate_secret i.secret cur.secret b c.secret_ok;
      events_ok = given-choose validate_events i.events cur.events d c.events_ok;
    }

update-AllChecked :
    (parse_url : UrlParser) (id : ℕ) (i : UpdateInput) (store_now : ℕ) (s t : MemoryStore)
    (out : Endpoint)
    → update parse_url id i store_now s ≡ ok (out, t)
    → AllChecked parse_url s
    → AllChecked parse_url t
update-AllChecked parse_url id i store_now s t out h v =
    let (cur, at, checked, stored) = update-parts parse_url id i store_now s t out h in
    let was = Entries-get ℕ_discrete (λ k e. Checked parse_url e) id cur s.endpoints v at in
    let c = merged-Checked parse_url i cur checked was in
    rw (update_endpoint-puts (merged i cur) store_now s t stored) (
      Entries-put ℕ_discrete (λ k e. Checked parse_url e) _ _ s.endpoints
        (record { url_ok = c.url_ok; secret_ok = c.secret_ok; events_ok = c.events_ok }) v)

delete-AllChecked :
    (parse_url : UrlParser) (id : ℕ) (s t : MemoryStore)
    → delete id s ≡ ok t
    → AllChecked parse_url s
    → AllChecked parse_url t
unfolding delete delete_endpoint
delete-AllChecked parse_url id s t h v = elim (Option-cases (get ℕ_discrete id s.endpoints)) [
  | inl n ↦ absurd (ground arith)
  | inr (e, n) ↦
      let rows : remove ℕ_discrete id s.endpoints ≡ t.endpoints = ground arith in
      rw (← rows) (Entries-remove ℕ_discrete (λ k e. Checked parse_url e) id s.endpoints v)
]

-- What an operator does to the endpoints.
pub data Step (parse_url : UrlParser) (s t : MemoryStore) : Type 0 where
  creates :
      (i : CreateInput) (now id store_now : ℕ) (out : Endpoint)
      → create parse_url i now id store_now s ≡ ok (out, t)
      → Step parse_url s t
  updates :
      (id : ℕ) (i : UpdateInput) (store_now : ℕ) (out : Endpoint)
      → update parse_url id i store_now s ≡ ok (out, t)
      → Step parse_url s t
  deletes : (id : ℕ) → delete id s ≡ ok t → Step parse_url s t

-- Whatever an operator does, each endpoint in the store has an address, a secret and events that
-- the checks let pass, if each had before.
pub Step-AllChecked :
    (parse_url : UrlParser) (s t : MemoryStore)
    → Step parse_url s t
    → AllChecked parse_url s
    → AllChecked parse_url t
Step-AllChecked parse_url s t (creates i now id store_now out h) v =
    create-AllChecked parse_url i now id store_now s t out h v
Step-AllChecked parse_url s t (updates id i store_now out h) v =
    update-AllChecked parse_url id i store_now s t out h v
Step-AllChecked parse_url s t (deletes id h) v = delete-AllChecked parse_url id s t h v
