-- ===== src/Webhooks/Store/Urls.antt =====
-- The index of addresses, against the endpoints.
use aegis_panel.Common.{
  ℕ, String, String_discrete, ℕ_discrete, get, put, remove, get-put, get-remove, ◌≡◌, subst,
  Bool-cases, false, Option-cases, none, some, is_text, is_text_iff, inl, inr, arith, GoMap,
}
use aegis_panel.Webhooks.Model.{Endpoint, ok}
use aegis_panel.Webhooks.Store.{
  MemoryStore, new_memory_store, create_endpoint, update_endpoint, delete_endpoint, rename, or_now,
  is_other,
}

-- Each endpoint has its address, and each address in the index is that of its endpoint.
pub record UrlIndex (rows : GoMap ℕ Endpoint) (urls : GoMap String ℕ) : Type 0 where
  pub keyed : (id : ℕ) (e : Endpoint) → get ℕ_discrete id rows ≡ some e → e.id ≡ id
  pub listed :
      (id : ℕ) (e : Endpoint)
      → get ℕ_discrete id rows ≡ some e
      → get String_discrete e.url urls ≡ some id
  pub owned :
      (url : String) (id : ℕ)
      → get String_discrete url urls ≡ some id
      → (e : Endpoint) × (get ℕ_discrete id rows ≡ some e) × (e.url ≡ url)

abbrev pub Addressed : MemoryStore → Type 0
Addressed s = UrlIndex s.endpoints s.endpoints_by_url

pub new-Addressed : Addressed new_memory_store
unfolding new_memory_store get
new-Addressed = record { keyed = λ id e h. cc; listed = λ id e h. cc; owned = λ url id h. cc }

insert-UrlIndex :
    (e : Endpoint) (rows : GoMap ℕ Endpoint) (urls : GoMap String ℕ)
    → UrlIndex rows urls
    → get ℕ_discrete e.id rows ≡ none
    → get String_discrete e.url urls ≡ none
    → UrlIndex (put ℕ_discrete e.id e rows) (put String_discrete e.url e.id urls)
insert-UrlIndex e rows urls v new free = record {
  keyed = λ id w h. ground (arith, get-put ℕ_discrete e.id id e rows, v.keyed id w);
  listed = λ id w h. ground (
    arith,
    get-put ℕ_discrete e.id id e rows,
    get-put String_discrete e.url w.url e.id urls,
    v.listed id w,
  );
  owned = λ url id h. elim (String_discrete e.url url) [
    | yes p ↦ (
      e,
      ground
          (arith, get-put ℕ_discrete e.id id e rows, get-put String_discrete e.url url e.id urls),
      p,
    )
    | no p ↦
        let was : get String_discrete url urls ≡ some id =
          ground (arith, get-put String_discrete e.url url e.id urls) in
        let (w, at, q) = v.owned url id was in
        (w, ground (arith, get-put ℕ_discrete e.id id e rows), q)
  ];
}

remove-UrlIndex :
    (e : Endpoint) (id : ℕ) (rows : GoMap ℕ Endpoint) (urls : GoMap String ℕ)
    → UrlIndex rows urls
    → get ℕ_discrete id rows ≡ some e
    → UrlIndex (remove ℕ_discrete id rows) (remove String_discrete e.url urls)
remove-UrlIndex e id rows urls v at = record {
  keyed = λ j w h. ground (arith, get-remove ℕ_discrete id j rows, v.keyed j w);
  listed = λ j w h. ground (
    arith,
    get-remove ℕ_discrete id j rows,
    get-remove String_discrete e.url w.url urls,
    v.listed j w,
    v.listed id e at,
  );
  owned = λ url j h.
      let was : get String_discrete url urls ≡ some j =
        ground (arith, get-remove String_discrete e.url url urls) in
      let (w, found, q) = v.owned url j was in
      (
        w,
        ground (arith, get-remove ℕ_discrete id j rows, get-remove String_discrete e.url url urls),
        q,
      );
}

-- A row with the same address takes the place of one.
replace-UrlIndex :
    (old e : Endpoint) (rows : GoMap ℕ Endpoint) (urls : GoMap String ℕ)
    → UrlIndex rows urls
    → get ℕ_discrete e.id rows ≡ some old
    → old.url ≡ e.url
    → UrlIndex (put ℕ_discrete e.id e rows) urls
replace-UrlIndex old e rows urls v at same = record {
  keyed = λ id w h. ground (arith, get-put ℕ_discrete e.id id e rows, v.keyed id w);
  listed = λ id w h.
      ground (arith, get-put ℕ_discrete e.id id e rows, v.listed id w, v.listed e.id old at);
  owned = λ url id h.
      let (w, found, q) = v.owned url id h in
      elim (ℕ_discrete e.id id) [
        | yes p ↦ (e, ground (arith, get-put ℕ_discrete e.id id e rows), ground arith)
        | no p ↦ (w, ground (arith, get-put ℕ_discrete e.id id e rows), q)
      ];
}

-- A row that moves to a free address.
move-UrlIndex :
    (old e : Endpoint) (rows : GoMap ℕ Endpoint) (urls : GoMap String ℕ)
    → UrlIndex rows urls
    → get ℕ_discrete e.id rows ≡ some old
    → get String_discrete e.url urls ≡ none
    → UrlIndex
        (put ℕ_discrete e.id e rows)
        (put String_discrete e.url e.id (remove String_discrete old.url urls))
move-UrlIndex old e rows urls v at free =
    let m : GoMap String ℕ = remove String_discrete old.url urls in
    let new_urls = λ (url : String). get-put String_discrete e.url url e.id m in
    record {
      keyed = λ id w h. ground (arith, get-put ℕ_discrete e.id id e rows, v.keyed id w);
      listed = λ id w h. ground (
        arith,
        get-put ℕ_discrete e.id id e rows,
        new_urls w.url,
        get-remove String_discrete old.url w.url urls,
        v.listed id w,
        v.listed e.id old at,
      );
      owned = λ url id h. elim (String_discrete e.url url) [
        | yes p ↦ (e, ground (arith, get-put ℕ_discrete e.id id e rows, new_urls url), p)
        | no p ↦
            let was : get String_discrete url urls ≡ some id =
              ground (arith, new_urls url, get-remove String_discrete old.url url urls) in
            let (w, found, q) = v.owned url id was in
            (
              w,
              ground (
                arith,
                get-put ℕ_discrete e.id id e rows,
                new_urls url,
                get-remove String_discrete old.url url urls,
              ),
              q,
            )
      ];
    }

-- An address that no other endpoint has is free for an endpoint that has another one.
free_address :
    (e old : Endpoint) (rows : GoMap ℕ Endpoint) (urls : GoMap String ℕ)
    → UrlIndex rows urls
    → get ℕ_discrete e.id rows ≡ some old
    → is_text old.url e.url ≡ false
    → is_other (get String_discrete e.url urls) e.id ≡ false
    → get String_discrete e.url urls ≡ none
free_address e old rows urls v at moved fine =
    elim (Option-cases (get String_discrete e.url urls)) [
      | inl n ↦ n
      | inr (id, n) ↦
          let (w, found, q) = v.owned e.url id n in
          absurd (ground (arith, is_text_iff old.url e.url))
    ]

pub create_endpoint-Addressed :
    (e : Endpoint) (now : ℕ) (s t : MemoryStore)
    → create_endpoint e now s ≡ ok t
    → Addressed s
    → Addressed t
unfolding create_endpoint
create_endpoint-Addressed e now s t h v =
    let row : Endpoint = record e {
      created_at = or_now now e.created_at;
      updated_at = or_now now e.updated_at;
    } in
    let q : record s {
      endpoints = put ℕ_discrete e.id row s.endpoints;
      endpoints_by_url = put String_discrete e.url e.id s.endpoints_by_url;
    }
        ≡ t =
      ground arith in
    subst Addressed q
      (insert-UrlIndex row s.endpoints s.endpoints_by_url v (ground arith) (ground arith))

pub update_endpoint-Addressed :
    (e : Endpoint) (now : ℕ) (s t : MemoryStore)
    → update_endpoint e now s ≡ ok t
    → Addressed s
    → Addressed t
unfolding update_endpoint rename
update_endpoint-Addressed e now s t h v = elim (Option-cases (get ℕ_discrete e.id s.endpoints)) [
  | inl n ↦ absurd (ground arith)
  | inr (old, at) ↦
      let row : Endpoint = record e { updated_at = now } in
      let rows : put ℕ_discrete e.id row s.endpoints ≡ t.endpoints = ground arith in
      elim (Bool-cases (is_text old.url e.url)) [
        | inl same ↦
            let urls : s.endpoints_by_url ≡ t.endpoints_by_url = ground arith in
            rw (← rows, ← urls)
              (replace-UrlIndex old row s.endpoints s.endpoints_by_url v at
                (ground (arith, is_text_iff old.url e.url)))
        | inr moved ↦
            let urls : put String_discrete e.url e.id
                  (remove String_discrete old.url s.endpoints_by_url)
                ≡ t.endpoints_by_url =
              ground arith in
            rw (← rows, ← urls)
              (move-UrlIndex old row s.endpoints s.endpoints_by_url v at
                (free_address e old s.endpoints s.endpoints_by_url v at moved (ground arith)))
      ]
]

pub delete_endpoint-Addressed :
    (id : ℕ) (s t : MemoryStore) → delete_endpoint id s ≡ ok t → Addressed s → Addressed t
unfolding delete_endpoint
delete_endpoint-Addressed id s t h v = elim (Option-cases (get ℕ_discrete id s.endpoints)) [
  | inl n ↦ absurd (ground arith)
  | inr (old, at) ↦
      let rows : remove ℕ_discrete id s.endpoints ≡ t.endpoints = ground arith in
      let urls : remove String_discrete old.url s.endpoints_by_url ≡ t.endpoints_by_url =
        ground arith in
      rw (← rows, ← urls) (remove-UrlIndex old id s.endpoints s.endpoints_by_url v at)
]
