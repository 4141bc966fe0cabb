-- ===== src/Auth/Middleware/Guard.antt =====
-- Why a request has reached the handlers of a server with a password.
use mediaflow_proxy_light.Base.{
  ℕ, ◌≡◌, ◌⊎◌, inl, inr, refl, ap, ◌∙◌, true, false, [], ◌∷◌, ◌++◌, Option, none, some, is_empty,
  Bytes, ascii, strip_prefix, contains_bytes, bytes_equal, bytes_equal_iff, Option-cases,
  Bool-cases, arith,
}
use mediaflow_proxy_light.Auth.Encryption.{
  JsonMap, Json, ProxyData, AuthResult, ok, err, Crates, derive_key, decrypt,
}
use mediaflow_proxy_light.Auth.Encryption.Tokens.{Decrypted, decrypt-Decrypted}
use mediaflow_proxy_light.Auth.Middleware.{
  open_endpoints, is_static_asset, Request, Texts, served, AuthMiddleware, new, token_prefix,
  split_token, with_query, extract_query_params, text_at, build_proxy_data_from_query,
  build_query_from_proxy_data, moved, serve_path_token, serve_query_token, check_password,
  check_query, call_rest, call,
}

strip_prefix-joined :
    (prefix s rest : Bytes) → strip_prefix prefix s ≡ some rest → s ≡ prefix ++ rest
strip_prefix-joined [] s rest h = ground arith
strip_prefix-joined (p ∷ ps) [] rest h = ground arith
strip_prefix-joined (p ∷ ps) (c ∷ cs) rest h = ground (arith, strip_prefix-joined ps cs rest)

module _ {J : Type 0} (json : Json J) (texts : Texts) (crates : Crates J) (api_password : Bytes)
    (now : ℕ) (req : Request) where
  abbrev pub params : JsonMap J
  params = extract_query_params json texts req.query_string

  abbrev pub IsAccepted : Bytes → ProxyData J → Type 0
  IsAccepted token d = Decrypted json crates (derive_key api_password) now token req.client_ip d

  -- A token in the path, and the request that its data rewrite it to.
  abbrev pub ByPathToken : Request → Option (ProxyData J) → Type 0
  ByPathToken req' data' =
      (after : Bytes) × (d : ProxyData J) × (uri : Bytes × Bytes) × (req.path
        ≡ token_prefix ++ after)
      × IsAccepted (split_token after).0 d
      × (texts.parse_uri (
            with_query (split_token after).1
              (build_query_from_proxy_data json texts d req.query_string))
          ≡ some uri)
      × (req' ≡ moved json texts req uri)
      × (data' ≡ some d)

  abbrev pub ByQueryToken : Request → Option (ProxyData J) → Type 0
  ByQueryToken req' data' =
      (token : Bytes) × (d : ProxyData J) × (text_at json texts (ascii "token") params ≡ some token)
      × IsAccepted token d
      × (data' ≡ some d)

  abbrev pub ByPassword : Request → Option (ProxyData J) → Type 0
  ByPassword req' data' =
      (text_at json texts (ascii "api_password") params ≡ some api_password)
      × (req' ≡ req)
      × (data' ≡ some (build_proxy_data_from_query json texts params))

  abbrev pub ByOpenPage : Request → Option (ProxyData J) → Type 0
  ByOpenPage req' data' =
      ((contains_bytes open_endpoints req.path ≡ true) ⊎ (is_static_asset req.path ≡ true))
      × (req' ≡ req)
      × (data' ≡ none)

  served_path :
      (remaining : Bytes) (r : AuthResult (ProxyData J)) (req' : Request)
      (data' : Option (ProxyData J))
      → serve_path_token json texts crates req remaining r ≡ served req' data'
      → (d : ProxyData J) × (uri : Bytes × Bytes) × (r ≡ ok d)
        × (texts.parse_uri
              (with_query remaining (build_query_from_proxy_data json texts d req.query_string))
            ≡ some uri)
        × (req' ≡ moved json texts req uri)
        × (data' ≡ some d)
  served_path remaining (err e) req' data' h = ground arith
  served_path remaining (ok d) req' data' h =
      elim (Option-cases (
        texts.parse_uri
          (with_query remaining (build_query_from_proxy_data json texts d req.query_string)))) [
            | inl bad ↦ ground arith
            | inr (uri, good) ↦ (d, uri, refl, good, ground arith, ground arith)
          ]

  served_query :
      (r : AuthResult (ProxyData J)) (req' : Request) (data' : Option (ProxyData J))
      → serve_query_token json texts crates req r ≡ served req' data'
      → (d : ProxyData J) × (r ≡ ok d) × (data' ≡ some d)
  served_query (err e) req' data' h = ground arith
  served_query (ok d) req' data' h =
      elim (Option-cases
        (texts.parse_uri (with_query req.path (build_query_from_proxy_data json texts d [])))) [
          | inl bad ↦ (d, refl, ground arith)
          | inr (uri, good) ↦ (d, refl, ground arith)
        ]

  password_served :
      (m : AuthMiddleware) (req' : Request) (data' : Option (ProxyData J))
      → m.api_password ≡ api_password
      → check_password json texts crates m req params ≡ served req' data'
      → ByPassword req' data'
  password_served m req' data' same h =
      elim (Option-cases (text_at json texts (ascii "api_password") params)) [
        | inl missing ↦ ground arith
        | inr (password, given) ↦ elim (Bool-cases (bytes_equal password m.api_password)) [
          | inl equal ↦ (
            given ∙ ap some ((bytes_equal_iff password m.api_password).0 equal ∙ same),
            ground arith,
            ground arith,
          )
          | inr other ↦ ground arith
        ]
      ]

  query_served :
      (m : AuthMiddleware) (req' : Request) (data' : Option (ProxyData J))
      → m.api_password ≡ api_password
      → m.encryption_key ≡ some (derive_key api_password)
      → check_query json texts crates m now req params ≡ served req' data'
      → ByQueryToken req' data' ⊎ ByPassword req' data'
  query_served m req' data' same key h =
      elim (Option-cases (text_at json texts (ascii "token") params)) [
        | inl missing ↦ inr (password_served m req' data' same (rw (missing, check_query) at h))
        | inr (token, given) ↦
            let r = decrypt json crates (derive_key api_password) now token req.client_ip in
            let (d, accepted, carried) =
              served_query r req' data'
                (rw (key, serve_query_token) at (rw (given, check_query) at h)) in
            inl (
              token,
              d,
              given,
              decrypt-Decrypted json crates (derive_key api_password) now token req.client_ip d
                  accepted,
              carried,
            )
      ]

  rest_served :
      (m : AuthMiddleware) (req' : Request) (data' : Option (ProxyData J))
      → m.api_password ≡ api_password
      → m.encryption_key ≡ some (derive_key api_password)
      → call_rest json texts crates m now req ≡ served req' data'
      → ByOpenPage req' data' ⊎ ByQueryToken req' data' ⊎ ByPassword req' data'
  unfolding call_rest
  rest_served m req' data' same key h = elim (Bool-cases (contains_bytes open_endpoints req.path)) [
    | inl page ↦ inl (inl page, ground arith, ground arith)
    | inr closed ↦ elim (Bool-cases (is_static_asset req.path)) [
      | inl asset ↦ inl (inr asset, ground arith, ground arith)
      | inr guarded ↦ inr (query_served m req' data' same key (ground arith))
    ]
  ]

  path_served :
      (after : Bytes) (req' : Request) (data' : Option (ProxyData J))
      → req.path ≡ token_prefix ++ after
      → serve_path_token json texts crates req
          (split_token after).1
          (decrypt json crates (derive_key api_password) now (split_token after).0 req.client_ip)
        ≡ served req' data'
      → ByPathToken req' data'
  path_served after req' data' marked h =
      let (d, uri, accepted, parsed, moves, carried) =
        served_path (split_token after).1 _ req' data' h in
      (
        after,
        d,
        uri,
        marked,
        decrypt-Decrypted json crates (derive_key api_password) now (split_token after).0
            req.client_ip d accepted,
        parsed,
        moves,
        carried,
      )

  call_served :
      (m : AuthMiddleware) (req' : Request) (data' : Option (ProxyData J))
      → is_empty api_password ≡ false
      → m.api_password ≡ api_password
      → m.encryption_key ≡ some (derive_key api_password)
      → call json texts crates m now req ≡ served req' data'
      → ByPathToken req' data'
        ⊎ ByOpenPage req' data'
        ⊎ ByQueryToken req' data'
        ⊎ ByPassword req' data'
  unfolding call
  call_served m req' data' protected same key h =
      let nonempty : is_empty m.api_password ≡ false = ap is_empty same ∙ protected in
      elim (Option-cases (strip_prefix token_prefix req.path)) [
        | inl plain ↦ inr (rest_served m req' data' same key (rw (nonempty, plain, call) at h))
        | inr (after, marked) ↦ inl (
            path_served after req' data' (strip_prefix-joined token_prefix req.path after marked)
              (rw (nonempty, marked, key, call) at h))
      ]

  -- On a server with a password, a request reaches the handlers only if its path holds a token that
  -- is accepted, which then gives its data and its new path and query; or its path is an open
  -- endpoint or a static asset, and then it carries no data; or its query holds a token that is
  -- accepted, which gives its data; or its query holds the password, and then it is not changed. An
  -- accepted token decodes to a vector and a text that decrypts under the password's key to data
  -- that have not expired and do not name another address than the client's.
  pub call-Decrypted :
      (req' : Request) (data' : Option (ProxyData J))
      → is_empty api_password ≡ false
      → call json texts crates (new api_password) now req ≡ served req' data'
      → ByPathToken req' data'
        ⊎ ByOpenPage req' data'
        ⊎ ByQueryToken req' data'
        ⊎ ByPassword req' data'
  unfolding new
  call-Decrypted req' data' protected h =
      call_served (new api_password) req' data' protected refl (rw protected refl) h
