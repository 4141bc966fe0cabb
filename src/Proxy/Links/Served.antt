-- ===== src/Proxy/Links/Served.antt =====
-- A link with a token, requested from the server that has its password.
use mediaflow_proxy_light.Base.{
  ℕ, ◌<◌, ◌≡◌, refl, ap, ◌∙◌, false, [], ◌∷◌, ◌++◌, Option, none, some, is_empty, length, Bytes,
  Without, split_first-Without,
}
use mediaflow_proxy_light.Auth.Encryption.{
  Json, ProxyData, ok, Crates, derive_key, encrypt, decrypt,
}
use mediaflow_proxy_light.Auth.Encryption.Tokens.{IsValid}
use mediaflow_proxy_light.Auth.Encryption.RoundTrip.{decrypt-encrypt}
use mediaflow_proxy_light.Auth.Middleware.{
  Request, Texts, served, new, call, with_query, moved, build_query_from_proxy_data, split_token,
  serve_path_token, token_prefix, AuthMiddleware,
}
use mediaflow_proxy_light.Proxy.Links.{Link, endpoint_path, link_data, token_path}

split_token-Without :
    (token e : Bytes) → Without b'/' token → split_token (token ++ b'/' ∷ e) ≡ (token, b'/' ∷ e)
split_token-Without token e h = rw (split_first-Without b'/' token e h, split_token) refl

module _ {J : Type 0} (json : Json J) (texts : Texts) (crates : Crates J)
    (base64 : (s : Bytes) → crates.base64_decode (crates.base64_encode s) ≡ some s)
    (url_safe : (s : Bytes) → Without b'/' (crates.base64_encode s))
    (cbc : (key iv s : Bytes)
      → length key ≡ 32
      → length iv ≡ 16
      → crates.cbc_decrypt key iv (crates.cbc_encrypt key iv s) ≡ some s)
    (padded : (key iv s : Bytes) → 0 < length (crates.cbc_encrypt key iv s)) where
  call-marked :
      (m : AuthMiddleware) (now : ℕ) (token e key : Bytes) (client_ip : Option Bytes)
      (d : ProxyData J) (uri : Bytes × Bytes)
      → Without b'/' token
      → is_empty m.api_password ≡ false
      → m.encryption_key ≡ some key
      → decrypt json crates key now token client_ip ≡ ok d
      → texts.parse_uri (with_query (b'/' ∷ e) (build_query_from_proxy_data json texts d []))
        ≡ some uri
      → let req : Request = record {
        path = token_prefix ++ (token ++ b'/' ∷ e);
        query_string = [];
        client_ip = client_ip;
      } in
        call json texts crates m now req ≡ served (moved json texts req uri) (some d)
  unfolding call
  call-marked m now token e key client_ip d uri safe protected keyed accepted parsed =
      rw (protected, keyed, call)
        (rw (split_token-Without token e safe) (rw (accepted, serve_path_token) (rw parsed refl)))

  safe : (key iv : Bytes) (d : ProxyData J) → Without b'/' (encrypt json crates key iv d)
  unfolding encrypt
  safe key iv d = url_safe (iv ++ crates.cbc_encrypt key iv (crates.to_vec d))

  token_path-parts :
      (password iv e : Bytes) (now : ℕ) (l : Link)
      → l.filename ≡ none
      → endpoint_path l.endpoint ≡ b'/' ∷ e
      → token_path json crates texts.url_encode now iv password l
        ≡ token_prefix
          ++ (encrypt json crates
                (derive_key password)
                iv
                (link_data json crates texts.url_encode now l)
              ++ b'/' ∷ e)
  unfolding token_path
  token_path-parts password iv e now l unnamed ends = rw (unnamed, ends) refl

  -- If base64 tokens hold no slash and base64 and AES-CBC, for keys of 32 bytes and vectors of 16,
  -- give back what they were given, and a padded text has at least a byte, then a link made with a
  -- password, an endpoint and no file name, whose data serde reads back as they are, requested at
  -- the server with that password when its data are still valid for the client, reaches the
  -- handlers with the data that it was made for, at the endpoint and the query of those data, if
  -- that URI parses.
  pub call-token_path :
      (password iv e : Bytes) (now later : ℕ) (client_ip : Option Bytes) (l : Link)
      (uri : Bytes × Bytes)
      → is_empty password ≡ false
      → length iv ≡ 16
      → l.filename ≡ none
      → endpoint_path l.endpoint ≡ b'/' ∷ e
      → let d = link_data json crates texts.url_encode now l in
        let req : Request = record {
          path = token_path json crates texts.url_encode now iv password l;
          query_string = [];
          client_ip = client_ip;
        } in
        crates.read_proxy_data (crates.to_vec d) ≡ some d
        → IsValid later client_ip d
        → texts.parse_uri (with_query (b'/' ∷ e) (build_query_from_proxy_data json texts d []))
          ≡ some uri
        → call json texts crates (new password) later req
          ≡ served (moved json texts req uri) (some d)
  unfolding token_path new
  call-token_path password iv e now later client_ip l uri protected sixteen unnamed ends serde valid
        parsed =
      let d = link_data json crates texts.url_encode now l in
      let key = derive_key password in
      let token = encrypt json crates key iv d in
      ap
        (λ p.
          call json texts crates (new password) later
            (record { path = p; query_string = []; client_ip = client_ip }))
        (token_path-parts password iv e now l unnamed ends)
      ∙ call-marked (new password) later token e key client_ip d uri (safe key iv d) protected
          (rw protected refl)
          ((decrypt-encrypt json crates base64 cbc padded password iv later client_ip d d serde
              sixteen).1
            (refl, valid))
          parsed
