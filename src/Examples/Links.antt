-- ===== src/Examples/Links.antt =====
-- A link that is made and then requested, with a toy alphabet in which no token holds a slash.
use mediaflow_proxy_light.Base.{
  ℕ, ◌+◌, ◌-◌, ◌≡◌, refl, ap, [], ◌∷◌, map, false, none, some, Bytes, ascii, Without, arith,
}
use mediaflow_proxy_light.Auth.Encryption.{Crates}
use mediaflow_proxy_light.Auth.Middleware.{
  Request, served, new, call, moved, build_query_from_proxy_data,
}
use mediaflow_proxy_light.Proxy.Links.{Link, link_data, token_path}
use mediaflow_proxy_light.Proxy.Links.Served.{call-token_path}
use mediaflow_proxy_light.Examples.Guarding.{
  json, texts, write_data, read_data, read_data-write_data, strip_one, vector,
}

abbrev raise : ℕ → ℕ
raise c = c + 200

abbrev lower : ℕ → ℕ
lower c = c - 200

lower-raise : (s : Bytes) → map lower (map raise s) ≡ s
lower-raise [] = refl
lower-raise (c ∷ s) = ground (arith, lower-raise s)

raise-Without : (s : Bytes) → Without b'/' (map raise s)
raise-Without [] = refl
raise-Without (c ∷ s) = ground (arith, raise-Without s)

abbrev crates : Crates (Unit {0})
crates = record {
  base64_encode = map raise;
  base64_decode = λ s. some (map lower s);
  cbc_encrypt = λ key iv s. 7 ∷ s;
  cbc_decrypt = λ key iv s. strip_one s;
  to_vec = write_data;
  read_proxy_data = read_data;
  read_map = λ s. none;
}

abbrev link : Link
link = record {
  endpoint = some (ascii "/proxy/stream");
  destination_url = ascii "u";
  query_params = [];
  request_headers = [];
  response_headers = [];
  propagate_response_headers = [];
  remove_response_headers = [];
  stream_transformer = none;
  filename = none;
  api_password = some (ascii "pw");
  expiration = some 50;
  ip = some (ascii "1.2.3.4");
  base64_encode_destination = false;
}

abbrev requested : Request
requested = record {
  path = token_path json crates texts.url_encode 10 vector (ascii "pw") link;
  query_string = [];
  client_ip = some (ascii "1.2.3.4");
}

call-token_path_example :
    call json texts crates (new (ascii "pw")) 60 requested
    ≡ served
        (moved json texts requested (ascii "/proxy/stream?d=u", []))
        (some (link_data json crates texts.url_encode 10 link))
unfolding build_query_from_proxy_data
call-token_path_example =
    call-token_path json texts crates (λ s. ap some (lower-raise s)) raise-Without
      (λ key iv s long sixteen. refl) (λ key iv s. omega arith) (ascii "pw") vector
      (ascii "proxy/stream") 10 60 (some (ascii "1.2.3.4")) link (ascii "/proxy/stream?d=u", [])
      refl refl refl refl (read_data-write_data (link_data json crates texts.url_encode 10 link))
      (omega arith, refl) refl
