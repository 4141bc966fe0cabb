-- ===== src/Examples/Guarding.antt =====
-- A token and a request with it, with toy crates.
use mediaflow_proxy_light.Base.{
  ℕ, suc, zero, ◌≡◌, ◌↔◌, ◌⊎◌, ◌++◌, refl, [], ◌∷◌, Option, none, some, length, take, drop,
  take_prefix, drop_prefix, replicate, Bytes, ascii, arith,
}
use mediaflow_proxy_light.Auth.Encryption.{
  Json, ProxyData, Crates, ok, derive_key, encrypt, decrypt,
}
use mediaflow_proxy_light.Auth.Encryption.Tokens.{IsValid}
use mediaflow_proxy_light.Auth.Encryption.RoundTrip.{decrypt-encrypt}
use mediaflow_proxy_light.Auth.Middleware.{Request, Texts, served, new, call}
use mediaflow_proxy_light.Auth.Middleware.Unguarded.{call-static_extension}
use mediaflow_proxy_light.Auth.Middleware.Guard.{
  ByPathToken, ByOpenPage, ByQueryToken, ByPassword, call-Decrypted,
}

-- JSON values that hold nothing.
abbrev pub json : Json (Unit {0})
json = record {
  as_str = λ v. none;
  as_u64 = λ v. none;
  as_object = λ v. none;
  string = λ s. tt;
  object = λ m. tt;
}

abbrev flag : Option (Unit {0}) → ℕ
flag none = 0
flag (some v) = 1

abbrev unflag : ℕ → Option (Unit {0})
unflag zero = none
unflag (suc n) = some tt

abbrev write_number : Option ℕ → ℕ
write_number none = 0
write_number (some n) = suc n

abbrev read_number : ℕ → Option ℕ
read_number zero = none
read_number (suc n) = some n

abbrev write_text : Option Bytes → Bytes
write_text none = 0 ∷ []
write_text (some s) = 1 ∷ s

abbrev read_text : Bytes → Option Bytes
read_text (suc n ∷ s) = some s
read_text _ = none

abbrev pub write_data : ProxyData (Unit {0}) → Bytes
write_data d =
    flag d.query_params
    ∷ flag d.request_headers
    ∷ flag d.response_headers
    ∷ write_number d.exp
    ∷ length d.destination
    ∷ (d.destination ++ write_text d.ip)

abbrev pub read_data : Bytes → Option (ProxyData (Unit {0}))
read_data (q ∷ r ∷ s ∷ e ∷ n ∷ rest) = some (record {
  destination = take n rest;
  query_params = unflag q;
  request_headers = unflag r;
  response_headers = unflag s;
  exp = read_number e;
  ip = read_text (drop n rest);
})
read_data _ = none

unflag-flag : (v : Option (Unit {0})) → unflag (flag v) ≡ v
unflag-flag none = refl
unflag-flag (some v) = refl

read_number-write_number : (v : Option ℕ) → read_number (write_number v) ≡ v
read_number-write_number none = refl
read_number-write_number (some v) = refl

read_text-write_text : (v : Option Bytes) → read_text (write_text v) ≡ v
read_text-write_text none = refl
read_text-write_text (some v) = refl

pub read_data-write_data : (d : ProxyData (Unit {0})) → read_data (write_data d) ≡ some d
read_data-write_data d =
    rw
      (
        take_prefix d.destination (write_text d.ip),
        drop_prefix d.destination (write_text d.ip),
        read_text-write_text d.ip,
        read_number-write_number d.exp,
      )
      (λ i. some (record {
        destination = d.destination;
        query_params = unflag-flag d.query_params i;
        request_headers = unflag-flag d.request_headers i;
        response_headers = unflag-flag d.response_headers i;
        exp = d.exp;
        ip = d.ip;
      }))

-- A cipher that puts a byte in front.
abbrev pub strip_one : Bytes → Option Bytes
strip_one [] = none
strip_one (c ∷ s) = some s

abbrev pub crates : Crates (Unit {0})
crates = record {
  base64_encode = λ s. s;
  base64_decode = λ s. some s;
  cbc_encrypt = λ key iv s. 7 ∷ s;
  cbc_decrypt = λ key iv s. strip_one s;
  to_vec = write_data;
  read_proxy_data = read_data;
  read_map = λ s. none;
}

abbrev pub stream_data : ProxyData (Unit {0})
stream_data = record {
  destination = ascii "u";
  query_params = none;
  request_headers = none;
  response_headers = none;
  exp = some 100;
  ip = some (ascii "1.2.3.4");
}

abbrev pub vector : Bytes
vector = replicate 16 1

decrypt-encrypt_example :
    (decrypt json crates
        (derive_key (ascii "pw"))
        99
        (encrypt json crates (derive_key (ascii "pw")) vector stream_data)
        (some (ascii "1.2.3.4"))
      ≡ ok stream_data)
    ↔ ((stream_data ≡ stream_data) × IsValid 99 (some (ascii "1.2.3.4")) stream_data)
decrypt-encrypt_example =
    decrypt-encrypt json crates (λ s. refl) (λ key iv s long sixteen. refl)
      (λ key iv s. omega arith) (ascii "pw") vector 99 (some (ascii "1.2.3.4")) stream_data
      stream_data (read_data-write_data stream_data) refl

abbrev pub texts : Texts
texts = record { url_decode = λ s. some s; url_encode = λ s. s; parse_uri = λ s. some (s, []) }

abbrev request : Request
request = record {
  path = ascii "/_token_" ++ (vector ++ 7 ∷ write_data stream_data) ++ ascii "/proxy/stream";
  query_string = [];
  client_ip = some (ascii "1.2.3.4");
}

abbrev rewritten : Request
rewritten = record request { path = ascii "/proxy/stream?d=u"; query_string = [] }

request_served :
    call json texts crates (new (ascii "pw")) 99 request ≡ served rewritten (some stream_data)
unfolding call new
request_served = refl

call-Decrypted_example :
    ByPathToken json texts crates (ascii "pw") 99 request rewritten (some stream_data)
    ⊎ ByOpenPage json texts crates (ascii "pw") 99 request rewritten (some stream_data)
    ⊎ ByQueryToken json texts crates (ascii "pw") 99 request rewritten (some stream_data)
    ⊎ ByPassword json texts crates (ascii "pw") 99 request rewritten (some stream_data)
call-Decrypted_example =
    call-Decrypted json texts crates (ascii "pw") 99 request rewritten (some stream_data) refl
      request_served

call-static_extension_example :
    call json texts crates (new (ascii "pw")) 99 (record {
      path = ascii "/proxy/acestream/segment.png";
      query_string = ascii "d=http://10.0.0.1/";
      client_ip = none;
    })
    ≡ served
        (record {
          path = ascii "/proxy/acestream/segment.png";
          query_string = ascii "d=http://10.0.0.1/";
          client_ip = none;
        })
        none
call-static_extension_example =
    call-static_extension json texts crates (ascii "pw") (ascii "png") (ascii "d=http://10.0.0.1/")
      99 none refl refl
