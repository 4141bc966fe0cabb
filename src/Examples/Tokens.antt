-- ===== src/Examples/Tokens.antt =====
-- Tokens of the Xtream proxy, with a toy code in place of base64.
use mediaflow_proxy_light.Base.{
  ℕ, zero, suc, ◌+◌, ◌%◌, ◌≤◌, ◌≡◌, ◌∙◌, ◌++◌, ◌==◌, refl, ap, true, [], ◌∷◌, map, none, some,
  if◌then◌else◌, length, all, replicate, inl, inr, Bool-cases, Bytes, ascii, arith,
}
use mediaflow_proxy_light.Xtream.Auth.{
  Codec, ok, encode_username_token, parse_username_with_upstream,
}
use mediaflow_proxy_light.Xtream.Auth.Tokens.{
  is_standard, url_safe, SameBase64, parse_username_with_upstream-encode_username_token,
  encode_username_token-misread,
}

-- A byte is written as that many pairs of both signs and a pair of letters, so that a text fills
-- its last group of four or leaves two places in it.
abbrev units : ℕ → Bytes → Bytes
units zero rest = b'A' ∷ b'B' ∷ rest
units (suc n) rest = b'+' ∷ b'/' ∷ units n rest

abbrev body_before : Bytes → Bytes → Bytes
body_before [] rest = rest
body_before (b ∷ s) rest = units b (body_before s rest)

abbrev body : Bytes → Bytes
body s = body_before s []

abbrev fill : Bytes → ℕ
fill s = if length (body s) % 4 == 0 then 0 else 2

abbrev standard : Bytes → Bytes
standard s = body s ++ replicate (fill s) b'='

abbrev read_units : ℕ → Bytes → Bytes
read_units n (c ∷ d ∷ rest) =
    let next = read_units (suc n) rest in
    let done = read_units 0 rest in if c == b'A' then n ∷ done else if c == b'+' then next else []
read_units n _ = []

abbrev codec : Codec
codec = record {
  encode = λ s. map url_safe (body s);
  decode = λ s. some (read_units 0 s);
  is_utf8 = λ s. true;
}

units-append : (n : ℕ) (s t : Bytes) → units n s ++ t ≡ units n (s ++ t)
units-append zero s t = refl
units-append (suc n) s t = ap (λ l. b'+' ∷ b'/' ∷ l) (units-append n s t)

body_before-append : (s t : Bytes) → body s ++ t ≡ body_before s t
body_before-append [] t = refl
body_before-append (b ∷ s) t = units-append b (body s) t ∙ ap (units b) (body_before-append s t)

read_units-units :
    (n k : ℕ) (rest : Bytes) → read_units k (units n rest) ≡ (k + n) ∷ read_units 0 rest
read_units-units zero k rest = ap (λ i. i ∷ read_units 0 rest) (omega arith)
read_units-units (suc n) k rest =
    read_units-units n (suc k) rest ∙ ap (λ i. i ∷ read_units 0 rest) (omega arith)

read_units-fill : (n : ℕ) → read_units 0 (replicate (if n == 0 then 0 else 2) b'=') ≡ []
read_units-fill n = elim (Bool-cases (n == 0)) [ inl e ↦ rw e refl | inr e ↦ rw e refl ]

read_units-body_before :
    (s rest : Bytes) → read_units 0 rest ≡ [] → read_units 0 (body_before s rest) ≡ s
read_units-body_before [] rest h = h
read_units-body_before (b ∷ s) rest h =
    read_units-units b 0 (body_before s rest)
    ∙ ap (λ i. i ∷ read_units 0 (body_before s rest)) (omega arith)
    ∙ ap (◌∷◌ b) (read_units-body_before s rest h)

decodes : (s : Bytes) → codec.decode (standard s) ≡ some s
decodes s = ap some (
    ap (read_units 0) (body_before-append s (replicate (fill s) b'='))
    ∙ read_units-body_before s _ (read_units-fill (length (body s) % 4)))

units_even : (n : ℕ) (rest : Bytes) → length (units n rest) % 2 ≡ length rest % 2
units_even zero rest = omega arith
units_even (suc n) rest = omega (arith, units_even n rest)

body_even : (s : Bytes) → length (body s) % 2 ≡ 0
body_even [] = refl
body_even (b ∷ s) = units_even b (body s) ∙ body_even s

units_letters :
    (n : ℕ) (rest : Bytes) → all is_standard rest ≡ true → all is_standard (units n rest) ≡ true
units_letters zero rest h = h
units_letters (suc n) rest h = units_letters n rest h

body_letters : (s : Bytes) → all is_standard (body s) ≡ true
body_letters [] = refl
body_letters (b ∷ s) = units_letters b (body s) (body_letters s)

few : (n : ℕ) → (if n == 0 then 0 else 2) ≤ 2
few n = ground arith

full : (n : ℕ) → n % 2 ≡ 0 → (n + (if n % 4 == 0 then 0 else 2)) % 4 ≡ 0
full n h = ground arith

alphabets : (s : Bytes) → SameBase64 (standard s) (codec.encode s)
alphabets s = (
  body s,
  fill s,
  refl,
  few (length (body s) % 4),
  full (length (body s)) (body_even s),
  body_letters s,
  refl,
)

parse_username_with_upstream-encode_username_token_example :
    parse_username_with_upstream codec
      (encode_username_token codec (ascii "http://tv:80//") (ascii "al") (some (ascii "pw:1")))
    ≡ ok (record {
      upstream_base = ascii "http://tv:80/";
      actual_username = ascii "al";
      api_password = some (ascii "pw:1");
    })
parse_username_with_upstream-encode_username_token_example =
    parse_username_with_upstream-encode_username_token codec standard decodes alphabets
      (ascii "http://tv:80//") (ascii "http") (ascii "tv") (ascii "80") (ascii "al") b'p'
      (ascii "w:1") refl refl refl refl refl refl

encode_username_token-misread_example :
    (base : Bytes) × (parse_username_with_upstream codec
        (encode_username_token codec (ascii "http://tv") (ascii "12345") (some (ascii "pw")))
      ≡ ok (record { upstream_base = base; actual_username = ascii "pw"; api_password = none }))
encode_username_token-misread_example =
    encode_username_token-misread codec standard decodes alphabets (ascii "http://tv")
      (ascii "http") (ascii "tv") (ascii "12345") b'p' (ascii "w") refl refl refl refl refl refl
      refl
