-- ===== src/Xtream/Auth/Tokens.antt =====
-- Tokens of `encode_username_token`, read back.
use mediaflow_proxy_light.Base.{
  Without, split_first-Without, trim_end, ends_with, split_text, zero, suc, ◌≡◌, inl, inr, refl, ap,
  ◌∙◌, true, false, [], ◌∷◌, ◌++◌, append_assoc, none, some, if◌then◌else◌, Bytes, Bool-cases,
  ascii, is_alphanumeric, ◌||◌, ◌==◌, Bool, ℕ, ◌%◌, ◌+◌, ◌≤◌, map, all, length, replicate,
  contains_text, split_first, starts_with, bytes_equal, bytes_equal_iff, arith,
}
use mediaflow_proxy_light.Utils.Url.{is_slash}
use mediaflow_proxy_light.Utils.Url.Paths.{trim_end-last}
use mediaflow_proxy_light.Xtream.Auth.{
  XcCredentials, ok, Codec, ensure_trailing_slash, standard_byte, pad, padded, split_n,
  is_short_number, with_protocol, credentials, read_parts, read_compound, encode_username_token,
  parse_username_with_upstream,
}

split_first-none : (sep : ℕ) (a : Bytes) → Without sep a → split_first sep a ≡ none
split_first-none sep [] h = refl
split_first-none sep (c ∷ a) h = let rest = split_first-none sep a (ground arith) in ground arith

split_text-Without :
    (a b : Bytes)
    → Without b':' a
    → split_text (ascii "://") (a ++ (ascii "://" ++ b)) ≡ some (a, b)
split_text-Without [] b h = refl
split_text-Without (c ∷ a) b h = let rest = split_text-Without a b (ground arith) in ground arith

contains_text-start : (p s : Bytes) → starts_with s p ≡ true → contains_text s p ≡ true
contains_text-start p [] h = h
contains_text-start p (c ∷ cs) h = ground arith

contains_text-middle : (a s p : Bytes) → starts_with s p ≡ true → contains_text (a ++ s) p ≡ true
contains_text-middle [] s p h = contains_text-start p s h
contains_text-middle (c ∷ a) s p h = ground (arith, contains_text-middle a s p h)

ends_with-splits : (s : Bytes) → ends_with s (b'/' ∷ []) ≡ true → (t : Bytes) × (s ≡ t ++ b'/' ∷ [])
ends_with-splits [] h = ground arith
ends_with-splits (c ∷ cs) h = elim (Bool-cases (bytes_equal (c ∷ cs) (b'/' ∷ []))) [
  | inl e ↦ ([], (bytes_equal_iff (c ∷ cs) (b'/' ∷ [])).0 e)
  | inr e ↦ let (t, split) = ends_with-splits cs (ground arith) in (c ∷ t, ap (λ l. c ∷ l) split)
]

-- A trimmed address gets a slash.
slash_lem :
    (upstream s : Bytes) → trim_end is_slash upstream ≡ s → ensure_trailing_slash s ≡ s ++ b'/' ∷ []
unfolding ensure_trailing_slash
slash_lem upstream s h = elim (Bool-cases (ends_with s (b'/' ∷ []))) [
  | inl e ↦
      let (t, split) = ends_with-splits s e in
      let bad = trim_end-last is_slash upstream b'/' t (h ∙ split) in ground arith
  | inr e ↦ ground arith
]

read_compound-parts :
    (proto rest : Bytes)
    → Without b':' proto
    → read_compound (proto ++ (ascii "://" ++ rest)) ≡ read_parts proto (split_n 4 b':' rest)
unfolding read_compound
read_compound-parts proto rest h =
    rw
      (
        contains_text-middle proto (ascii "://" ++ rest) (ascii "://") refl,
        contains_text-middle proto (ascii "://" ++ rest) (ascii ":") refl,
        split_text-Without proto rest h,
        read_compound,
      )
      refl

split_n-more :
    (n sep : ℕ) (a b : Bytes)
    → Without sep a
    → split_n (suc (suc n)) sep (a ++ (sep ∷ b)) ≡ a ∷ split_n (suc n) sep b
split_n-more n sep a b h = rw (split_first-Without sep a b h, split_n) refl

split_n-last : (n sep : ℕ) (a : Bytes) → Without sep a → split_n (suc n) sep a ≡ a ∷ []
split_n-last zero sep a h = refl
split_n-last (suc n) sep a h = rw (split_first-none sep a h, split_n) refl

-- An address without a port, and one with a port, behind it a user name and a password.
parts_no_port :
    (host user password : Bytes)
    → Without b':' host
    → Without b':' user
    → Without b':' password
    → split_n 4 b':' (host ++ (b':' ∷ (user ++ (b':' ∷ password)))) ≡ host ∷ user ∷ password ∷ []
parts_no_port host user password hh hu hp =
    split_n-more 2 b':' host _ hh
    ∙ ap (λ l. host ∷ l)
        (split_n-more 1 b':' user password hu
          ∙ ap (λ l. user ∷ l) (split_n-last 1 b':' password hp))

parts_port :
    (host port user password : Bytes)
    → Without b':' host
    → Without b':' port
    → Without b':' user
    → split_n 4 b':' (host ++ (b':' ∷ (port ++ (b':' ∷ (user ++ (b':' ∷ password))))))
      ≡ host ∷ port ∷ user ∷ password ∷ []
parts_port host port user password hh hp hu =
    split_n-more 2 b':' host _ hh
    ∙ ap (λ l. host ∷ l)
        (split_n-more 1 b':' port _ hp ∙ ap (λ l. port ∷ l) (split_n-more 0 b':' user password hu))

-- What a token encodes: an address without trailing slashes, a user name and a password.
abbrev pub compound : Bytes → Bytes → Bytes → Bytes
compound address user password = address ++ (b':' ∷ (user ++ (b':' ∷ password)))

compound-parts :
    (proto host user password : Bytes)
    → Without b':' proto
    → read_compound (compound (with_protocol proto host) user password)
      ≡ read_parts proto (split_n 4 b':' (compound host user password))
compound-parts proto host user password h =
    ap read_compound (append_assoc proto (ascii "://" ++ host) _)
    ∙ read_compound-parts proto (compound host user password) h

-- The letters, digits and two signs of standard base64, and what the URL-safe alphabet has instead.
abbrev pub is_standard : ℕ → Bool
is_standard c = is_alphanumeric c || c == b'+' || c == b'/'

abbrev pub url_safe : ℕ → ℕ
url_safe c = if c == b'+' then b'-' else if c == b'/' then b'_' else c

-- Two texts of the same bytes: the standard one fills its last group of four with at most two
-- equals signs, and the URL-safe one has none of those and its own two signs.
abbrev pub SameBase64 : Bytes → Bytes → Type 0
SameBase64 standard safe =
    (body : Bytes) × (fill : ℕ) × (standard ≡ body ++ replicate fill b'=')
    × (fill ≤ 2)
    × ((length body + fill) % 4 ≡ 0)
    × (all is_standard body ≡ true)
    × (safe ≡ map url_safe body)

standard_byte-url_safe :
    (body : Bytes) → all is_standard body ≡ true → map standard_byte (map url_safe body) ≡ body
standard_byte-url_safe [] h = refl
standard_byte-url_safe (c ∷ body) h = ground (arith, standard_byte-url_safe body)

length-url_safe : (body : Bytes) → length (map url_safe body) ≡ length body
length-url_safe [] = refl
length-url_safe (c ∷ body) = ap suc (length-url_safe body)

pad-fill : (n fill : ℕ) → fill ≤ 2 → (n + fill) % 4 ≡ 0 → pad (n % 4) ≡ replicate fill b'='
pad-fill n zero h k = ground arith
pad-fill n (suc zero) h k = ground arith
pad-fill n (suc (suc zero)) h k = ground arith
pad-fill n (suc (suc (suc fill))) h k = absurd (omega arith)

padded-SameBase64 : (standard safe : Bytes) → SameBase64 standard safe → padded safe ≡ standard
padded-SameBase64 standard safe (body, fill, split, few, full, letters, same) =
    rw (same, standard_byte-url_safe body letters, length-url_safe body, split)
      (ap (◌++◌ body) (pad-fill (length body) fill few full))

module _ (base64 : Codec) (standard : Bytes → Bytes)
    (decodes : (s : Bytes) → base64.decode (standard s) ≡ some s)
    (alphabets : (s : Bytes) → SameBase64 (standard s) (base64.encode s)) where
  parse-encoded :
      (s : Bytes) (creds : XcCredentials)
      → base64.is_utf8 s ≡ true
      → read_compound s ≡ some creds
      → parse_username_with_upstream base64 (base64.encode s) ≡ ok creds
  unfolding parse_username_with_upstream
  parse-encoded s creds text h =
      rw
        (
          padded-SameBase64 (standard s) (base64.encode s) (alphabets s),
          decodes s,
          parse_username_with_upstream,
        )
        (rw text (rw h refl))

  -- If standard base64 decodes what it encoded, and its texts and those of the URL-safe encoder
  -- differ only by alphabet and padding, then of every address with a port, in whose parts no colon
  -- stands, every user name without a colon and every password that is not empty, all of it UTF-8:
  -- the token is read back as that address with one slash behind it, that user and that password.
  -- The address may be written with slashes behind it.
  pub parse_username_with_upstream-encode_username_token :
      (upstream proto host port user : Bytes) (p : ℕ) (ps : Bytes)
      → trim_end is_slash upstream ≡ with_protocol proto (host ++ (b':' ∷ port))
      → Without b':' proto
      → Without b':' host
      → Without b':' port
      → Without b':' user
      → base64.is_utf8 (compound (with_protocol proto (host ++ (b':' ∷ port))) user (p ∷ ps)) ≡ true
      → parse_username_with_upstream base64
          (encode_username_token base64 upstream user (some (p ∷ ps)))
        ≡ ok (record {
          upstream_base = with_protocol proto (host ++ (b':' ∷ port)) ++ b'/' ∷ [];
          actual_username = user;
          api_password = some (p ∷ ps);
        })
  unfolding encode_username_token read_parts
  parse_username_with_upstream-encode_username_token upstream proto host port user p ps trimmed
        hproto hhost hport huser text =
      rw (trimmed, encode_username_token)
        (parse-encoded _ _ text (
          compound-parts proto (host ++ (b':' ∷ port)) user (p ∷ ps) hproto
          ∙ ap (λ l. read_parts proto (split_n 4 b':' l)) (append_assoc host (b':' ∷ port) _)
          ∙ ap (read_parts proto) (parts_port host port user (p ∷ ps) hhost hport huser)
          ∙ ap
              (λ u. some (record {
                upstream_base = u;
                actual_username = user;
                api_password = some (p ∷ ps);
              }))
              (slash_lem upstream _ trimmed)))

  -- The same of an address without a port, if the user name is no number of at most five digits and
  -- the password has no colon.
  pub encode_username_token-no_port :
      (upstream proto host user : Bytes) (p : ℕ) (ps : Bytes)
      → trim_end is_slash upstream ≡ with_protocol proto host
      → Without b':' proto
      → Without b':' host
      → Without b':' user
      → Without b':' (p ∷ ps)
      → is_short_number user ≡ false
      → base64.is_utf8 (compound (with_protocol proto host) user (p ∷ ps)) ≡ true
      → parse_username_with_upstream base64
          (encode_username_token base64 upstream user (some (p ∷ ps)))
        ≡ ok (record {
          upstream_base = with_protocol proto host ++ b'/' ∷ [];
          actual_username = user;
          api_password = some (p ∷ ps);
        })
  unfolding encode_username_token read_parts
  encode_username_token-no_port upstream proto host user p ps trimmed hproto hhost huser hpass long
        text =
      rw (trimmed, encode_username_token)
        (parse-encoded _ _ text (
          compound-parts proto host user (p ∷ ps) hproto
          ∙ ap (read_parts proto) (parts_no_port host user (p ∷ ps) hhost huser hpass)
          ∙ ap
              (λ b.
                if b
                then credentials (with_protocol proto (host ++ (b':' ∷ user))) (p ∷ ps) none
                else credentials (with_protocol proto host) user (some (p ∷ ps)))
              long
          ∙ ap
              (λ u. some (record {
                upstream_base = u;
                actual_username = user;
                api_password = some (p ∷ ps);
              }))
              (slash_lem upstream _ trimmed)))

  -- If standard base64 decodes what it encoded, and its texts and those of the URL-safe encoder
  -- differ only by alphabet and padding, then with a user name that is a number of at most five
  -- digits, and a password that is not empty and has no colon, all of it UTF-8, the token of an
  -- address without a port is read back with the password as user and no password.
  pub encode_username_token-misread :
      (upstream proto host user : Bytes) (p : ℕ) (ps : Bytes)
      → trim_end is_slash upstream ≡ with_protocol proto host
      → Without b':' proto
      → Without b':' host
      → Without b':' user
      → Without b':' (p ∷ ps)
      → is_short_number user ≡ true
      → base64.is_utf8 (compound (with_protocol proto host) user (p ∷ ps)) ≡ true
      → (base : Bytes) × (parse_username_with_upstream base64
            (encode_username_token base64 upstream user (some (p ∷ ps)))
          ≡ ok (record { upstream_base = base; actual_username = p ∷ ps; api_password = none }))
  unfolding encode_username_token read_parts
  encode_username_token-misread upstream proto host user p ps trimmed hproto hhost huser hpass short
        text =
      (
        ensure_trailing_slash (with_protocol proto (host ++ (b':' ∷ user))),
        rw (trimmed, encode_username_token)
            (parse-encoded _ _ text (
              compound-parts proto host user (p ∷ ps) hproto
              ∙ ap (read_parts proto) (parts_no_port host user (p ∷ ps) hhost huser hpass)
              ∙ ap
                  (λ b.
                    if b
                    then credentials (with_protocol proto (host ++ (b':' ∷ user))) (p ∷ ps) none
                    else credentials (with_protocol proto host) user (some (p ∷ ps)))
                  short)),
      )
