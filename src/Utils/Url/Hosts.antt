-- ===== src/Utils/Url/Hosts.antt =====
-- The bytes that a sanitized host consists of.
use mediaflow_proxy_light.Base.{
  ℕ, ◌+◌, ◌-◌, ◌*◌, ◌^◌, ◌≡◌, ◌≢◌, ◌⊎◌, inl, inr, refl, sym, ap, ◌∙◌, true, false, [], ◌∷◌, ◌++◌,
  Option, none, some, ◌==◌, is_empty, all, Bytes, ascii, is_alphanumeric, to_lowercase, split_first,
  split_last, parse_unsigned, unsigned, digits_below, bytes_equal, bytes_equal_iff, Bool-cases,
  Option-cases, arith,
}
use mathlib.Core.Option.{get_or}
use mathlib.Core.Path.{subst}
use mediaflow_proxy_light.Utils.Url.{
  is_host, is_bracketed_host, is_named_host, is_port, valid_optional_port, is_literal_byte,
  is_name_byte, sanitize_forwarded_host, sanitize_forwarded_scheme, Forwarded, and_then, or_else,
  public_scheme, public_host, public_proxy_base_url, normalize_public_path, first_forwarded_value,
}

-- Letters, digits, `.`, `-`, `:`, brackets and the plus sign that `u16::parse` takes.
abbrev pub IsHostByte : ℕ → Type 0
IsHostByte c =
    (is_alphanumeric c ≡ true) ⊎ (c ≡ 46) ⊎ (c ≡ 45) ⊎ (c ≡ 58) ⊎ (c ≡ 91) ⊎ (c ≡ 93) ⊎ (c ≡ 43)

abbrev pub AllBytes : (ℕ → Type 0) → Bytes → Type 0
AllBytes P [] = Unit
AllBytes P (c ∷ cs) = P c × AllBytes P cs

AllBytes-append : (P : ℕ → Type 0) (s t : Bytes) → AllBytes P s → AllBytes P t → AllBytes P (s ++ t)
AllBytes-append P [] t hs ht = ht
AllBytes-append P (c ∷ s) t hs ht = (hs.0, AllBytes-append P s t hs.1 ht)

name-AllBytes : (s : Bytes) → all is_name_byte s ≡ true → AllBytes IsHostByte s
name-AllBytes [] h = tt
name-AllBytes (c ∷ cs) h = (ground arith, name-AllBytes cs (ground arith))

literal-AllBytes : (s : Bytes) → all is_literal_byte s ≡ true → AllBytes IsHostByte s
literal-AllBytes [] h = tt
literal-AllBytes (c ∷ cs) h = (ground arith, literal-AllBytes cs (ground arith))

digits-AllBytes :
    (limit : ℕ) (s : Bytes) (acc n : ℕ) → digits_below limit s acc ≡ some n → AllBytes IsHostByte s
digits-AllBytes limit [] acc n h = tt
digits-AllBytes limit (c ∷ cs) acc n h =
    (ground arith, digits-AllBytes limit cs (acc * 10 + (c - b'0')) n (ground arith))

unsigned-AllBytes :
    (limit : ℕ) (s : Bytes) (n : ℕ) → unsigned limit s ≡ some n → AllBytes IsHostByte s
unsigned-AllBytes limit [] n h = tt
unsigned-AllBytes limit (c ∷ cs) n h = digits-AllBytes limit (c ∷ cs) 0 n h

parsed-AllBytes :
    (limit : ℕ) (s : Bytes) (n : ℕ) → parse_unsigned limit s ≡ some n → AllBytes IsHostByte s
parsed-AllBytes limit [] n h = tt
parsed-AllBytes limit (c ∷ cs) n h = elim (Bool-cases (c == b'+')) [
  | inl e ↦ (ground arith, unsigned-AllBytes limit cs n (ground arith))
  | inr e ↦ unsigned-AllBytes limit (c ∷ cs) n (ground arith)
]

port-AllBytes : (s : Bytes) → is_port s ≡ true → AllBytes IsHostByte s
port-AllBytes s h = elim (Option-cases (parse_unsigned (2 ^ 16) s)) [
  | inl e ↦ ground arith
  | inr (n, e) ↦ parsed-AllBytes (2 ^ 16) s n e
]

split_first-joined : (sep : ℕ) (s a b : Bytes) → split_first sep s ≡ some (a, b) → s ≡ a ++ sep ∷ b
split_first-joined sep [] a b h = ground arith
split_first-joined sep (c ∷ cs) a b h = elim (Bool-cases (c == sep)) [
  | inl e ↦ grind arith
  | inr e ↦ elim (Option-cases (split_first sep cs)) [
    | inl none_left ↦ ground arith
    | inr ((a', b'), found) ↦ let tail = split_first-joined sep cs a' b' found in grind arith
  ]
]

split_last-joined : (sep : ℕ) (s a b : Bytes) → split_last sep s ≡ some (a, b) → s ≡ a ++ sep ∷ b
split_last-joined sep [] a b h = ground arith
split_last-joined sep (c ∷ cs) a b h = elim (Option-cases (split_last sep cs)) [
  | inl none_left ↦ elim (Bool-cases (c == sep)) [ inl e ↦ grind arith | inr e ↦ ground arith ]
  | inr ((a', b'), found) ↦ let tail = split_last-joined sep cs a' b' found in grind arith
]

optional_port-AllBytes : (port : Bytes) → valid_optional_port port ≡ true → AllBytes IsHostByte port
optional_port-AllBytes [] h = tt
optional_port-AllBytes (c ∷ port) h = (ground arith, port-AllBytes port (ground arith))

bracketed-AllBytes : (rest : Bytes) → is_bracketed_host rest ≡ true → AllBytes IsHostByte rest
bracketed-AllBytes rest h = elim (Option-cases (split_first b']' rest)) [
  | inl e ↦ ground arith
  | inr ((inside, port), e) ↦
      subst (AllBytes IsHostByte) (sym (split_first-joined b']' rest inside port e)) (
        AllBytes-append IsHostByte inside (b']' ∷ port) (literal-AllBytes inside (ground arith))
          (ground arith, optional_port-AllBytes port (ground arith)))
]

named-AllBytes : (value : Bytes) → is_named_host value ≡ true → AllBytes IsHostByte value
named-AllBytes value h = elim (Option-cases (split_last b':' value)) [
  | inl e ↦ name-AllBytes value (ground arith)
  | inr ((host, port), e) ↦
      subst (AllBytes IsHostByte) (sym (split_last-joined b':' value host port e)) (
        AllBytes-append IsHostByte host (b':' ∷ port) (name-AllBytes host (ground arith))
          (ground arith, port-AllBytes port (ground arith)))
]

host-AllBytes : (value : Bytes) → is_host value ≡ true → AllBytes IsHostByte value
host-AllBytes [] h = tt
host-AllBytes (c ∷ cs) h = elim (Bool-cases (b'[' == c)) [
  | inl e ↦ (ground arith, bracketed-AllBytes cs (ground arith))
  | inr e ↦ named-AllBytes (c ∷ cs) (ground arith)
]

-- A text of host bytes, at least one.
abbrev pub IsCleanHost : Bytes → Type 0
IsCleanHost host = (host ≢ []) × AllBytes IsHostByte host

sanitize_forwarded_host-same :
    (value host : Bytes)
    → sanitize_forwarded_host value ≡ some host
    → (host ≡ value) × (is_empty value ≡ false) × (is_host value ≡ true)
unfolding sanitize_forwarded_host
sanitize_forwarded_host-same value host h = ground arith

-- Of every text that is accepted as a forwarded host: it is returned as it is, it is not empty and
-- it consists of letters, digits, dots, dashes, colons, brackets and plus signs.
pub sanitize_forwarded_host-IsCleanHost :
    (value host : Bytes)
    → sanitize_forwarded_host value ≡ some host
    → (host ≡ value) × IsCleanHost host
sanitize_forwarded_host-IsCleanHost value host h =
    let (same, nonempty, ok) = sanitize_forwarded_host-same value host h in
    (
      same,
      (
        (λ e. ground (arith, ap is_empty (sym same ∙ e))),
        subst (AllBytes IsHostByte) (sym same) (host-AllBytes value ok),
      ),
    )

abbrev pub IsWebScheme : Bytes → Type 0
IsWebScheme scheme = (scheme ≡ ascii "http") ⊎ (scheme ≡ ascii "https")

sanitize_forwarded_scheme-same :
    (value scheme : Bytes)
    → sanitize_forwarded_scheme value ≡ some scheme
    → scheme ≡ to_lowercase value
unfolding sanitize_forwarded_scheme
sanitize_forwarded_scheme-same value scheme h = ground arith

sanitize_forwarded_scheme-IsWebScheme :
    (value scheme : Bytes) → sanitize_forwarded_scheme value ≡ some scheme → IsWebScheme scheme
unfolding sanitize_forwarded_scheme
sanitize_forwarded_scheme-IsWebScheme value scheme h =
    elim (Bool-cases (bytes_equal (to_lowercase value) (ascii "http"))) [
      | inl e ↦ inl (
          sanitize_forwarded_scheme-same value scheme h
          ∙ (bytes_equal_iff (to_lowercase value) (ascii "http")).0 e)
      | inr e ↦ elim (Bool-cases (bytes_equal (to_lowercase value) (ascii "https"))) [
        | inl e' ↦ inr (
            sanitize_forwarded_scheme-same value scheme h
            ∙ (bytes_equal_iff (to_lowercase value) (ascii "https")).0 e')
        | inr e' ↦ ground arith
      ]
    ]

module _ (P : Bytes → Type 0) where
  abbrev Yields : Option Bytes → Type 0
  Yields o = (a : Bytes) → o ≡ some a → P a

  get_or-Yields : (o : Option Bytes) (d : Bytes) → Yields o → P d → P (get_or o d)
  get_or-Yields none d ho hd = hd
  get_or-Yields (some a) d ho hd = ho a refl

  and_then-Yields :
      (o : Option Bytes) (f : Bytes → Option Bytes)
      → ((a : Bytes) → Yields (f a))
      → Yields (and_then o f)
  and_then-Yields none f h b e = ground arith
  and_then-Yields (some a) f h b e = h a b e

  or_else-Yields : (o o' : Option Bytes) → Yields o → Yields o' → Yields (or_else o o')
  or_else-Yields none o' h h' = h'
  or_else-Yields (some a) o' h h' = h

clean : (value : Bytes) → Yields IsCleanHost (sanitize_forwarded_host value)
clean value host e = (sanitize_forwarded_host-IsCleanHost value host e).1

localhost-IsCleanHost : IsCleanHost (ascii "localhost")
localhost-IsCleanHost =
    ((λ e. ground (arith, ap is_empty e)), name-AllBytes (ascii "localhost") refl)

public_host-IsCleanHost : (req : Forwarded) → IsCleanHost (public_host req)
unfolding public_host
public_host-IsCleanHost req =
    get_or-Yields IsCleanHost
      (and_then (and_then req.forwarded_host first_forwarded_value) sanitize_forwarded_host) _
      (and_then-Yields IsCleanHost (and_then req.forwarded_host first_forwarded_value)
        sanitize_forwarded_host clean)
      (get_or-Yields IsCleanHost
        (or_else (and_then req.host sanitize_forwarded_host)
          (sanitize_forwarded_host req.connection_host))
        (ascii "localhost")
        (or_else-Yields IsCleanHost (and_then req.host sanitize_forwarded_host)
          (sanitize_forwarded_host req.connection_host)
          (and_then-Yields IsCleanHost req.host sanitize_forwarded_host clean)
          (clean req.connection_host))
        localhost-IsCleanHost)

public_scheme-IsWebScheme : (req : Forwarded) → IsWebScheme (public_scheme req)
unfolding public_scheme
public_scheme-IsWebScheme req =
    get_or-Yields IsWebScheme
      (and_then (and_then req.forwarded_proto first_forwarded_value) sanitize_forwarded_scheme) _
      (and_then-Yields IsWebScheme (and_then req.forwarded_proto first_forwarded_value)
        sanitize_forwarded_scheme sanitize_forwarded_scheme-IsWebScheme)
      (get_or-Yields IsWebScheme (and_then req.uri_scheme sanitize_forwarded_scheme) (ascii "http")
        (and_then-Yields IsWebScheme req.uri_scheme sanitize_forwarded_scheme
          sanitize_forwarded_scheme-IsWebScheme)
        (inl refl))

-- Of every request, whatever its headers hold: the public base URL is `http` or `https`, `://`, a
-- text of host bytes that is not empty, and the normalized path.
pub public_proxy_base_url-IsCleanHost :
    (req : Forwarded) (public_path : Bytes)
    → (scheme host : Bytes) × (public_proxy_base_url req public_path
        ≡ scheme ++ ascii "://" ++ host ++ normalize_public_path public_path)
      × IsWebScheme scheme
      × IsCleanHost host
unfolding public_proxy_base_url
public_proxy_base_url-IsCleanHost req public_path = (
  public_scheme req,
  public_host req,
  refl,
  public_scheme-IsWebScheme req,
  public_host-IsCleanHost req,
)
