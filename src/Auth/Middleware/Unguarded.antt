-- ===== src/Auth/Middleware/Unguarded.antt =====
-- Paths under which a file name of the web pages and a route of the proxy fall together.
use mediaflow_proxy_light.Base.{
  ℕ, ◌≡◌, inl, inr, refl, Bool, true, false, List, [], ◌∷◌, ◌++◌, Option, none, is_empty, all,
  Bytes, ascii, contains_bytes, bytes_equal, bytes_equal_iff, Bool-cases, arith,
}
use mathlib.Core.Path.{subst}
use mediaflow_proxy_light.Auth.Encryption.{Json, Crates}
use mediaflow_proxy_light.Auth.Middleware.{
  static_extensions, is_static_asset, Request, Texts, served, new, call_rest, call,
}

all_contains :
    (p : Bytes → Bool) (ts : List Bytes) (s : Bytes)
    → all p ts ≡ true
    → contains_bytes ts s ≡ true
    → p s ≡ true
all_contains p [] s h c = ground arith
all_contains p (t ∷ ts) s h c = elim (Bool-cases (bytes_equal t s)) [
  | inl same ↦ subst (λ x. p x ≡ true) ((bytes_equal_iff t s).0 same) (ground arith)
  | inr other ↦ all_contains p ts s (ground arith) (ground arith)
]

-- `/proxy/acestream/segment.{ext}`, of src/main.rs.
abbrev pub segment_path : Bytes → Bytes
segment_path ext = ascii "/proxy/acestream/segment." ++ ext

segment_path-static : all (λ e. is_static_asset (segment_path e)) static_extensions ≡ true
unfolding is_static_asset
segment_path-static = refl

module _ {J : Type 0} (json : Json J) (texts : Texts) (crates : Crates J) where
  -- On a server with a password, a request for an Ace Stream segment whose extension is one of the
  -- web pages' files reaches the handler unchanged and without data, whatever its query and
  -- whether or not the query has a password or a token.
  pub call-static_extension :
      (api_password ext query : Bytes) (now : ℕ) (client_ip : Option Bytes)
      → is_empty api_password ≡ false
      → contains_bytes static_extensions ext ≡ true
      → let req : Request = record {
        path = segment_path ext;
        query_string = query;
        client_ip = client_ip;
      } in
        call json texts crates (new api_password) now req ≡ served req none
  unfolding call call_rest new
  call-static_extension api_password ext query now client_ip protected listed =
      rw
        (
          protected,
          all_contains (λ e. is_static_asset (segment_path e)) static_extensions ext
              segment_path-static listed,
        )
        refl
