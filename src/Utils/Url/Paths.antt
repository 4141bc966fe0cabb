-- ===== src/Utils/Url/Paths.antt =====
-- Trimming, and the prefix that `normalize_public_path` makes.
use mediaflow_proxy_light.Base.{
  trim_start, trim_end, trim_by, keep_before, is_whitespace, ℕ, ◌≡◌, ◌≢◌, ◌⊎◌, inl, inr, refl, ap,
  ◌∙◌, Bool, true, false, [], ◌∷◌, ◌++◌, all, if◌then◌else◌, Bytes, Bool-cases, is_empty, is_empty,
  drop, arith,
}
use mediaflow_proxy_light.Utils.Url.{is_slash, with_slash, normalize_public_path}

-- The text does not start with a byte of the class, and does not end with one.
abbrev pub Unpadded : (ℕ → Bool) → Bytes → Type 0
Unpadded p s =
    ((c : ℕ) (cs : Bytes) → s ≡ c ∷ cs → p c ≡ false)
    × ((c : ℕ) (cs : Bytes) → s ≡ cs ++ c ∷ [] → p c ≡ false)

-- The text without bytes of the class before it and after it.
abbrev pub Pads : (ℕ → Bool) → Bytes → Bytes → Type 0
Pads p s t =
    (before after : Bytes) × (s ≡ before ++ (t ++ after))
    × (all p before ≡ true)
    × (all p after ≡ true)

trim_start-splits :
    (p : ℕ → Bool) (s : Bytes)
    → (before : Bytes) × (s ≡ before ++ trim_start p s) × (all p before ≡ true)
trim_start-splits p [] = ([], refl, refl)
trim_start-splits p (c ∷ cs) =
    elim (p c)
        as (λ b.
          (p c ≡ b)
          → (before : Bytes) × (c ∷ cs ≡ before ++ (if b then trim_start p cs else c ∷ cs))
            × (all p before ≡ true)) [
              | true ↦ λ e.
                  let (before, split, ok) = trim_start-splits p cs in
                  (c ∷ before, ap (λ l. c ∷ l) split, ground (arith))
              | false ↦ λ e. ([], refl, refl)
            ]
      refl

trim_start-first :
    (p : ℕ → Bool) (s : Bytes) (c : ℕ) (cs : Bytes) → trim_start p s ≡ c ∷ cs → p c ≡ false
trim_start-first p [] c cs h = ground arith
trim_start-first p (d ∷ ds) c cs h = elim (Bool-cases (p d)) [
  | inl e ↦ trim_start-first p ds c cs (ground arith)
  | inr e ↦ grind arith
]

keep_before-splits :
    (p : ℕ → Bool) (c : ℕ) (b : Bool) (kept after cs : Bytes)
    → p c ≡ b
    → cs ≡ kept ++ after
    → all p after ≡ true
    → (after' : Bytes) × (c ∷ cs ≡ keep_before kept b c ++ after') × (all p after' ≡ true)
keep_before-splits p c true [] after cs e split ok =
    (c ∷ after, ap (λ l. c ∷ l) split, ground arith)
keep_before-splits p c false [] after cs e split ok = (after, ap (λ l. c ∷ l) split, ok)
keep_before-splits p c b (d ∷ ds) after cs e split ok = (after, ap (λ l. c ∷ l) split, ok)

trim_end-splits :
    (p : ℕ → Bool) (s : Bytes)
    → (after : Bytes) × (s ≡ trim_end p s ++ after) × (all p after ≡ true)
trim_end-splits p [] = ([], refl, refl)
trim_end-splits p (c ∷ cs) =
    let (after, split, ok) = trim_end-splits p cs in
    keep_before-splits p c (p c) (trim_end p cs) after cs refl split ok

nil-snoc : (cs : Bytes) (c : ℕ) → [] ≢ cs ++ c ∷ []
nil-snoc [] c e = ground arith
nil-snoc (d ∷ ds) c e = ground arith

keep_before-last :
    (p : ℕ → Bool) (d : ℕ) (b : Bool) (kept : Bytes)
    → p d ≡ b
    → ((c : ℕ) (cs : Bytes) → kept ≡ cs ++ c ∷ [] → p c ≡ false)
    → (c : ℕ) (cs : Bytes) → keep_before kept b d ≡ cs ++ c ∷ []
    → p c ≡ false
keep_before-last p d true [] e last c cs h = elim (nil-snoc cs c h) [ ]
keep_before-last p d false [] e last c [] h = grind arith
keep_before-last p d false [] e last c (x ∷ cs) h = elim (nil-snoc cs c (ap (drop 1) h)) [ ]
keep_before-last p d b (k ∷ ks) e last c [] h = ground arith
keep_before-last p d b (k ∷ ks) e last c (x ∷ cs) h = last c cs (ap (drop 1) h)

pub trim_end-last :
    (p : ℕ → Bool) (s : Bytes) (c : ℕ) (cs : Bytes) → trim_end p s ≡ cs ++ c ∷ [] → p c ≡ false
trim_end-last p [] c cs h = elim (nil-snoc cs c h) [ ]
trim_end-last p (d ∷ ds) c cs h =
    keep_before-last p d (p d) (trim_end p ds) refl (trim_end-last p ds) c cs h

trim_by-Unpadded : (p : ℕ → Bool) (s : Bytes) → Unpadded p (trim_by p s)
trim_by-Unpadded p s =
    let (after, split, ok) = trim_end-splits p (trim_start p s) in
    (
      (λ c cs e. trim_start-first p s c (cs ++ after) (split ∙ ap (λ t. t ++ after) e)),
      trim_end-last p (trim_start p s),
    )

trim_by-Pads : (p : ℕ → Bool) (s : Bytes) → Pads p s (trim_by p s)
trim_by-Pads p s =
    let (before, start, ok) = trim_start-splits p s in
    let (after, end, ok') = trim_end-splits p (trim_start p s) in
    (before, after, start ∙ ap (λ t. before ++ t) end, ok, ok')

with_slash-cases :
    (core : Bytes)
    → ((core ≡ []) × (with_slash core ≡ [])) ⊎ ((core ≢ []) × (with_slash core ≡ b'/' ∷ core))
with_slash-cases [] = inl (refl, refl)
with_slash-cases (c ∷ cs) = inr ((λ e. ground (arith, ap is_empty e)), refl)

-- Of every configured path: the normalized path is empty, or it is a slash and a text that is not
-- empty and neither starts nor ends with a slash. Where that text stands in the path, there are
-- only slashes around it; text and slashes together neither start nor end with white space, and
-- around them there is only white space.
pub normalize_public_path-Unpadded :
    (path : Bytes)
    → (prefix core : Bytes) × Pads is_whitespace path prefix
      × Unpadded is_whitespace prefix
      × Pads is_slash prefix core
      × Unpadded is_slash core
      × (((core ≡ []) × (normalize_public_path path ≡ []))
          ⊎ ((core ≢ []) × (normalize_public_path path ≡ b'/' ∷ core)))
unfolding normalize_public_path
normalize_public_path-Unpadded path =
    let prefix = trim_by is_whitespace path in
    let core = trim_by is_slash prefix in
    (
      prefix,
      core,
      trim_by-Pads is_whitespace path,
      trim_by-Unpadded is_whitespace path,
      trim_by-Pads is_slash prefix,
      trim_by-Unpadded is_slash prefix,
      with_slash-cases core,
    )
