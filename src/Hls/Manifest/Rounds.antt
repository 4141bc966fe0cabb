-- ===== src/Hls/Manifest/Rounds.antt =====
-- What `process_lines` writes for a line that it passes on, and for the two lines of a segment.
use mediaflow_proxy_light.Base.{
  ℕ, suc, ◌+◌, ◌≡◌, refl, ap, ◌∙◌, inl, inr, Bool, true, false, not, ◌&&◌, List, [], ◌∷◌, ◌++◌,
  none, some, if◌then◌else◌, is_empty, all, length, Bool-cases, Bytes, ascii, keep_before,
  starts_with, contains_text, arith,
}
use mediaflow_proxy_light.Auth.Encryption.{Json, Crates}
use mediaflow_proxy_light.Hls.SkipFilter.{Floats, SkipRange, any_overlap, check_and_advance}
use mediaflow_proxy_light.Hls.Links.{ManifestProcessor}
use mediaflow_proxy_light.Hls.Manifest.{
  FloatTexts, parse_extinf_duration, rewrite_segment_or_playlist_uri,
}
use mediaflow_proxy_light.Hls.Manifest.Lines.{
  Lines, is_header, is_extinf, is_url_line, discontinuity_tag, discontinuity_before, process_line,
  line_loop, extinf_line, url_line,
}
use mediaflow_proxy_light.Utils.Url.{UrlParser}

-- A line that is passed on as it is.
abbrev pub is_plain : Bytes → Bool
is_plain l =
    not (is_header l)
    && not (is_extinf l)
    && not (is_url_line l)
    && not (contains_text l (ascii "URI="))
    && not (starts_with l discontinuity_tag)

-- A segment: what stands behind its EXTINF tag, the line of its URL, and that line's number.
pub record Entry : Type 0 where
  pub info : Bytes
  pub url : Bytes
  pub number : ℕ

abbrev pub extinf : Bytes → Bytes
extinf info = ascii "#EXTINF:" ++ info

abbrev pub entry_lines : List (Bytes × Bytes) → List Bytes
entry_lines [] = []
entry_lines ((info, url) ∷ es) = extinf info ∷ url ∷ entry_lines es

abbrev pub entries : ℕ → List (Bytes × Bytes) → List Entry
entries n [] = []
entries n ((info, url) ∷ es) =
    record { info = info; url = url; number = suc n } ∷ entries (suc (suc n)) es

abbrev pub is_entry : Bytes × Bytes → Bool
is_entry (info, url) = not (is_header url) && is_url_line url

pub both : (a b : Bool) → (a && b) ≡ true → (a ≡ true) × (b ≡ true)
both true b h = (refl, h)
both false b h = ground arith

is_false : (a : Bool) → not a ≡ true → a ≡ false
is_false false h = refl
is_false true h = ground arith

url_line-extinf : (l : Bytes) → is_url_line l ≡ true → is_extinf l ≡ false
url_line-extinf [] h = refl
url_line-extinf (c ∷ l) h = ground arith

-- No byte of a tag is trimmed off its front.
keep_before-false : (s : Bytes) (c : ℕ) → keep_before s false c ≡ c ∷ s
keep_before-false [] c = refl
keep_before-false (d ∷ s) c = refl

extinf-header : (info : Bytes) → is_header (extinf info) ≡ false
extinf-header info = simp keep_before-false

module _ {F : Type 0} (floats : Floats F) (float_texts : FloatTexts F) {J : Type 0} (json : Json J)
    (crates : Crates J) (url_encode : Bytes → Bytes) (parse : UrlParser) (m : ManifestProcessor F)
    (base_url : Bytes) (ivs : ℕ → Bytes) where
  open floats use {add}

  abbrev pub loop : ℕ → List Bytes → Lines F → List Bytes
  loop = line_loop floats float_texts json crates url_encode parse m base_url ivs

  abbrev pub seconds : Entry → F
  seconds e = parse_extinf_duration floats float_texts (extinf e.info)

  abbrev pub write : Bool → Entry → List Bytes
  write after_cut e =
      discontinuity_before after_cut
      ++ extinf e.info
        ∷ rewrite_segment_or_playlist_uri json crates url_encode parse m (ivs e.number) e.url
            base_url
        ∷ []

  abbrev pub state_at : List (SkipRange F) → F → Bool → Bool → Lines F
  state_at ranges time cut injected = record {
    skip_filter =
        (if is_empty ranges then none else some (record { ranges = ranges; current_time = time }));
    pending_extinf = none;
    need_discontinuity = cut;
    start_offset_injected = injected;
  }

  process_line-plain :
      (iv l : Bytes) (s : Lines F)
      → is_plain l ≡ true
      → process_line floats float_texts json crates url_encode parse m base_url iv l s ≡ (l ∷ [], s)
  unfolding process_line
  process_line-plain iv l s h =
      let (h3, e) = both _ (not (starts_with l discontinuity_tag)) h in
      let (h2, d) = both _ (not (contains_text l (ascii "URI="))) h3 in
      let (h1, c) = both _ (not (is_url_line l)) h2 in
      let (a, b) = both _ (not (is_extinf l)) h1 in
      rw
        (
          is_false _ a,
          is_false _ b,
          is_false _ c,
          is_false _ d,
          is_false (starts_with l discontinuity_tag) e,
        )
        refl

  pub step :
      (n : ℕ) (l : Bytes) (ls : List Bytes) (s : Lines F) (r : List Bytes × Lines F)
      → process_line floats float_texts json crates url_encode parse m base_url (ivs n) l s ≡ r
      → loop n (l ∷ ls) s ≡ r.0 ++ loop (suc n) ls r.1
  unfolding line_loop
  step n l ls s r h = ap (λ (w : List Bytes × Lines F). w.0 ++ loop (suc n) ls w.1) h

  pub loop-plain :
      (n : ℕ) (ls rest : List Bytes) (s : Lines F)
      → all is_plain ls ≡ true
      → loop n (ls ++ rest) s ≡ ls ++ loop (n + length ls) rest s
  loop-plain n [] rest s h = ap (λ k. loop k rest s) (omega arith)
  loop-plain n (l ∷ ls) rest s h =
      let (plain, others) = both (is_plain l) _ h in
      step n l (ls ++ rest) s (l ∷ [], s) (process_line-plain (ivs n) l s plain)
      ∙ ap (◌∷◌ l)
          (loop-plain (suc n) ls rest s others ∙ ap (λ k. ls ++ loop k rest s) (omega arith))

  process_line-extinf :
      (iv info : Bytes) (s : Lines F)
      → process_line floats float_texts json crates url_encode parse m base_url iv (extinf info) s
        ≡ ([], extinf_line floats float_texts (extinf info) s)
  unfolding process_line
  process_line-extinf iv info s = rw (extinf-header info) refl

  process_line-url :
      (iv url : Bytes) (s : Lines F)
      → (not (is_header url) && is_url_line url) ≡ true
      → process_line floats float_texts json crates url_encode parse m base_url iv url s
        ≡ url_line floats float_texts
            (rewrite_segment_or_playlist_uri json crates url_encode parse m iv url base_url)
            s
  unfolding process_line
  process_line-url iv url s h =
      let (a, c) = both (not (is_header url)) _ h in
      rw (is_false _ a, url_line-extinf url c, c) refl

  loop-pair :
      (n : ℕ) (info url : Bytes) (rest : List Bytes) (s : Lines F)
      → is_entry (info, url) ≡ true
      → let r =
          url_line floats float_texts
            (rewrite_segment_or_playlist_uri json crates url_encode parse m
              (ivs (suc n))
              url
              base_url)
            (extinf_line floats float_texts (extinf info) s) in
        loop n (extinf info ∷ url ∷ rest) s ≡ r.0 ++ loop (suc (suc n)) rest r.1
  loop-pair n info url rest s h =
      let s' = extinf_line floats float_texts (extinf info) s in
      step n (extinf info) (url ∷ rest) s ([], s') (process_line-extinf (ivs n) info s)
      ∙ step (suc n) url rest s' _ (process_line-url (ivs (suc n)) url s' h)

  pub loop-entry :
      (n : ℕ) (ranges : List (SkipRange F)) (time : F) (cut injected : Bool) (info url : Bytes)
      (rest : List Bytes)
      → is_entry (info, url) ≡ true
      → let e : Entry = record { info = info; url = url; number = suc n } in
        let end = add time (seconds e) in
        loop n (extinf info ∷ url ∷ rest) (state_at ranges time cut injected)
        ≡ (if any_overlap floats ranges time end then [] else write cut e)
          ++ loop
              (suc (suc n))
              rest
              (state_at ranges end (any_overlap floats ranges time end) injected)
  unfolding check_and_advance parse_extinf_duration extinf_line
  loop-entry n [] time cut injected info url rest h =
      loop-pair n info url rest (state_at [] time cut injected) h
  loop-entry n (r ∷ ranges) time cut injected info url rest h =
      let e : Entry = record { info = info; url = url; number = suc n } in
      loop-pair n info url rest (state_at (r ∷ ranges) time cut injected) h
      ∙ elim (Bool-cases (any_overlap floats (r ∷ ranges) time (add time (seconds e)))) [
        | inl over ↦ rw over refl
        | inr clear ↦ rw clear refl
      ]
