-- ===== src/Drm/Sample/Keystream.antt =====
-- `decrypt_sample_cenc` against one keystream over all the encrypted bytes of the sample.
use mediaflow_proxy_light.Base.{
  ℕ, zero, suc, ◌+◌, ◌/◌, ◌%◌, ◌^◌, ◌≤◌, ◌<◌, ◌≡◌, ◌↔◌, refl, sym, ap, ◌∙◌, min, List, [], ◌∷◌,
  ◌++◌, append-nil, append_assoc, ◌⊎◌, inl, inr, if◌then◌else◌, is_empty, List-cases, length, take,
  drop, length-append, length-take, length-drop, take_prefix_of, drop_prefix_of, take_all, Bytes,
  to_be_bytes, length-to_be_bytes, from_to_be_8, Outcome, done, panic, arith, le→ltb, lt→ltb,
}
use native.Mathlib.Decide.{dec_lt}
use mediaflow_proxy_light.Drm.Cipher.{Ciphers, KeepsLength, CounterMode}
use mediaflow_proxy_light.Drm.Sample.{
  SampleInfo, iv_array, iv_with_offset, decrypt_runs, aes_ctr_decrypt, aes_ctr_decrypt_with_offset,
  decrypt_sample_cenc,
}
use mediaflow_proxy_light.Drm.Sample.SubSamples.{
  Overruns, Fits, Fits-or_Overruns, span, blocks, runs, decrypt_runs-panics, decrypt_runs-returns,
  decrypt_runs-length, le-span,
}

module _ (c : Ciphers) where
  length-aes_ctr :
      KeepsLength c
      → (key iv d : Bytes) (n : ℕ) → length (aes_ctr_decrypt_with_offset c key iv d n) ≡ length d
  unfolding aes_ctr_decrypt_with_offset iv_with_offset
  length-aes_ctr k key iv d n =
      ground (arith, k.ctr128 key (iv_with_offset iv n) d, k.ctr256 key (iv_with_offset iv n) d)

  abbrev ctr_at : Bytes → Bytes → ℕ → Bytes → Bytes
  ctr_at key from n d = aes_ctr_decrypt_with_offset c key (iv_array from) d n

  module _ (sample : Bytes) (info : SampleInfo) (key : Bytes) where
    cenc-panics :
        Overruns (length sample) 0 info.sub_samples → decrypt_sample_cenc c sample info key ≡ panic
    unfolding decrypt_sample_cenc
    cenc-panics h = elim (List-cases info.sub_samples) [
      | inl e ↦ absurd (rw e at h)
      | inr (x, r, e) ↦ rw e (
          decrypt_runs-panics (ctr_at key info.iv) (ctr_at key info.iv) _ sample (λ n d. refl)
            (x ∷ r) (rw e at h))
    ]

    -- Decryption in counter mode returns as many bytes as the sample has, if no sub-sample overruns.
    cenc-returns :
        KeepsLength c
        → Fits (length sample) 0 info.sub_samples
        → (out : Bytes) × (decrypt_sample_cenc c sample info key ≡ done out)
          × (length out ≡ length sample)
    unfolding decrypt_sample_cenc aes_ctr_decrypt
    cenc-returns k h = elim (List-cases info.sub_samples) [
      | inl e ↦ rw e (
        aes_ctr_decrypt c key (iv_array info.iv) sample,
        refl,
        length-aes_ctr k key (iv_array info.iv) sample 0,
      )
      | inr (x, r, e) ↦ rw e (
          decrypt_runs-length (ctr_at key info.iv) (ctr_at key info.iv)
            (λ n d. done (ctr_at key info.iv n d)) sample (λ n d. refl)
            (λ n d. length-aes_ctr k key (iv_array info.iv) d n)
            (λ n d. length-aes_ctr k key (iv_array info.iv) d n) (x ∷ r) (rw e at h))
    ]

  -- Decryption of a sample in counter mode panics exactly where the clear bytes of a sub-sample end
  -- behind the sample; otherwise it returns as many bytes as the sample has.
  pub decrypt_sample_cenc_total :
      KeepsLength c
      → (sample : Bytes) (info : SampleInfo) (key : Bytes)
      → ((decrypt_sample_cenc c sample info key ≡ panic)
          ↔ Overruns (length sample) 0 info.sub_samples)
        × ((decrypt_sample_cenc c sample info key ≡ panic)
            ⊎ ((out : Bytes) × (decrypt_sample_cenc c sample info key ≡ done out)
                × (length out ≡ length sample)))
  decrypt_sample_cenc_total k sample info key =
      elim (Fits-or_Overruns (length sample) 0 info.sub_samples) [
        | inr over ↦
            let stops = cenc-panics sample info key over in ((λ _. over, λ _. stops), inl stops)
        | inl fits ↦
            let (out, returns, same) = cenc-returns sample info key k fits in
            (
              (λ e. cc (e, returns), λ over. cenc-panics sample info key over),
              inr (out, returns, same),
            )
      ]

abbrev cenc_body : Ciphers → Bytes → Bytes → Bytes → List (ℕ × ℕ) → Outcome Bytes
cenc_body c sample key iv subs =
    let decrypt = λ (offset : ℕ) (d : Bytes). aes_ctr_decrypt_with_offset c key iv d offset in
    if is_empty subs
    then done (aes_ctr_decrypt_with_offset c key iv sample 0)
    else decrypt_runs (λ offset d. done (decrypt offset d)) decrypt sample subs

cenc-body :
    (c : Ciphers) (sample : Bytes) (info : SampleInfo) (key : Bytes)
    → decrypt_sample_cenc c sample info key
      ≡ cenc_body c sample key (iv_array info.iv) info.sub_samples
unfolding decrypt_sample_cenc aes_ctr_decrypt
cenc-body c sample info key = refl

-- The encrypted bytes of the sample, one after another: those of the sub-samples from `pos` on, and
-- all that stands behind the last one.
unfoldable pub protected_bytes : Bytes → List (ℕ × ℕ) → ℕ → Bytes
protected_bytes sample [] pos = drop pos sample
protected_bytes sample ((clear, enc) ∷ rest) pos =
    take enc (drop (pos + clear) sample) ++ protected_bytes sample rest (pos + clear + enc)

-- The sample with other bytes in the place of the encrypted ones.
unfoldable pub weave : Bytes → List (ℕ × ℕ) → ℕ → Bytes → Bytes
weave sample [] pos plain = plain
weave sample ((clear, enc) ∷ rest) pos plain =
    take clear (drop pos sample)
    ++ (take enc plain ++ weave sample rest (pos + clear + enc) (drop enc plain))

-- Every encrypted run is a whole number of blocks.
abbrev pub Aligned : List (ℕ × ℕ) → Type 0
Aligned [] = Unit
Aligned ((clear, enc) ∷ rest) = (enc % 16 ≡ 0) × Aligned rest

module _ (c : Ciphers) (key upper : Bytes) (counter : ℕ) (k : KeepsLength c)
    (wide : length key ≡ 16) (half : length upper ≡ 8) (mode : CounterMode (c.aes128_ctr key)) where
  -- The keystream from block `n` on.
  abbrev pub keystream : ℕ → Bytes → Bytes
  keystream n = c.aes128_ctr key (upper ++ to_be_bytes 8 (counter + n))

  unfoldable pub vector : Bytes
  vector = upper ++ to_be_bytes 8 counter

  length-vector : length vector ≡ 16
  unfolding vector
  length-vector =
      omega (arith, length-append upper (to_be_bytes 8 counter), length-to_be_bytes 8 counter)

  iv_array-vector : iv_array vector ≡ vector
  unfolding iv_array
  iv_array-vector =
      let e : min (length vector) 16 ≡ 16 = omega (arith, length-vector) in
      rw e (append-nil (take 16 vector) ∙ take_all 16 vector (omega (arith, length-vector)))

  iv_with_offset-vector :
      (n : ℕ)
      → counter + n < 2 ^ 64
      → iv_with_offset vector n ≡ upper ++ to_be_bytes 8 (counter + n)
  unfolding iv_with_offset vector
  iv_with_offset-vector n h = elim (dec_lt 0 n) [
    | yes moved ↦
        rw
          (
            lt→ltb 0 n moved,
            take_prefix_of 8 upper (to_be_bytes 8 counter) half,
            drop_prefix_of 8 upper (to_be_bytes 8 counter) half,
            from_to_be_8 counter,
          )
          (ap (λ m. upper ++ to_be_bytes 8 m) (omega arith))
    | no still ↦ rw (le→ltb 0 n (omega arith)) (ap (λ m. upper ++ to_be_bytes 8 m) (omega arith))
  ]

  ctr_at-keystream :
      (n : ℕ) (d : Bytes)
      → counter + n < 2 ^ 64
      → aes_ctr_decrypt_with_offset c key vector d n ≡ keystream n d
  unfolding aes_ctr_decrypt_with_offset
  ctr_at-keystream n d h = rw (wide, iv_with_offset-vector n h)

  le-blocks : (subs : List (ℕ × ℕ)) (n : ℕ) → n ≤ blocks n subs
  le-blocks [] n = omega arith
  le-blocks ((clear, enc) ∷ rest) n = omega (arith, le-blocks rest (n + (enc + 15) / 16))

  -- The encrypted bytes of one run, then those behind it.
  keystream_split :
      (n enc : ℕ) (front rest : Bytes)
      → enc % 16 ≡ 0
      → length front ≡ enc
      → counter + (n + (enc + 15) / 16) < 2 ^ 64
      → keystream n (front ++ rest) ≡ keystream n front ++ keystream (n + (enc + 15) / 16) rest
  keystream_split n enc front rest aligned e h =
      mode upper front rest (counter + n) ((enc + 15) / 16) half (omega arith) (omega arith)
      ∙ ap (λ m. keystream n front ++ c.aes128_ctr key (upper ++ to_be_bytes 8 m) rest)
          (omega arith)

  module _ (sample : Bytes) where
    runs-weave :
        (subs : List (ℕ × ℕ)) (pos n : ℕ)
        → Aligned subs
        → span pos subs ≤ length sample
        → counter + blocks n subs < 2 ^ 64
        → runs (λ m d. aes_ctr_decrypt_with_offset c key vector d m) sample subs pos n
            ++ keystream (blocks n subs) (drop (span pos subs) sample)
          ≡ weave sample subs pos (keystream n (protected_bytes sample subs pos))
    unfolding weave protected_bytes
    runs-weave [] pos n aligned h near = refl
    runs-weave ((clear, enc) ∷ rest) pos n (whole, aligned) h near =
        let m = n + (enc + 15) / 16 in
        let after = pos + clear + enc in
        let front = take enc (drop (pos + clear) sample) in
        let behind = protected_bytes sample rest after in
        let length-front : length front ≡ enc = omega (
          arith,
          le-span rest after,
          length-take enc (drop (pos + clear) sample),
          length-drop (pos + clear) sample,
        ) in
        let length-plain : length (keystream n front) ≡ enc =
          k.ctr128 key (upper ++ to_be_bytes 8 (counter + n)) front ∙ length-front in
        rw
          (
            keystream_split n enc front behind whole length-front (omega (arith, le-blocks rest m)),
            take_prefix_of enc (keystream n front) (keystream m behind) length-plain,
            drop_prefix_of enc (keystream n front) (keystream m behind) length-plain,
            ← runs-weave rest after m aligned h near,
            ctr_at-keystream n front (omega (arith, le-blocks rest m)),
          )
          (simp append_assoc)

    span-Fits :
        (subs : List (ℕ × ℕ)) (pos : ℕ)
        → span pos subs ≤ length sample
        → Fits (length sample) pos subs
    span-Fits [] pos h = omega arith
    span-Fits ((clear, enc) ∷ rest) pos h =
        (omega (arith, le-span rest (pos + clear + enc)), span-Fits rest (pos + clear + enc) h)

    keystream-nil : (n : ℕ) (d : Bytes) → d ≡ [] → keystream n d ≡ []
    keystream-nil n d e = elim (List-cases (keystream n d)) [
      | inl none ↦ none
      | inr (x, r, f) ↦ absurd (
          omega (
            arith,
            ap length f,
            ap length e,
            k.ctr128 key (upper ++ to_be_bytes 8 (counter + n)) d,
          ))
    ]

    drop_end : (n : ℕ) (d : Bytes) → length d ≤ n → drop n d ≡ []
    drop_end zero [] h = refl
    drop_end zero (x ∷ d) h = absurd (omega arith)
    drop_end (suc n) [] h = refl
    drop_end (suc n) (x ∷ d) h = drop_end n d (omega arith)

    runs_returns :
        (subs : List (ℕ × ℕ))
        → Aligned subs
        → span 0 subs ≤ length sample
        → counter + blocks 0 subs < 2 ^ 64
        → decrypt_runs
            (λ n d. done (aes_ctr_decrypt_with_offset c key vector d n))
            (λ n d. aes_ctr_decrypt_with_offset c key vector d n)
            sample
            subs
          ≡ done (weave sample subs 0 (keystream 0 (protected_bytes sample subs 0)))
    runs_returns subs aligned h near =
        let f = λ (n : ℕ) (d : Bytes). aes_ctr_decrypt_with_offset c key vector d n in
        elim (decrypt_runs-returns f f (λ n d. done (f n d)) sample (λ n d. refl) subs
          (span-Fits subs 0 h)) [
            | inl more ↦
                more
                ∙ rw (ctr_at-keystream (blocks 0 subs) (drop (span 0 subs) sample) near)
                    (ap done (runs-weave subs 0 0 aligned h near))
            | inr (over, exact) ↦
                exact
                ∙ ap done (
                    sym (append-nil (runs f sample subs 0 0))
                    ∙ ap (λ t. runs f sample subs 0 0 ++ t)
                        (sym (keystream-nil (blocks 0 subs) _ (drop_end (span 0 subs) sample over)))
                    ∙ runs-weave subs 0 0 aligned h near)
          ]

    body-weave :
        (subs : List (ℕ × ℕ))
        → Aligned subs
        → span 0 subs ≤ length sample
        → counter + blocks 0 subs < 2 ^ 64
        → cenc_body c sample key vector subs
          ≡ done (weave sample subs 0 (keystream 0 (protected_bytes sample subs 0)))
    body-weave [] aligned h near =
        ap done (ctr_at-keystream 0 sample near) ∙ (unfold weave protected_bytes in refl)
    body-weave (x ∷ r) aligned h near = runs_returns (x ∷ r) aligned h near

    -- The sample's clear bytes stay, and its encrypted bytes are decrypted as one message in
    -- counter mode from the sample's vector on. This holds for a 128-bit key and a 16-byte vector,
    -- where every sub-sample's encrypted run is a whole number of blocks, the runs lie within the sample and the low 64
    -- bits of the counter do not wrap around.
    pub decrypt_sample_cenc-weave :
        (info : SampleInfo)
        → info.iv ≡ vector
        → Aligned info.sub_samples
        → span 0 info.sub_samples ≤ length sample
        → counter + blocks 0 info.sub_samples < 2 ^ 64
        → decrypt_sample_cenc c sample info key
          ≡ done (
              weave sample info.sub_samples 0
                (keystream 0 (protected_bytes sample info.sub_samples 0)))
    decrypt_sample_cenc-weave info iv aligned h near =
        cenc-body c sample info key
        ∙ ap (λ v. cenc_body c sample key v info.sub_samples) (ap iv_array iv ∙ iv_array-vector)
        ∙ body-weave info.sub_samples aligned h near
