-- ===== src/Drm/Sample/Total.antt =====
-- When decryption of a sample returns, for every scheme of src/drm/cenc.rs.
use mediaflow_proxy_light.Base.{
  ℕ, ◌≡◌, ◌↔◌, refl, true, List, [], ◌∷◌, Option, inl, inr, ◌⊎◌, length, Bytes, is_empty, Outcome,
  done, panic, if◌then◌else◌,
}
use mathlib.Core.Option.{get_or}
use mediaflow_proxy_light.Drm.Cipher.{Ciphers, KeepsLength}
use mediaflow_proxy_light.Drm.Sample.{
  SampleInfo, EncScheme, cenc, cens, cbc1, cbcs, iv_array, decrypt_runs,
  aes_cbc_decrypt_full_blocks, decrypt_cbcs_pattern, decrypt_sample_cbc1, decrypt_sample_cbcs,
  decrypt_sample,
}
use mediaflow_proxy_light.Drm.Sample.SubSamples.{
  Overruns, Fits-or_Overruns, decrypt_runs-panics, decrypt_runs-length,
}
use mediaflow_proxy_light.Drm.Sample.Keystream.{decrypt_sample_cenc_total}
use mediaflow_proxy_light.Drm.Sample.Pattern.{length-aes_cbc, decrypt_cbcs_pattern-Kept}

-- It panics exactly where the clear bytes of a sub-sample end behind the sample, and otherwise
-- returns as many bytes as the sample has.
abbrev pub Total : Bytes → List (ℕ × ℕ) → Outcome Bytes → Type 0
Total sample subs o =
    ((o ≡ panic) ↔ Overruns (length sample) 0 subs)
    × ((o ≡ panic) ⊎ ((out : Bytes) × (o ≡ done out) × (length out ≡ length sample)))

module _ (decrypt : ℕ → Bytes → Outcome Bytes) (tail f : ℕ → Bytes → Bytes)
    (pure : (n : ℕ) (d : Bytes) → decrypt n d ≡ done (f n d))
    (keeps : (n : ℕ) (d : Bytes) → length (f n d) ≡ length d)
    (keeps_tail : (n : ℕ) (d : Bytes) → length (tail n d) ≡ length d) (sample : Bytes) where
  runs-Total : (subs : List (ℕ × ℕ)) → Total sample subs (decrypt_runs decrypt tail sample subs)
  runs-Total subs = elim (Fits-or_Overruns (length sample) 0 subs) [
    | inr over ↦
        let stops = decrypt_runs-panics f tail decrypt sample pure subs over in
        ((λ _. over, λ _. stops), inl stops)
    | inl fits ↦
        let (out, returns, same) =
          decrypt_runs-length f tail decrypt sample pure keeps keeps_tail subs fits in
        (
          (λ e. cc (e, returns), λ over. decrypt_runs-panics f tail decrypt sample pure subs over),
          inr (out, returns, same),
        )
  ]

  -- The samples without sub-samples are one run.
  whole_or_runs-Total :
      (subs : List (ℕ × ℕ))
      → Total sample subs
          (if is_empty subs then decrypt 0 sample else decrypt_runs decrypt tail sample subs)
  whole_or_runs-Total [] = (
    (λ e. cc (e, pure 0 sample), λ over. elim over [ ]),
    inr (f 0 sample, pure 0 sample, keeps 0 sample),
  )
  whole_or_runs-Total (x ∷ rest) = runs-Total (x ∷ rest)

-- Decryption of an encrypted sample, in any scheme, with any key and any pattern, panics exactly
-- where the clear bytes of a sub-sample end behind the sample; otherwise it returns as many bytes
-- as the sample has.
pub decrypt_sample-Total :
    (c : Ciphers)
    → KeepsLength c
    → (sample : Bytes) (info : SampleInfo) (key : Bytes) (scheme : EncScheme) (crypt skip : ℕ)
      (constant_iv : Option Bytes)
    → info.is_encrypted ≡ true
    → Total sample info.sub_samples (decrypt_sample c sample info key scheme crypt skip constant_iv)
unfolding decrypt_sample decrypt_sample_cbc1 decrypt_sample_cbcs
decrypt_sample-Total c k sample info key cenc crypt skip constant_iv on =
    rw on (decrypt_sample_cenc_total c k sample info key)
decrypt_sample-Total c k sample info key cens crypt skip constant_iv on =
    rw on (decrypt_sample_cenc_total c k sample info key)
decrypt_sample-Total c k sample info key cbc1 crypt skip constant_iv on =
    let iv = iv_array info.iv in
    rw on (
      whole_or_runs-Total (λ _ d. done (aes_cbc_decrypt_full_blocks c key iv d)) (λ _ d. d)
        (λ _ d. aes_cbc_decrypt_full_blocks c key iv d) (λ _ d. refl)
        (λ _ d. length-aes_cbc c k key iv d) (λ _ d. refl) sample info.sub_samples)
decrypt_sample-Total c k sample info key cbcs crypt skip constant_iv on =
    let iv = iv_array (get_or constant_iv info.iv) in
    let kept = λ (d : Bytes). decrypt_cbcs_pattern-Kept c k d key iv crypt skip in
    rw on (
      whole_or_runs-Total (λ _ d. decrypt_cbcs_pattern c d key iv crypt skip) (λ _ d. d)
        (λ _ d. (kept d).0) (λ _ d. (kept d).1) (λ _ d. (kept d).2.same_length) (λ _ d. refl) sample
        info.sub_samples)
