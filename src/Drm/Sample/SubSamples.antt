-- ===== src/Drm/Sample/SubSamples.antt =====
-- When the loop over the sub-samples panics, and what it returns otherwise.
use mediaflow_proxy_light.Base.{
  ℕ, ◌+◌, ◌-◌, ◌/◌, ◌≤◌, ◌<◌, ◌≡◌, refl, ap, ◌∙◌, append-nil, append_assoc, min, List, [], ◌∷◌,
  ◌++◌, ◌⊎◌, inl, inr, length, take, drop, length-append, length-take, length-drop, Bytes, lt→ltb,
  le→ltb, slice_up_to, slice_out_of_range, Outcome, done, panic, ◌>>=◌, arith,
}
use native.Mathlib.Decide.{dec_lt}
use mediaflow_proxy_light.Drm.Sample.{sub_sample_loop, sub_sample_tail, decrypt_runs}

-- The clear bytes of some sub-sample end behind the sample, of which `len - pos` bytes are left.
abbrev pub Overruns : ℕ → ℕ → List (ℕ × ℕ) → Type 0
Overruns len pos [] = ⊥
Overruns len pos ((clear, enc) ∷ rest) = (len < pos + clear) ⊎ Overruns len (pos + clear + enc) rest

-- The clear bytes of every sub-sample lie within the sample.
abbrev pub Fits : ℕ → ℕ → List (ℕ × ℕ) → Type 0
Fits len pos [] = pos ≤ pos
Fits len pos ((clear, enc) ∷ rest) = (pos + clear ≤ len) × Fits len (pos + clear + enc) rest

pub Fits-or_Overruns :
    (len pos : ℕ) (subs : List (ℕ × ℕ)) → Fits len pos subs ⊎ Overruns len pos subs
Fits-or_Overruns len pos [] = inl (omega arith)
Fits-or_Overruns len pos ((clear, enc) ∷ rest) = elim (dec_lt len (pos + clear)) [
  | yes over ↦ inr (inl over)
  | no fit ↦ elim (Fits-or_Overruns len (pos + clear + enc) rest) [
    | inl h ↦ inl (omega arith, h)
    | inr h ↦ inr (inr h)
  ]
]

-- The number of blocks before the place behind the last sub-sample.
abbrev pub blocks : ℕ → List (ℕ × ℕ) → ℕ
blocks offset [] = offset
blocks offset ((clear, enc) ∷ rest) = blocks (offset + (enc + 15) / 16) rest

-- The output of the loop with no accumulator: each clear run as it is, each encrypted run by `f`.
abbrev pub runs : (ℕ → Bytes → Bytes) → Bytes → List (ℕ × ℕ) → ℕ → ℕ → Bytes
runs f sample [] pos offset = []
runs f sample ((clear, enc) ∷ rest) pos offset =
    take clear (drop pos sample)
    ++ (f offset (take enc (drop (pos + clear) sample))
        ++ runs f sample rest (pos + clear + enc) (offset + (enc + 15) / 16))

-- The position behind the last sub-sample.
abbrev pub span : ℕ → List (ℕ × ℕ) → ℕ
span pos [] = pos
span pos ((clear, enc) ∷ rest) = span (pos + clear + enc) rest

pub le-span : (subs : List (ℕ × ℕ)) (pos : ℕ) → pos ≤ span pos subs
le-span [] pos = omega arith
le-span ((clear, enc) ∷ rest) pos = omega (arith, le-span rest (pos + clear + enc))

module _ (decrypt : ℕ → Bytes → Outcome Bytes) (sample : Bytes) where
  -- One round, where the clear bytes fit.
  pub round_fits :
      (clear enc pos offset : ℕ) (rest : List (ℕ × ℕ)) (result : Bytes)
      → pos + clear ≤ length sample
      → sub_sample_loop decrypt sample ((clear, enc) ∷ rest) result pos offset ≡ (
          decrypt offset (take enc (drop (pos + clear) sample)) >>= λ decrypted.
          sub_sample_loop decrypt sample rest
            (result ++ (take clear (drop pos sample) ++ decrypted))
            (pos + clear + enc)
            (offset + (enc + 15) / 16))
  unfolding sub_sample_loop
  round_fits clear enc pos offset rest result h = rw (
    slice_up_to sample pos clear (omega arith),
    slice_up_to sample (pos + clear) enc (omega arith),
  )

  round_overruns :
      (clear enc pos offset : ℕ) (rest : List (ℕ × ℕ)) (result : Bytes)
      → length sample < pos + clear
      → sub_sample_loop decrypt sample ((clear, enc) ∷ rest) result pos offset ≡ panic
  unfolding sub_sample_loop
  round_overruns clear enc pos offset rest result h = elim (dec_lt (length sample) pos) [
    | yes far ↦
        rw (slice_out_of_range sample pos (min (pos + clear) (length sample)) (inl (omega arith)))
    | no near ↦ rw (
      slice_up_to sample pos clear (omega arith),
      slice_out_of_range sample (pos + clear) (min (pos + clear + enc) (length sample))
          (inl (omega arith)),
    )
  ]

  -- Where a run is decrypted without a panic, the loop panics exactly if a sub-sample overruns.
  module _ (f : ℕ → Bytes → Bytes) (total : (n : ℕ) (d : Bytes) → decrypt n d ≡ done (f n d)) where
    pub loop_panics :
        (subs : List (ℕ × ℕ)) (result : Bytes) (pos offset : ℕ)
        → Overruns (length sample) pos subs
        → sub_sample_loop decrypt sample subs result pos offset ≡ panic
    loop_panics [] result pos offset h = elim h [ ]
    loop_panics ((clear, enc) ∷ rest) result pos offset h =
        elim (dec_lt (length sample) (pos + clear)) [
          | yes over ↦ round_overruns clear enc pos offset rest result over
          | no fits ↦
              round_fits clear enc pos offset rest result (omega arith)
              ∙ rw (total offset (take enc (drop (pos + clear) sample)))
                  (loop_panics rest _ _ _ (later h fits))
        ]
      where
        later :
            (length sample < pos + clear) ⊎ Overruns (length sample) (pos + clear + enc) rest
            → ¬ (length sample < pos + clear)
            → Overruns (length sample) (pos + clear + enc) rest
        later (inl a) b = absurd (b a)
        later (inr a) b = a

    pub loop_returns :
        (subs : List (ℕ × ℕ)) (result : Bytes) (pos offset : ℕ)
        → Fits (length sample) pos subs
        → sub_sample_loop decrypt sample subs result pos offset
          ≡ done (result ++ runs f sample subs pos offset, span pos subs, blocks offset subs)
    unfolding sub_sample_loop
    loop_returns [] result pos offset h = rw append-nil
    loop_returns ((clear, enc) ∷ rest) result pos offset (fit, h) =
        let enc_data = take enc (drop (pos + clear) sample) in
        let clear_data = take clear (drop pos sample) in
        round_fits clear enc pos offset rest result fit
        ∙ rw (total offset enc_data) (
            loop_returns rest (result ++ (clear_data ++ f offset enc_data)) (pos + clear + enc)
              (offset + (enc + 15) / 16) h
            ∙ ap
                (λ (out : Bytes).
                  done (out, span (pos + clear + enc) rest, blocks (offset + (enc + 15) / 16) rest))
                (regroup result clear_data (f offset enc_data) _))
      where
        regroup : (a b c d : Bytes) → (a ++ (b ++ c)) ++ d ≡ a ++ (b ++ (c ++ d))
        regroup a b c d = simp append_assoc

-- With a length-keeping `f` the loop writes as many bytes as it passes, up to the sample's end.
pub length-runs :
    (f : ℕ → Bytes → Bytes) (sample : Bytes)
    → ((n : ℕ) (d : Bytes) → length (f n d) ≡ length d)
    → (subs : List (ℕ × ℕ)) (pos offset : ℕ) → Fits (length sample) pos subs
    → pos ≤ length sample
    → length (runs f sample subs pos offset) + pos ≡ min (span pos subs) (length sample)
length-runs f sample keeps [] pos offset h k = omega arith
length-runs f sample keeps ((clear, enc) ∷ rest) pos offset (fit, h) k =
    let enc_data = take enc (drop (pos + clear) sample) in
    let after = runs f sample rest (pos + clear + enc) (offset + (enc + 15) / 16) in
    elim (dec_lt (length sample) (pos + clear + enc)) [
      | no within ↦ omega (
        arith,
        length-runs f sample keeps rest (pos + clear + enc) (offset + (enc + 15) / 16) h
            (omega arith),
        sizes,
      )
      | yes beyond ↦ omega (arith, sizes, last rest h beyond, le-span rest (pos + clear + enc))
    ]
  where
    sizes :
        length (runs f sample ((clear, enc) ∷ rest) pos offset)
        ≡ clear
          + (min enc (length sample - (pos + clear))
              + length (runs f sample rest (pos + clear + enc) (offset + (enc + 15) / 16)))
    sizes = omega (
      arith,
      length-append (take clear (drop pos sample)) (
          f offset (take enc (drop (pos + clear) sample))
          ++ runs f sample rest (pos + clear + enc) (offset + (enc + 15) / 16)),
      length-append (f offset (take enc (drop (pos + clear) sample)))
          (runs f sample rest (pos + clear + enc) (offset + (enc + 15) / 16)),
      keeps offset (take enc (drop (pos + clear) sample)),
      length-take clear (drop pos sample),
      length-drop pos sample,
      length-take enc (drop (pos + clear) sample),
      length-drop (pos + clear) sample,
    )

    last :
        (l : List (ℕ × ℕ))
        → Fits (length sample) (pos + clear + enc) l
        → length sample < pos + clear + enc
        → length (runs f sample l (pos + clear + enc) (offset + (enc + 15) / 16)) ≡ 0
    last [] h b = refl
    last ((c, e) ∷ l) (h, _) b = absurd (omega arith)

module _ (f tail : ℕ → Bytes → Bytes) (decrypt : ℕ → Bytes → Outcome Bytes) (sample : Bytes)
    (total : (n : ℕ) (d : Bytes) → decrypt n d ≡ done (f n d)) where
  pub decrypt_runs-panics :
      (subs : List (ℕ × ℕ))
      → Overruns (length sample) 0 subs
      → decrypt_runs decrypt tail sample subs ≡ panic
  unfolding decrypt_runs
  decrypt_runs-panics subs h = rw (loop_panics decrypt sample f total subs [] 0 0 h)

  pub decrypt_runs-returns :
      (subs : List (ℕ × ℕ))
      → Fits (length sample) 0 subs
      → decrypt_runs decrypt tail sample subs
          ≡ done (runs f sample subs 0 0 ++ tail (blocks 0 subs) (drop (span 0 subs) sample))
        ⊎ (length sample ≤ span 0 subs)
          × (decrypt_runs decrypt tail sample subs ≡ done (runs f sample subs 0 0))
  unfolding decrypt_runs sub_sample_tail
  decrypt_runs-returns subs h = elim (dec_lt (span 0 subs) (length sample)) [
    | yes more ↦ inl (rw (loop_returns decrypt sample f total subs [] 0 0 h, lt→ltb _ _ more))
    | no all ↦ inr (
      omega arith,
      rw (
        loop_returns decrypt sample f total subs [] 0 0 h,
        le→ltb (span 0 subs) (length sample) (omega arith),
      ),
    )
  ]

  pub decrypt_runs-length :
      ((n : ℕ) (d : Bytes) → length (f n d) ≡ length d)
      → ((n : ℕ) (d : Bytes) → length (tail n d) ≡ length d)
      → (subs : List (ℕ × ℕ)) → Fits (length sample) 0 subs
      → (out : Bytes) × (decrypt_runs decrypt tail sample subs ≡ done out)
        × (length out ≡ length sample)
  decrypt_runs-length keeps keeps' subs h =
      let written = length-runs f sample keeps subs 0 0 h (omega arith) in
      elim (decrypt_runs-returns subs h) [
        | inl more ↦ (
          _,
          more,
          omega (
            arith,
            written,
            length-append (runs f sample subs 0 0)
                (tail (blocks 0 subs) (drop (span 0 subs) sample)),
            keeps' (blocks 0 subs) (drop (span 0 subs) sample),
            length-drop (span 0 subs) sample,
          ),
        )
        | inr (over, exact) ↦ (_, exact, omega (arith, written))
      ]
