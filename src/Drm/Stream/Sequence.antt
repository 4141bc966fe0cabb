-- ===== src/Drm/Stream/Sequence.antt =====
-- Lists of chunks with the same bytes, fed to the stream.
use mediaflow_proxy_light.Base.{
  ◌≡◌, refl, sym, ap, ◌∙◌, Bool, true, false, List, [], ◌∷◌, ◌++◌, append-nil, append_assoc, Option,
  none, some, if◌then◌else◌, is_empty, Bytes, Bool-cases, inl, inr, Outcome, done, panic, stuck,
  ◌>>=◌,
}
use mediaflow_proxy_light.Drm.Cipher.{Ciphers}
use mediaflow_proxy_light.Drm.Decrypter.{Mp4Decrypter, new_decrypter}
use mediaflow_proxy_light.Drm.Keys.{build_key_map_from_hex}
use mediaflow_proxy_light.Drm.Stream.{
  Stream, feed, feed_all, new_stream, prime, Yielded, ended, failed, drm_error,
  decrypt_segment_streaming,
}
use mediaflow_proxy_light.Drm.Stream.Fuel.{IsBetween}
use mediaflow_proxy_light.Drm.Stream.Joined.{
  joined, joined-append, flat, before, before_twice, prefixed, flat-prefixed,
}
use mediaflow_proxy_light.Drm.Stream.Boxes.{then_feed}
use mediaflow_proxy_light.Drm.Stream.Chunks.{feed_splits}

module _ (c : Ciphers) where
  -- What follows after bytes and a state.
  abbrev and_then :
      (Stream → Outcome (List Bytes × Stream)) → Outcome (Bytes × Stream) → Outcome (Bytes × Stream)
  and_then more (done (out, s)) = before out (flat (more s))
  and_then more panic = panic
  and_then more stuck = stuck

  feed_all_cons :
      (s : Stream) (x : Bytes) (rest : List Bytes)
      → flat (feed_all c s (x ∷ rest)) ≡ and_then (λ t. feed_all c t rest) (flat (feed c s x))
  unfolding feed_all
  feed_all_cons s x rest = of_feed (feed c s x)
    where
      of_feed :
          (o : Outcome (List Bytes × Stream))
          → flat (o >>= λ r. prefixed r.0 (feed_all c r.1 rest))
            ≡ and_then (λ t. feed_all c t rest) (flat o)
      of_feed (done (out, t)) = flat-prefixed out (feed_all c t rest)
      of_feed panic = refl
      of_feed stuck = refl

  -- Two chunks at the front may be one.
  feed_all_merged :
      (s : Stream) (x y : Bytes) (rest : List Bytes)
      → IsBetween s
      → flat (feed_all c s ((x ++ y) ∷ rest)) ≡ flat (feed_all c s (x ∷ y ∷ rest))
  feed_all_merged s x y rest between =
      feed_all_cons s (x ++ y) rest
      ∙ ap (and_then (λ t. feed_all c t rest)) (feed_splits c y s x between)
      ∙ of_feed (feed c s x)
      ∙ sym (feed_all_cons s x (y ∷ rest))
    where
      second :
          (out : List Bytes) (o : Outcome (Bytes × Stream))
          → and_then (λ t. feed_all c t rest) (before (joined out) o)
            ≡ before (joined out) (and_then (λ t. feed_all c t rest) o)
      second out (done (more, t)) = sym (before_twice (joined out) more (flat (feed_all c t rest)))
      second out panic = refl
      second out stuck = refl

      of_feed :
          (o : Outcome (List Bytes × Stream))
          → and_then (λ t. feed_all c t rest) (then_feed c y o)
            ≡ and_then (λ t. feed_all c t (y ∷ rest)) (flat o)
      of_feed (done (out, t)) =
          second out (flat (feed c t y)) ∙ ap (before (joined out)) (sym (feed_all_cons t y rest))
      of_feed panic = refl
      of_feed stuck = refl

  feed_all_as_one :
      (s : Stream) (x : Bytes) (rest : List Bytes)
      → IsBetween s
      → flat (feed_all c s (x ∷ rest)) ≡ flat (feed_all c s ((x ++ joined rest) ∷ []))
  feed_all_as_one s x [] between = ap (λ t. flat (feed_all c s (t ∷ []))) (sym (append-nil x))
  feed_all_as_one s x (y ∷ rest) between =
      sym (feed_all_merged s x y rest between)
      ∙ feed_all_as_one s (x ++ y) rest between
      ∙ ap (λ t. flat (feed_all c s (t ∷ []))) (append_assoc x y (joined rest))

  -- The bytes that the boxes give out, the state that it ends in and whether it panics do not depend on
  -- where its bytes are cut into chunks: two lists of chunks, one at least in each, with the same bytes
  -- give the same.
  pub feed_all_chunks :
      (d : Mp4Decrypter) (x y : Bytes) (xs ys : List Bytes)
      → joined (x ∷ xs) ≡ joined (y ∷ ys)
      → flat (feed_all c (new_stream c d) (x ∷ xs)) ≡ flat (feed_all c (new_stream c d) (y ∷ ys))
  feed_all_chunks d x y xs ys same =
      feed_all_as_one (new_stream c d) x xs tt
      ∙ ap (λ t. flat (feed_all c (new_stream c d) (t ∷ []))) same
      ∙ sym (feed_all_as_one (new_stream c d) y ys tt)

-- What the consumer has received: nothing but the error for a missing key, or bytes, and whether the
-- upstream's error came behind them.
abbrev pub received : Outcome Yielded → Outcome (Option (Bool × Bytes))
received (done (ended chunks)) = done (some (false, joined chunks))
received (done (failed chunks)) = done (some (true, joined chunks))
received (done drm_error) = done none
received panic = panic
received stuck = stuck

module _ (c : Ciphers) (hex_decode : Bytes → Option Bytes) where
  closing : Bool → List Bytes → Outcome (Bytes × Stream) → Outcome (Option (Bool × Bytes))
  closing fails first (done (out, s)) = done (some (fails, joined first ++ out))
  closing fails first panic = panic
  closing fails first stuck = stuck

  received-closing :
      (fails : Bool) (first : List Bytes) (o : Outcome (List Bytes × Stream))
      → received (o >>= λ q. done (if fails then failed (first ++ q.0) else ended (first ++ q.0)))
        ≡ closing fails first (flat o)
  unfolding closing
  received-closing true first (done (out, s)) =
      ap (λ t. done (some (true, t))) (joined-append first out)
  received-closing false first (done (out, s)) =
      ap (λ t. done (some (false, t))) (joined-append first out)
  received-closing fails first panic = refl
  received-closing fails first stuck = refl

  -- What the consumer of the decrypted stream receives does not depend on where the upstream cuts its
  -- bytes into chunks: two lists of chunks, one at least in each, with the same bytes give the
  -- same bytes, the same end or error, and the same panics.
  pub decrypt_segment_streaming_chunks :
      (init_bytes key_id key : Bytes) (include_init fails : Bool) (x y : Bytes) (xs ys : List Bytes)
      → joined (x ∷ xs) ≡ joined (y ∷ ys)
      → received
          (decrypt_segment_streaming c hex_decode init_bytes (x ∷ xs) fails key_id key include_init)
        ≡ received (
            decrypt_segment_streaming c hex_decode init_bytes
              (y ∷ ys)
              fails
              key_id
              key
              include_init)
  unfolding decrypt_segment_streaming
  decrypt_segment_streaming_chunks init_bytes key_id key include_init fails x y xs ys same =
      let key_map = build_key_map_from_hex hex_decode key_id key in
      elim (Bool-cases (is_empty key_map)) [
        | inl missing ↦ rw missing refl
        | inr present ↦
            rw present (primed (prime c init_bytes include_init (new_decrypter key_map)))
      ]
    where
      primed :
          (o : Outcome (List Bytes × Mp4Decrypter))
          → received (
              o >>= λ r. feed_all c (new_stream c r.1) (x ∷ xs) >>= λ q.
              done (if fails then failed (r.0 ++ q.0) else ended (r.0 ++ q.0)))
            ≡ received (
                o >>= λ r. feed_all c (new_stream c r.1) (y ∷ ys) >>= λ q.
                done (if fails then failed (r.0 ++ q.0) else ended (r.0 ++ q.0)))
      primed (done r) =
          received-closing fails r.0 (feed_all c (new_stream c r.1) (x ∷ xs))
          ∙ ap (closing fails r.0) (feed_all_chunks c r.1 x y xs ys same)
          ∙ sym (received-closing fails r.0 (feed_all c (new_stream c r.1) (y ∷ ys)))
      primed panic = refl
      primed stuck = refl
