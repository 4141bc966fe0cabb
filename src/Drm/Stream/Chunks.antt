-- ===== src/Drm/Stream/Chunks.antt =====
-- The stream against the places where its chunks are cut.
use mediaflow_proxy_light.Base.{
  ℕ, zero, suc, ◌+◌, ◌≤◌, ◌<◌, ◌≡◌, refl, sym, ap, ◌∙◌, true, false, List, [], ◌∷◌, ◌++◌,
  append-nil, append_assoc, Option, none, some, ltb, ◌==◌, if◌then◌else◌, length, take, drop,
  length-append, length-drop, take-append-drop, is_empty, Bytes, be_at, Bool-cases, Option-cases,
  ◌⊎◌, inl, inr, Outcome, done, arith, le→ltb,
}
use mediaflow_proxy_light.Drm.Cipher.{Ciphers}
use mediaflow_proxy_light.Drm.Stream.{
  Stream, Header, wait, endless, begin, read_header, open_box, pass_through, fill_box, box_round,
  box_loop, feed,
}
use mediaflow_proxy_light.Drm.Stream.Fuel.{IsBetween, read_header_bound, box_loop-fuel}
use mediaflow_proxy_light.Drm.Stream.Joined.{
  drop_within, take_within, joined, flat, before, before_nothing, plus,
}
use mediaflow_proxy_light.Drm.Stream.Boxes.{Splits, then_feed, fill_box-Splits}

be_at_within : (n pos : ℕ) (d b : Bytes) → pos + n ≤ length d → be_at n (d ++ b) pos ≡ be_at n d pos
unfolding be_at
be_at_within n pos d b h =
    rw
      (
        drop_within pos d b (omega arith),
        take_within n (drop pos d) b (omega (arith, length-drop pos d)),
      )
      refl

-- A header that can be read stays as it is when more bytes arrive.
read_header_stays :
    (buf b : Bytes)
    → (read_header buf ≡ wait) ⊎ ((8 ≤ length buf) × (read_header (buf ++ b) ≡ read_header buf))
unfolding read_header
read_header_stays buf b = elim (Bool-cases (ltb (length buf) 8)) [
  | inl small ↦ inl (rw small refl)
  | inr large ↦
      let eight : 8 ≤ length buf = ground arith in
      let large' : ltb (length (buf ++ b)) 8 ≡ false =
        le→ltb _ _ (omega (arith, length-append buf b)) in
      let size : be_at 4 (buf ++ b) 0 ≡ be_at 4 buf 0 = be_at_within 4 0 buf b (omega arith) in
      elim (Bool-cases (be_at 4 buf 0 == 1)) [
        | inr narrow ↦ inr (eight, rw (large, large', size, narrow) refl)
        | inl wide ↦ elim (Bool-cases (ltb (length buf) 16)) [
          | inl short ↦ inl (rw (large, wide, short) refl)
          | inr long ↦
              let sixteen : 16 ≤ length buf = ground arith in
              let long' : ltb (length (buf ++ b)) 16 ≡ false =
                le→ltb _ _ (omega (arith, length-append buf b)) in
              inr (
                eight,
                rw (large, large', size, wide, long, long', be_at_within 8 8 buf b sixteen) refl,
              )
        ]
      ]
]

joined_rest :
    (first rest : Bytes)
    → joined (first ∷ (if is_empty rest then [] else rest ∷ [])) ≡ first ++ rest
joined_rest first [] = refl
joined_rest first (x ∷ rest) = ap (λ t. first ++ (x ∷ t)) (append-nil rest)

-- The arms of the round between boxes.
abbrev header_case :
    Ciphers
    → (Stream → Outcome (List Bytes × Stream))
    → Stream
    → Header
    → Outcome (List Bytes × Stream)
header_case c more s wait = done ([], s)
header_case c more s endless = done (pass_through s)
header_case c more s (begin head body) = fill_box c more (open_box s head body) (be_at 4 s.buf 4)

module _ (c : Ciphers) (fuel : ℕ) (s : Stream) where
  loop_typed :
      (o : Option ℕ) → s.cur_type ≡ o → box_loop c (suc fuel) s ≡ box_round c (box_loop c fuel) o s
  unfolding box_loop
  loop_typed o e = ap (λ o. box_round c (box_loop c fuel) o s) e

  loop_open :
      (tag : ℕ)
      → s.cur_type ≡ some tag
      → box_loop c (suc fuel) s ≡ fill_box c (box_loop c fuel) s tag
  unfolding box_round
  loop_open tag opened = loop_typed (some tag) opened

  loop_header :
      (h : Header)
      → s.cur_type ≡ none
      → read_header s.buf ≡ h
      → box_loop c (suc fuel) s ≡ header_case c (box_loop c fuel) s h
  unfolding box_round
  loop_header wait closed header = loop_typed none closed ∙ rw (header, box_round) refl
  loop_header endless closed header = loop_typed none closed ∙ rw (header, box_round) refl
  loop_header (begin head body) closed header = loop_typed none closed ∙ rw (header, box_round) refl

module _ (c : Ciphers) (b : Bytes) where
  feed_flows :
      (s : Stream)
      → s.passing ≡ false
      → feed c s b ≡ box_loop c (suc (length (s.buf ++ b))) (plus s b)
  unfolding feed
  feed_flows s flows = rw flows refl

  feed_passes : (s : Stream) → s.passing ≡ true → feed c s b ≡ done (b ∷ [], s)
  unfolding feed
  feed_passes s passes = rw passes refl

module _ (c : Ciphers) (b : Bytes) where
  pass_through_splits :
      (s : Stream) → flat (done (pass_through (plus s b))) ≡ then_feed c b (done (pass_through s))
  pass_through_splits s =
      let after = (pass_through s).1 in
      let all : joined (pass_through (plus s b)).0 ≡ joined (pass_through s).0 ++ (b ++ []) =
        joined_rest (take 8 (s.buf ++ b)) (drop 8 (s.buf ++ b))
        ∙ take-append-drop 8 (s.buf ++ b)
        ∙ ap (λ t. t ++ b)
            (sym (take-append-drop 8 s.buf) ∙ sym (joined_rest (take 8 s.buf) (drop 8 s.buf)))
        ∙ ap (λ t. joined (pass_through s).0 ++ t) (sym (append-nil b)) in
      ap (λ t. done (t, after)) all
      ∙ sym (ap (λ o. before (joined (pass_through s).0) (flat o)) (feed_passes c b after refl))

  -- One round, where the loop splits on every smaller buffer.
  module _ (fuel fuel' : ℕ) (splits : Splits c b (box_loop c fuel) (box_loop c fuel') fuel)
      (sum : fuel' ≡ fuel + length b) (s : Stream) (flows : s.passing ≡ false)
      (room : length s.buf < suc fuel) where
    open_splits :
        (tag : ℕ)
        → s.cur_type ≡ some tag
        → 0 < s.cur_body_remaining
        → flat (box_loop c (suc fuel') (plus s b)) ≡ then_feed c b (box_loop c (suc fuel) s)
    open_splits tag opened waits =
        ap flat (loop_open c fuel' (plus s b) tag opened)
        ∙ fill_box-Splits c b fuel fuel' s tag splits opened flows (omega arith) (omega arith)
        ∙ sym (ap (then_feed c b) (loop_open c fuel s tag opened))

    wait_splits :
        s.cur_type ≡ none
        → read_header s.buf ≡ wait
        → flat (box_loop c (suc fuel') (plus s b)) ≡ then_feed c b (box_loop c (suc fuel) s)
    wait_splits closed header =
        let between : IsBetween (plus s b) = rw closed tt in
        ap flat (
          box_loop-fuel c (suc fuel') (suc (length (s.buf ++ b))) (plus s b) between
            (omega (arith, length-append s.buf b)) (omega arith)
          ∙ sym (feed_flows c b s flows))
        ∙ sym (before_nothing (flat (feed c s b)))
        ∙ sym (ap (then_feed c b) (loop_header c fuel s wait closed header))

    header_splits :
        (h : Header)
        → s.cur_type ≡ none
        → read_header s.buf ≡ h
        → 8 ≤ length s.buf
        → read_header (s.buf ++ b) ≡ read_header s.buf
        → flat (box_loop c (suc fuel') (plus s b)) ≡ then_feed c b (box_loop c (suc fuel) s)
    header_splits wait closed header eight same = wait_splits closed header
    header_splits endless closed header eight same =
        ap flat (loop_header c fuel' (plus s b) endless closed (same ∙ header))
        ∙ pass_through_splits s
        ∙ sym (ap (then_feed c b) (loop_header c fuel s endless closed header))
    header_splits (begin head body) closed header eight same =
        let (some_bytes, within) = read_header_bound s.buf head body header in
        let tag = be_at 4 s.buf 4 in
        let more = box_loop c fuel' in
        let opened : fill_box c more (open_box (plus s b) head body) (be_at 4 (s.buf ++ b) 4)
            ≡ fill_box c more (plus (open_box s head body) b) tag =
          rw (be_at_within 4 4 s.buf b eight, drop_within head s.buf b within) refl in
        ap flat (loop_header c fuel' (plus s b) (begin head body) closed (same ∙ header) ∙ opened)
        ∙ fill_box-Splits c b fuel fuel' (open_box s head body) tag splits refl flows
            (omega (arith, length-drop head s.buf)) (omega (arith, length-drop head s.buf))
        ∙ sym (ap (then_feed c b) (loop_header c fuel s (begin head body) closed header))

    round_splits :
        IsBetween s
        → flat (box_loop c (suc fuel') (plus s b)) ≡ then_feed c b (box_loop c (suc fuel) s)
    round_splits between = elim (Option-cases s.cur_type) [
      | inr (tag, opened) ↦ open_splits tag opened (rw opened at between)
      | inl closed ↦ elim (read_header_stays s.buf b) [
        | inl header ↦ wait_splits closed header
        | inr (eight, same) ↦ header_splits (read_header s.buf) closed refl eight same
      ]
    ]

  box_loop-Splits :
      (fuel fuel' : ℕ)
      → fuel' ≡ fuel + length b
      → Splits c b (box_loop c fuel) (box_loop c fuel') fuel
  box_loop-Splits zero fuel' sum s between flows room = absurd (omega arith)
  box_loop-Splits (suc fuel) zero sum s between flows room = absurd (omega arith)
  box_loop-Splits (suc fuel) (suc fuel') sum s between flows room =
      round_splits fuel fuel' (box_loop-Splits fuel fuel' (omega arith)) (omega arith) s flows room
        between

  -- Feeding two chunks is feeding them as one.
  pub feed_splits :
      (s : Stream) (x : Bytes) → IsBetween s → flat (feed c s (x ++ b)) ≡ then_feed c b (feed c s x)
  feed_splits s x between = elim (Bool-cases s.passing) [
    | inl passes ↦
        ap flat (feed_passes c (x ++ b) s passes)
        ∙ ap (λ t. done (t, s))
            (append-nil (x ++ b)
              ∙ ap (λ t. t ++ b) (sym (append-nil x))
              ∙ ap (λ t. (x ++ []) ++ t) (sym (append-nil b)))
        ∙ sym (ap (λ o. before (x ++ []) (flat o)) (feed_passes c b s passes))
        ∙ sym (ap (then_feed c b) (feed_passes c x s passes))
    | inr flows ↦
        ap flat (
          feed_flows c (x ++ b) s flows
          ∙ ap (λ t. box_loop c (suc (length t)) (record s { buf = t }))
              (sym (append_assoc s.buf x b)))
        ∙ box_loop-Splits (suc (length (s.buf ++ x))) (suc (length ((s.buf ++ x) ++ b)))
            (omega (arith, length-append (s.buf ++ x) b)) (plus s x) between flows (omega arith)
        ∙ sym (ap (then_feed c b) (feed_flows c x s flows))
  ]
