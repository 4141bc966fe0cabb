-- ===== src/Drm/Stream/Boxes.antt =====
-- A box that is cut between two chunks.
use mediaflow_proxy_light.Base.{
  ℕ, ◌+◌, ◌≤◌, ◌<◌, ◌≡◌, refl, sym, ap, ◌∙◌, min, false, List, [], ◌++◌, none, some, ltb,
  if◌then◌else◌, length, length-append, length-drop, Bytes, Bool-cases, inl, inr, Outcome, done,
  panic, stuck, ◌>>=◌, arith, le→ltb,
}
use mediaflow_proxy_light.Mp4.{new_atom}
use mediaflow_proxy_light.Drm.Cipher.{Ciphers}
use mediaflow_proxy_light.Drm.Decrypter.{Mp4Decrypter}
use mediaflow_proxy_light.Drm.Stream.{
  Stream, accumulate, finish_box, close_box, fill_box, box_round, box_loop, feed,
}
use mediaflow_proxy_light.Drm.Stream.Fuel.{IsBetween, fill_box_agree, box_loop-fuel}
use mediaflow_proxy_light.Drm.Stream.Joined.{
  joined-append, joined, flat, before, before_nothing, before_twice, prefixed, flat-prefixed, plus,
  accumulate_full, accumulate_twice,
}

module _ (c : Ciphers) (b : Bytes) where
  -- What goes out for `b` after what has gone out already.
  abbrev pub then_feed : Outcome (List Bytes × Stream) → Outcome (Bytes × Stream)
  then_feed (done (out, s)) = before (joined out) (flat (feed c s b))
  then_feed panic = panic
  then_feed stuck = stuck

  then_feed-prefixed :
      (p : List Bytes) (o : Outcome (List Bytes × Stream))
      → then_feed (prefixed p o) ≡ before (joined p) (then_feed o)
  then_feed-prefixed p (done (out, s)) =
      rw (joined-append p out) (sym (before_twice (joined p) (joined out) (flat (feed c s b))))
  then_feed-prefixed p panic = refl
  then_feed-prefixed p stuck = refl

  -- The loop on the longer buffer, and the loop on the shorter one before the rest arrives.
  abbrev pub Splits : (more more' : Stream → Outcome (List Bytes × Stream)) → ℕ → Type 0
  Splits more more' n =
      (x : Stream)
      → IsBetween x
      → x.passing ≡ false
      → length x.buf < n
      → flat (more' (plus x b)) ≡ then_feed (more x)

  close_box-Splits :
      (more more' : Stream → Outcome (List Bytes × Stream)) (s : Stream) (tag n : ℕ)
      → Splits more more' n
      → s.passing ≡ false
      → length s.buf < n
      → flat (close_box c more' (plus s b) tag) ≡ then_feed (close_box c more s tag)
  unfolding close_box
  close_box-Splits more more' s tag n splits flows room =
      finished (finish_box c s.decrypter (new_atom tag s.cur_body))
    where
      next : Mp4Decrypter → Stream
      next d = record s { cur_type = none; cur_body = []; decrypter = d }

      finished :
          (o : Outcome (List Bytes × Mp4Decrypter))
          → flat (o >>= λ r. prefixed r.0 (more' (plus (next r.1) b)))
            ≡ then_feed (o >>= λ r. prefixed r.0 (more (next r.1)))
      finished (done r) =
          flat-prefixed r.0 (more' (plus (next r.1) b))
          ∙ ap (before (joined r.0)) (splits (next r.1) tt flows room)
          ∙ sym (then_feed-prefixed r.0 (more (next r.1)))
      finished panic = refl
      finished stuck = refl

  pub feed_open :
      (s : Stream) (tag : ℕ)
      → s.cur_type ≡ some tag
      → s.passing ≡ false
      → feed c s b ≡ fill_box c (box_loop c (length (s.buf ++ b))) (plus s b) tag
  unfolding feed box_loop box_round
  feed_open s tag opened flows = rw (flows, opened) refl

  fill_box-accumulate :
      (more : Stream → Outcome (List Bytes × Stream)) (x y : Stream) (tag : ℕ)
      → accumulate x ≡ accumulate y
      → fill_box c more x tag ≡ fill_box c more y tag
  unfolding fill_box
  fill_box-accumulate more x y tag e =
      ap
        (λ (z : Stream).
          if ltb 0 z.cur_body_remaining then done ([], z) else close_box c more z tag)
        e

  -- A box that is open.
  pub fill_box-Splits :
      (fuel fuel' : ℕ) (s : Stream) (tag : ℕ)
      → Splits (box_loop c fuel) (box_loop c fuel') fuel
      → s.cur_type ≡ some tag
      → s.passing ≡ false
      → length s.buf < fuel + s.cur_body_remaining
      → length s.buf + length b < fuel' + s.cur_body_remaining
      → flat (fill_box c (box_loop c fuel') (plus s b) tag)
        ≡ then_feed (fill_box c (box_loop c fuel) s tag)
  unfolding fill_box
  fill_box-Splits fuel fuel' s tag splits opened flows room room' =
      elim (Bool-cases (ltb 0 (accumulate s).cur_body_remaining)) [
        | inl waits ↦
            let short : length s.buf < s.cur_body_remaining = ground arith in
            let u = accumulate s in
            let size : length (u.buf ++ b) ≡ length b = omega (
              arith,
              length-append u.buf b,
              length-drop (min (length s.buf) s.cur_body_remaining) s.buf,
            ) in
            let more : flat (fill_box c (box_loop c fuel') (plus s b) tag) ≡ flat (feed c u b) =
              ap flat (
                fill_box_agree c (box_loop c fuel') (box_loop c (length (u.buf ++ b))) (plus s b)
                  tag (min fuel' (length b))
                  (λ x between l.
                    box_loop-fuel c fuel' (length (u.buf ++ b)) x between (omega arith)
                      (omega arith))
                  (omega (arith, length-append s.buf b))
                ∙ sym (
                    fill_box-accumulate (box_loop c (length (u.buf ++ b))) (plus u b) (plus s b) tag
                      (accumulate_twice s b (omega arith)))
                ∙ sym (feed_open u tag opened flows)) in
            rw waits (more ∙ sym (before_nothing (flat (feed c u b))))
        | inr full ↦
            let within : s.cur_body_remaining ≤ length s.buf = ground arith in
            let full' : ltb 0 (accumulate (plus s b)).cur_body_remaining ≡ false =
              le→ltb 0 _ (omega (arith, length-append s.buf b)) in
            rw (full, full')
              (ap (λ x. flat (close_box c (box_loop c fuel') x tag)) (accumulate_full s b within)
                ∙ close_box-Splits (box_loop c fuel) (box_loop c fuel') (accumulate s) tag fuel
                    splits flows
                    (omega (arith, length-drop (min (length s.buf) s.cur_body_remaining) s.buf)))
      ]
