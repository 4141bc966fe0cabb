-- ===== src/Drm/Stream/Joined.antt =====
-- The bytes that a stream gives out, and a stream whose buffer has more bytes.
pub use mediaflow_proxy_light.Base.{joined, joined-append}
use mediaflow_proxy_light.Base.{
  ℕ, zero, suc, ◌+◌, ◌-◌, ◌≤◌, ◌≡◌, refl, ap, ◌∙◌, min, List, [], ◌∷◌, ◌++◌, append_assoc, length,
  take, drop, length-append, take_all, Bytes, Outcome, done, panic, stuck, ◌>>=◌, arith,
}
use mediaflow_proxy_light.Drm.Stream.{Stream, accumulate}

module _ {ℓ} {A : Type ℓ} where
  pub drop_within : (n : ℕ) (xs ys : List A) → n ≤ length xs → drop n (xs ++ ys) ≡ drop n xs ++ ys
  drop_within zero xs ys h = refl
  drop_within (suc n) [] ys h = absurd (omega arith)
  drop_within (suc n) (x ∷ xs) ys h = drop_within n xs ys (omega arith)

  pub take_within : (n : ℕ) (xs ys : List A) → n ≤ length xs → take n (xs ++ ys) ≡ take n xs
  take_within zero xs ys h = refl
  take_within (suc n) [] ys h = absurd (omega arith)
  take_within (suc n) (x ∷ xs) ys h = ap (◌∷◌ x) (take_within n xs ys (omega arith))

  drop_beyond : (n m : ℕ) (xs ys : List A) → n ≡ length xs + m → drop n (xs ++ ys) ≡ drop m ys
  drop_beyond n m [] ys e = ap (λ k. drop k ys) (e ∙ omega arith)
  drop_beyond zero m (x ∷ xs) ys e = absurd (omega arith)
  drop_beyond (suc n) m (x ∷ xs) ys e = drop_beyond n m xs ys (omega arith)

  take_beyond : (n m : ℕ) (xs ys : List A) → n ≡ length xs + m → take n (xs ++ ys) ≡ xs ++ take m ys
  take_beyond n m [] ys e = ap (λ k. take k ys) (e ∙ omega arith)
  take_beyond zero m (x ∷ xs) ys e = absurd (omega arith)
  take_beyond (suc n) m (x ∷ xs) ys e = ap (◌∷◌ x) (take_beyond n m xs ys (omega arith))

drop_whole : (xs : Bytes) → drop (length xs) xs ≡ []
drop_whole [] = refl
drop_whole (x ∷ xs) = drop_whole xs

abbrev pub flat : Outcome (List Bytes × Stream) → Outcome (Bytes × Stream)
flat (done (out, s)) = done (joined out, s)
flat panic = panic
flat stuck = stuck

-- Bytes that have gone out before.
abbrev pub before : Bytes → Outcome (Bytes × Stream) → Outcome (Bytes × Stream)
before first (done (out, s)) = done (first ++ out, s)
before first panic = panic
before first stuck = stuck

pub before_nothing : (o : Outcome (Bytes × Stream)) → before [] o ≡ o
before_nothing (done (out, s)) = refl
before_nothing panic = refl
before_nothing stuck = refl

pub before_twice :
    (x y : Bytes) (o : Outcome (Bytes × Stream)) → before x (before y o) ≡ before (x ++ y) o
before_twice x y (done (out, s)) = rw (append_assoc x y out) refl
before_twice x y panic = refl
before_twice x y stuck = refl

abbrev pub prefixed : List Bytes → Outcome (List Bytes × Stream) → Outcome (List Bytes × Stream)
prefixed p o = o >>= λ q. done (p ++ q.0, q.1)

pub flat-prefixed :
    (p : List Bytes) (o : Outcome (List Bytes × Stream))
    → flat (prefixed p o) ≡ before (joined p) (flat o)
flat-prefixed p (done (out, s)) = rw (joined-append p out) refl
flat-prefixed p panic = refl
flat-prefixed p stuck = refl

abbrev pub plus : Stream → Bytes → Stream
plus s b = record s { buf = s.buf ++ b }

-- A box that is complete without the new bytes.
pub accumulate_full :
    (s : Stream) (b : Bytes)
    → s.cur_body_remaining ≤ length s.buf
    → accumulate (plus s b) ≡ plus (accumulate s) b
accumulate_full s b full =
    let r = s.cur_body_remaining in
    let e : min (length (s.buf ++ b)) r ≡ r = omega (arith, length-append s.buf b) in
    let e' : min (length s.buf) r ≡ r = omega arith in
    rw (e, e', drop_within r s.buf b full, take_within r s.buf b full) refl

-- A box that waits for more: accumulating twice is accumulating once.
pub accumulate_twice :
    (s : Stream) (b : Bytes)
    → length s.buf ≤ s.cur_body_remaining
    → accumulate (plus (accumulate s) b) ≡ accumulate (plus s b)
accumulate_twice s b short =
    let r = s.cur_body_remaining in
    let n = length s.buf in
    let e : min n r ≡ n = omega arith in
    let gone : drop n s.buf ≡ [] = drop_whole s.buf in
    let whole : take n s.buf ≡ s.buf = take_all n s.buf (omega arith) in
    let m = min (length b) (r - n) in
    let sum : min (length (s.buf ++ b)) r ≡ n + m = omega (arith, length-append s.buf b) in
    let left : r - n - m ≡ r - (n + m) = omega arith in
    rw
      (
        e,
        gone,
        whole,
        sum,
        drop_beyond (n + m) m s.buf b refl,
        take_beyond (n + m) m s.buf b refl,
        append_assoc s.cur_body s.buf (take m b),
        left,
      )
      refl
