-- ===== src/Drm/Stream/Fuel.antt =====
-- The fuel of the box loop: one round more than the buffer has bytes is always enough.
use mediaflow_proxy_light.Base.{
  ℕ, zero, suc, ◌+◌, ◌≤◌, ◌<◌, ◌≡◌, refl, ap, min, List, [], Option, none, some, ltb, length,
  length-drop, Bytes, be_at, Bool-cases, inl, inr, Outcome, done, panic, stuck, ◌>>=◌, arith,
}
use mediaflow_proxy_light.Mp4.{new_atom}
use mediaflow_proxy_light.Drm.Cipher.{Ciphers}
use mediaflow_proxy_light.Drm.Decrypter.{Mp4Decrypter}
use mediaflow_proxy_light.Drm.Stream.{
  Stream, Header, wait, endless, begin, read_header, open_box, accumulate, finish_box, close_box,
  fill_box, box_round, box_loop,
}

-- A box that is open still waits for a byte.
abbrev pub Waiting : Option ℕ → ℕ → Type 0
Waiting none remaining = Unit
Waiting (some tag) remaining = 0 < remaining

abbrev pub IsBetween : Stream → Type 0
IsBetween s = Waiting s.cur_type s.cur_body_remaining

-- The header that a buffer begins with lies within it.
pub read_header_bound :
    (buf : Bytes) (head body : ℕ)
    → read_header buf ≡ begin head body
    → (0 < head) × (head ≤ length buf)
unfolding read_header
read_header_bound buf head body h = ground (arith, h)

pub >>=-agree {ℓ κ} :
    {A : Type ℓ} {B : Type κ} (o : Outcome A) (f g : A → Outcome B)
    → ((a : A) → f a ≡ g a)
    → (o >>= f) ≡ (o >>= g)
>>=-agree (done a) f g h = h a
>>=-agree panic f g h = refl
>>=-agree stuck f g h = refl

pub >>=-left {ℓ κ} :
    {A : Type ℓ} {B : Type κ} (f : A → Outcome B) {o p : Outcome A} → o ≡ p → (o >>= f) ≡ (p >>= f)
>>=-left f e = ap (λ o. o >>= f) e

module _ (c : Ciphers) where
  close_box_agree :
      (more more' : Stream → Outcome (List Bytes × Stream)) (s : Stream) (tag : ℕ)
      → ((d : Mp4Decrypter)
          → more (record s { cur_type = none; cur_body = []; decrypter = d })
            ≡ more' (record s { cur_type = none; cur_body = []; decrypter = d }))
      → close_box c more s tag ≡ close_box c more' s tag
  unfolding close_box
  close_box_agree more more' s tag agree =
      >>=-agree (finish_box c s.decrypter (new_atom tag s.cur_body)) _ _
        (λ r. >>=-left _ (agree r.1))

  -- Two continuations that agree on every smaller buffer between boxes give the same.
  pub fill_box_agree :
      (more more' : Stream → Outcome (List Bytes × Stream)) (s : Stream) (tag n : ℕ)
      → ((x : Stream) → IsBetween x → length x.buf < n → more x ≡ more' x)
      → length s.buf < n + s.cur_body_remaining
      → fill_box c more s tag ≡ fill_box c more' s tag
  unfolding fill_box
  fill_box_agree more more' s tag n agree room =
      elim (Bool-cases (ltb 0 (accumulate s).cur_body_remaining)) [
        | inl waits ↦ rw waits refl
        | inr full ↦
            let full' : s.cur_body_remaining ≤ length s.buf = ground arith in
            rw full (
              close_box_agree more more' (accumulate s) tag (λ d. agree _ tt (
                omega (arith, length-drop (min (length s.buf) s.cur_body_remaining) s.buf, full'))))
      ]

  box_round_agree :
      (more more' : Stream → Outcome (List Bytes × Stream)) (n : ℕ) (o : Option ℕ) (s : Stream)
      → ((x : Stream) → IsBetween x → length x.buf < n → more x ≡ more' x)
      → Waiting o s.cur_body_remaining
      → length s.buf < suc n
      → box_round c more o s ≡ box_round c more' o s
  unfolding box_round
  box_round_agree more more' n (some tag) s agree waits room =
      fill_box_agree more more' s tag n agree (omega arith)
  box_round_agree more more' n none s agree waits room = by_header (read_header s.buf) refl
    where
      by_header :
          (h : Header) → read_header s.buf ≡ h → box_round c more none s ≡ box_round c more' none s
      by_header wait e = rw (e, box_round) refl
      by_header endless e = rw (e, box_round) refl
      by_header (begin head body) e =
          let (some_bytes, fits) = read_header_bound s.buf head body e in
          rw (e, box_round)
            (fill_box_agree more more' (open_box s head body) (be_at 4 s.buf 4) n agree
              (omega (arith, length-drop head s.buf)))

  -- Any two amounts of fuel above the number of buffered bytes give the same.
  pub box_loop-fuel :
      (fuel fuel' : ℕ) (s : Stream)
      → IsBetween s
      → length s.buf < fuel
      → length s.buf < fuel'
      → box_loop c fuel s ≡ box_loop c fuel' s
  unfolding box_loop
  box_loop-fuel zero fuel' s between room room' = absurd (omega arith)
  box_loop-fuel (suc fuel) zero s between room room' = absurd (omega arith)
  box_loop-fuel (suc fuel) (suc fuel') s between room room' =
      box_round_agree (box_loop c fuel) (box_loop c fuel') (min fuel fuel') s.cur_type s
        (λ x b l. box_loop-fuel fuel fuel' x b (omega arith) (omega arith)) between (omega arith)
