-- ===== src/Hls/Prebuffer/Queue.antt =====
-- The queue of a prefetcher as a sequence.
use mathlib.Core.List.{Memᴰ}
use mathlib.Core.List.Memᴰ
use mediaflow_proxy_light.Base.{
  ℕ, zero, suc, ◌≡◌, refl, sym, ap, List, [], ◌∷◌, ◌++◌, none, some, ◌⊎◌, inl, inr, length, take,
  drop, length-take, take-append-drop, Bool-cases, ==_ne, Eq, arith, min,
}
use mediaflow_proxy_light.Hls.Prebuffer.{
  Prefetcher, pop_front_loop, pop_batch_with_headers, remove_first, promote,
}

pop_front_loop-take-drop :
    {U : Type 0} (n : ℕ) (queue : List U) → pop_front_loop n queue ≡ (take n queue, drop n queue)
unfolding pop_front_loop
pop_front_loop-take-drop zero queue = refl
pop_front_loop-take-drop (suc n) [] = refl
pop_front_loop-take-drop (suc n) (url ∷ queue) = rw (pop_front_loop-take-drop n queue)

-- A batch of at least one is the front of the queue, in order and as long as asked for if the queue has as many;
-- batch and remaining queue together are the old queue, and the headers are the playlist's.
pub pop_batch_lem :
    {U H : Type 0} (p : Prefetcher U H) (n : ℕ) (no_headers : H)
    → let ((batch, headers), q) = pop_batch_with_headers p (suc n) no_headers in
      (batch ++ q.queue ≡ p.queue)
      × (length batch ≡ min (suc n) (length p.queue))
      × (headers ≡ p.headers)
      × (q.headers ≡ p.headers)
unfolding pop_batch_with_headers
pop_batch_lem p n no_headers =
    rw (==_ne (suc n) 0 (λ e. omega arith), pop_front_loop-take-drop (suc n) p.queue)
      (take-append-drop (suc n) p.queue, length-take (suc n) p.queue, refl, refl)

module _ {U : Type 0} ⦃e : Eq U⦄ where
  -- The place of the first occurrence, with nothing equal before it, or none.
  remove_first-cases :
      (url : U) (queue : List U)
      → ((before after : List U) × (queue ≡ before ++ url ∷ after)
          × (Memᴰ url before → ⊥)
          × (remove_first url queue ≡ some (before ++ after)))
        ⊎ ((Memᴰ url queue → ⊥) × (remove_first url queue ≡ none))
  unfolding remove_first
  remove_first-cases url [] = inr (Memᴰ.not-nil, refl)
  remove_first-cases url (u ∷ queue) = elim (Bool-cases (e.beq u url)) [
    | inl same ↦
        let eq = (e.beq_iff u url).0 same in
        inl ([], queue, ap (λ v. v ∷ queue) eq, Memᴰ.not-nil, rw same refl)
    | inr other ↦
        let differs : (url ≡ u) → ⊥ = λ q. ground (arith, (e.beq_iff u url).1 (sym q)) in
        elim (remove_first-cases url queue) [
          | inl (before, after, split, first, found) ↦ inl (
            u ∷ before,
            after,
            ap (λ l. u ∷ l) split,
            (λ m. elim (Memᴰ.cases_cons m) [ inl q ↦ differs q | inr m' ↦ first m' ]),
            rw (other, found) refl,
          )
          | inr (absent, missing) ↦ inr (
            (λ m. elim (Memᴰ.cases_cons m) [ inl q ↦ differs q | inr m' ↦ absent m' ]),
            rw (other, missing) refl,
          )
        ]
  ]

  -- Promoting a queued URL moves its first occurrence to the front and keeps the others in their
  -- order; a URL that is not queued is put in front of the whole queue.
  pub promote_lem :
      (url : U) (queue : List U)
      → ((before after : List U) × (queue ≡ before ++ url ∷ after)
          × (Memᴰ url before → ⊥)
          × (promote url queue ≡ url ∷ (before ++ after)))
        ⊎ ((Memᴰ url queue → ⊥) × (promote url queue ≡ url ∷ queue))
  unfolding promote
  promote_lem url queue = elim (remove_first-cases url queue) [
    | inl (before, after, split, first, found) ↦
        inl (before, after, split, first, rw (found, promote) refl)
    | inr (absent, missing) ↦ inr (absent, rw (missing, promote) refl)
  ]
