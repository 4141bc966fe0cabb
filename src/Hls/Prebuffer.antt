-- ===== src/Hls/Prebuffer.antt =====
-- The queue of one playlist's prefetcher (src/hls/prebuffer.rs). A `HashMap` of headers, the URLs
-- and the instants are values of any type; the wake signal is a flag.
pub mod Queue
use mediaflow_proxy_light.Base.{
  ℕ, zero, suc, ◌-◌, Bool, true, false, List, [], ◌∷◌, leb, ◌==◌, if◌then◌else◌, Option, none, some,
  take, drop, Eq,
}

pub record Prefetcher (U H : Type 0) : Type 0 where
  pub queue : List U
  pub headers : H
  pub wake : Bool
  pub last_active : ℕ

module _ {U : Type 0} where
  -- `for _ in 0..max_items { pop_front }`: the batch, and the queue after it.
  unfoldable pub pop_front_loop : ℕ → List U → List U × List U
  pop_front_loop zero queue = ([], queue)
  pop_front_loop (suc n) [] = ([], [])
  pop_front_loop (suc n) (url ∷ queue) = let r = pop_front_loop n queue in (url ∷ r.0, r.1)

module _ {U H : Type 0} where
  -- `update`: the queue and the headers are replaced under one lock.
  unfoldable pub update : Prefetcher U H → List U → H → ℕ → Prefetcher U H
  update p urls headers now = record p {
    queue = urls;
    headers = headers;
    wake = true;
    last_active = now;
  }

  unfoldable pub is_idle : Prefetcher U H → ℕ → ℕ → Bool
  is_idle p now timeout_duration = leb timeout_duration (now - p.last_active)

  -- With no items wanted nothing is touched, and the headers are empty.
  unfoldable pub pop_batch_with_headers : Prefetcher U H → ℕ → H → (List U × H) × Prefetcher U H
  unfolding pop_front_loop
  pop_batch_with_headers p max_items no_headers =
      let r = pop_front_loop max_items p.queue in
      if max_items == 0 then (([], no_headers), p) else ((r.0, p.headers), record p { queue = r.1 })

module _ {U : Type 0} ⦃e : Eq U⦄ where
  -- `position` and `remove`: the queue without the first occurrence, if there is one.
  unfoldable pub remove_first : U → List U → Option (List U)
  remove_first url [] = none
  remove_first url (u ∷ queue) =
      let rest = remove_first url queue in
      if e.beq u url then some queue else elim rest [ none ↦ none | some q ↦ some (u ∷ q) ]

  unfoldable pub promote : U → List U → List U
  unfolding remove_first
  promote url queue = elim (remove_first url queue) [ some q ↦ url ∷ q | none ↦ url ∷ queue ]

module _ {U H : Type 0} ⦃e : Eq U⦄ where
  unfoldable pub prioritize : Prefetcher U H → U → ℕ → Prefetcher U H
  unfolding promote
  prioritize p url now = record p { queue = promote url p.queue; wake = true; last_active = now }
