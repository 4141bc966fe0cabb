-- ===== src/Config/Router/Order.antt =====
-- The first match in a list that is sorted by a key, the largest first.
use mediaflow_proxy_light.Base.{
  ℕ, ◌≤◌, ◌≡◌, refl, sym, ap, ◌∙◌, inl, inr, Bool, true, false, List, [], ◌∷◌, some, ltb,
  Bool-cases, arith,
}
use mathlib.Core.Path.{subst}
use mathlib.Core.List.{Memᴰ}
use mathlib.Core.List.Memᴰ
use mediaflow_proxy_light.Config.Router.{insert_sorted, sort_down, find_first}

module _ {ℓ} {A : Type ℓ} (key : A → ℕ) where
  abbrev pub Sorted : List A → Type ℓ
  Sorted [] = Unit
  Sorted (y ∷ ys) = ((a : A) → Memᴰ a ys → key a ≤ key y) × Sorted ys

  pub member-insert : (a x : A) (ys : List A) → Memᴰ a (x ∷ ys) → Memᴰ a (insert_sorted key x ys)
  member-insert a x [] h = h
  member-insert a x (y ∷ ys) h = elim (Bool-cases (ltb (key x) (key y))) [
    | inr other ↦ rw other h
    | inl less ↦ rw less (elim (Memᴰ.cases_cons h) [
      | inl e ↦ Memᴰ.tail (member-insert a x ys (Memᴰ.head e))
      | inr m ↦ elim (Memᴰ.cases_cons m) [
        | inl e ↦ Memᴰ.head e
        | inr m' ↦ Memᴰ.tail (member-insert a x ys (Memᴰ.tail m'))
      ]
    ])
  ]

  pub insert-member : (a x : A) (ys : List A) → Memᴰ a (insert_sorted key x ys) → Memᴰ a (x ∷ ys)
  insert-member a x [] h = h
  insert-member a x (y ∷ ys) h = elim (Bool-cases (ltb (key x) (key y))) [
    | inr other ↦ rw other at h
    | inl less ↦ elim (Memᴰ.cases_cons (rw less at h)) [
      | inl e ↦ Memᴰ.tail (Memᴰ.head e)
      | inr m ↦ elim (Memᴰ.cases_cons (insert-member a x ys m)) [
        | inl e ↦ Memᴰ.head e
        | inr m' ↦ Memᴰ.tail (Memᴰ.tail m')
      ]
    ]
  ]

  at_most : (a x y : A) → a ≡ x → key x ≤ key y → key a ≤ key y
  at_most a x y e h = subst (λ z. key z ≤ key y) (sym e) h

  pub insert-Sorted : (x : A) (ys : List A) → Sorted ys → Sorted (insert_sorted key x ys)
  insert-Sorted x [] s = (λ a m. absurd (Memᴰ.not-nil m), tt)
  insert-Sorted x (y ∷ ys) (below, s) = elim (Bool-cases (ltb (key x) (key y))) [
    | inl less ↦ rw less (
      λ a m. elim (Memᴰ.cases_cons (insert-member a x ys m)) [
        | inl e ↦ at_most a x y e (ground arith)
        | inr m' ↦ below a m'
      ],
      insert-Sorted x ys s,
    )
    | inr other ↦ rw other (
      λ a m. elim (Memᴰ.cases_cons m) [
        | inl e ↦ at_most a y x e (ground arith)
        | inr m' ↦ let low = below a m' in ground arith
      ],
      (below, s),
    )
  ]

  pub sort_down-Sorted : (xs : List A) → Sorted (sort_down key xs)
  sort_down-Sorted [] = tt
  sort_down-Sorted (x ∷ xs) = insert-Sorted x (sort_down key xs) (sort_down-Sorted xs)

  pub member-sort_down : (a : A) (xs : List A) → Memᴰ a xs → Memᴰ a (sort_down key xs)
  member-sort_down a [] h = h
  member-sort_down a (x ∷ xs) h = member-insert a x (sort_down key xs) (elim (Memᴰ.cases_cons h) [
    | inl e ↦ Memᴰ.head e
    | inr m ↦ Memᴰ.tail (member-sort_down a xs m)
  ])

  pub sort_down-member : (a : A) (xs : List A) → Memᴰ a (sort_down key xs) → Memᴰ a xs
  sort_down-member a [] h = h
  sort_down-member a (x ∷ xs) h = elim (Memᴰ.cases_cons (insert-member a x (sort_down key xs) h)) [
    | inl e ↦ Memᴰ.head e
    | inr m ↦ Memᴰ.tail (sort_down-member a xs m)
  ]

  -- An element that passes stands, by its key, not above the first one that passes.
  pub find_first-best :
      (p : A → Bool) (ys : List A) (x : A)
      → Sorted ys
      → Memᴰ x ys
      → p x ≡ true
      → (b : A) × (find_first p ys ≡ some b) × Memᴰ b ys × (p b ≡ true) × (key x ≤ key b)
  find_first-best p [] x s m h = absurd (Memᴰ.not-nil m)
  find_first-best p (y ∷ ys) x (below, s) m h = elim (Bool-cases (p y)) [
    | inl passes ↦ (
      y,
      rw passes refl,
      Memᴰ.head refl,
      passes,
      elim (Memᴰ.cases_cons m) [ inl e ↦ at_most x y y e (omega arith) | inr m' ↦ below x m' ],
    )
    | inr fails ↦ elim (Memᴰ.cases_cons m) [
      | inl e ↦ let clash : true ≡ false = sym h ∙ ap p e ∙ fails in ground arith
      | inr m' ↦
          let (b, found, member, passes, low) = find_first-best p ys x s m' h in
          (b, rw fails found, Memᴰ.tail member, passes, low)
    ]
  ]
