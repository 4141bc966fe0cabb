-- ===== src/Hls/SkipFilter/Overlaps.antt =====
-- What a skip filter leaves, segment by segment: each is placed in time, and is judged by its own
-- place and by that of its predecessor.
use mediaflow_proxy_light.Base.{
  ◌≡◌, refl, ap, inl, inr, Bool, true, false, List, [], ◌∷◌, ◌++◌, if◌then◌else◌, Bool-cases,
}
use mediaflow_proxy_light.Hls.SkipFilter.{
  Floats, SkipRange, MediaSegment, any_overlap, mark, skip_loop, apply_skip_filter,
}

module _ {F : Type 0} (floats : Floats F) where
  open floats use {zero, add, less}

  -- A segment with its interval.
  pub record Placed (A : Type 0) : Type 0 where
    pub item : A
    pub from : F
    pub to : F

  module _ {A : Type 0} (duration : A → F) where
    -- Each starts where the one before ends.
    abbrev pub placed : F → List A → List (Placed A)
    placed time [] = []
    placed time (a ∷ as') =
        record { item = a; from = time; to = add time (duration a) }
        ∷ placed (add time (duration a)) as'

  module _ {A B : Type 0} (ranges : List (SkipRange F)) (write : Bool → A → List B) where
    abbrev pub overlaps : Placed A → Bool
    overlaps p = any_overlap floats ranges p.from p.to

    -- Nothing of a segment that overlaps a range; else what is written of it, with a mark if its
    -- predecessor overlaps one.
    abbrev pub part : Bool → Placed A → List B
    part after_cut p = if overlaps p then [] else write after_cut p.item

    abbrev pub parts_after : Bool → List (Placed A) → List B
    parts_after after_cut [] = []
    parts_after after_cut (p ∷ ps) = part after_cut p ++ parts_after (overlaps p) ps

    abbrev pub parts : List (Placed A) → List B
    parts = parts_after false

  module _ {R : Type 0} (ranges : List (SkipRange F)) where
    abbrev pub marked : Bool → MediaSegment F R → List (MediaSegment F R)
    marked after_cut s = mark floats after_cut s ∷ []

    skip_loop-parts :
        (time : F) (cut : Bool) (segments : List (MediaSegment F R))
        → skip_loop floats (record { ranges = ranges; current_time = time }) cut segments
          ≡ parts_after ranges marked cut (placed (λ s. s.duration) time segments)
    unfolding skip_loop
    skip_loop-parts time cut [] = refl
    skip_loop-parts time cut (s ∷ segments) =
        elim (Bool-cases (any_overlap floats ranges time (add time s.duration))) [
          | inl over ↦ rw over (skip_loop-parts (add time s.duration) true segments)
          | inr clear ↦
              rw clear (
                ap (◌∷◌ (mark floats cut s)) (skip_loop-parts (add time s.duration) false segments))
        ]

    -- The skip filter leaves exactly the segments that overlap no range, in their order and
    -- otherwise as they are, where each starts where the one before ends; it marks those of them
    -- whose predecessor overlaps a range.
    pub apply_skip_filter-parts :
        (segments : List (MediaSegment F R))
        → apply_skip_filter floats ranges segments
          ≡ parts ranges marked (placed (λ s. s.duration) zero segments)
    unfolding apply_skip_filter
    apply_skip_filter-parts segments = skip_loop-parts zero false segments
