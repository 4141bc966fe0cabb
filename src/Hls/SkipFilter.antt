-- ===== src/Hls/SkipFilter.antt =====
-- src/hls/skip_filter.rs, and its use on parsed segments in src/hls/manifest.rs. The `f64`s and
-- their operations are a parameter; of a `MediaSegment` of the crate m3u8_rs only the duration and
-- the discontinuity mark are read, the rest is kept.
pub mod Overlaps
use mediaflow_proxy_light.Base.{
  Bool, true, false, not, ◌&&◌, ◌||◌, List, [], ◌∷◌, ◌++◌, if◌then◌else◌, is_empty,
}

pub record Floats (F : Type 0) : Type 0 where
  pub zero : F
  pub add : F → F → F
  pub less : F → F → Bool

pub record SkipRange (F : Type 0) : Type 0 where
  pub start : F
  pub end : F

pub record SkipSegmentFilter (F : Type 0) : Type 0 where
  pub ranges : List (SkipRange F)
  pub current_time : F

pub record MediaSegment (F R : Type 0) : Type 0 where
  pub duration : F
  pub discontinuity : Bool
  pub rest : R

module _ {F : Type 0} (floats : Floats F) where
  open floats use {zero, add, less}

  abbrev pub any_overlap : List (SkipRange F) → F → F → Bool
  any_overlap [] segment_start segment_end = false
  any_overlap (r ∷ rs) segment_start segment_end =
      (less segment_start r.end && less r.start segment_end)
      || any_overlap rs segment_start segment_end

  abbrev pub new : List (SkipRange F) → SkipSegmentFilter F
  new ranges = record { ranges = ranges; current_time = zero }

  unfoldable pub check_and_advance : SkipSegmentFilter F → F → Bool × SkipSegmentFilter F
  check_and_advance f duration =
      let segment_end = add f.current_time duration in
      (any_overlap f.ranges f.current_time segment_end, record f { current_time = segment_end })

  abbrev pub is_active : SkipSegmentFilter F → Bool
  is_active f = not (is_empty f.ranges)

  module _ {R : Type 0} where
    abbrev pub mark : Bool → MediaSegment F R → MediaSegment F R
    mark true s = record s { discontinuity = true }
    mark false s = s

    -- The loop over the segments.
    unfoldable pub skip_loop :
        SkipSegmentFilter F → Bool → List (MediaSegment F R) → List (MediaSegment F R)
    unfolding check_and_advance
    skip_loop filter need_discontinuity [] = []
    skip_loop filter need_discontinuity (seg ∷ segs) =
        let (skipped, filter') = check_and_advance filter seg.duration in
        let dropped = skip_loop filter' true segs in
        let kept = mark need_discontinuity seg ∷ skip_loop filter' false segs in
        if skipped then dropped else kept

    unfoldable pub apply_skip_filter :
        List (SkipRange F) → List (MediaSegment F R) → List (MediaSegment F R)
    unfolding skip_loop
    apply_skip_filter ranges segments = skip_loop (new ranges) false segments
