-- ===== src/Drm/Mdat/Order.antt =====
-- The sort of the tracks by their data offsets.
use mediaflow_proxy_light.Base.{
  ℕ, suc, ◌≤◌, ◌<◌, ◌≡◌, ◌^◌, refl, sym, ap, ◌∙◌, List, [], ◌∷◌, ◌++◌, arith,
}
use mathlib.Core.Path.{subst}
use mediaflow_proxy_light.Drm.Decrypter.{TrackInfo}
use mediaflow_proxy_light.Drm.Mdat.{insert_track, sort_tracks}

-- The offsets grow from track to track, from a bound on, and are not negative as 32-bit numbers.
abbrev pub Ascending : ℕ → List TrackInfo → Type 0
Ascending low [] = Unit
Ascending low (t ∷ ts) =
    (low ≤ t.data_offset) × (t.data_offset < 2 ^ 31) × Ascending (suc t.data_offset) ts

-- The same tracks in another order: each one taken out of its place.
abbrev pub Shuffled : List TrackInfo → List TrackInfo → Type 0
Shuffled [] us = us ≡ []
Shuffled (t ∷ ts) us =
    (before after : List TrackInfo) × (us ≡ before ++ t ∷ after) × Shuffled ts (before ++ after)

Ascending-weaken :
    (low high : ℕ) (ts : List TrackInfo) → low ≤ high → Ascending high ts → Ascending low ts
Ascending-weaken low high [] h k = tt
Ascending-weaken low high (t ∷ ts) h (a, b, c) = (omega arith, b, c)

Ascending-without :
    (low : ℕ) (before : List TrackInfo) (t : TrackInfo) (after : List TrackInfo)
    → Ascending low (before ++ t ∷ after)
    → Ascending low (before ++ after)
Ascending-without low [] t after (a, b, c) =
    Ascending-weaken low (suc t.data_offset) after (omega arith) c
Ascending-without low (u ∷ before) t after (a, b, c) =
    (a, b, Ascending-without (suc u.data_offset) before t after c)

-- A track within an ascending list is not below the bound.
above :
    (low : ℕ) (before : List TrackInfo) (t : TrackInfo) (after : List TrackInfo)
    → Ascending low (before ++ t ∷ after)
    → (low ≤ t.data_offset) × (t.data_offset < 2 ^ 31)
above low [] t after (a, b, c) = (a, b)
above low (u ∷ before) t after (a, b, c) =
    let (more, small) = above (suc u.data_offset) before t after c in (omega arith, small)

insert_track-place :
    (low : ℕ) (before : List TrackInfo) (t : TrackInfo) (after : List TrackInfo)
    → Ascending low (before ++ t ∷ after)
    → insert_track t (before ++ after) ≡ before ++ t ∷ after
unfolding insert_track
insert_track-place low [] t [] h = refl
insert_track-place low [] t (u ∷ after) (a, b, (c, d, e)) = ground arith
insert_track-place low (u ∷ before) t after (a, b, c) =
    let (more, small) = above (suc u.data_offset) before t after c in
    let rest = insert_track-place (suc u.data_offset) before t after c in ground arith

-- Tracks in any order are sorted into the ascending one.
pub sort_tracks-Ascending :
    (ts us : List TrackInfo) → Shuffled ts us → Ascending 0 us → sort_tracks ts ≡ us
unfolding sort_tracks
sort_tracks-Ascending [] us h k = sym h
sort_tracks-Ascending (t ∷ ts) us (before, after, split, rest) k =
    let k' = subst (Ascending 0) split k in
    ap (insert_track t)
      (sort_tracks-Ascending ts (before ++ after) rest (Ascending-without 0 before t after k'))
    ∙ insert_track-place 0 before t after k'
    ∙ sym split
