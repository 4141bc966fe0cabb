-- ===== src/Drm/Moof/Shift.antt =====
-- The data offset that `modify_trun` of src/drm/cenc.rs writes.
use mediaflow_proxy_light.Base.{
  ℕ, ◌+◌, ◌-◌, ◌%◌, ◌^◌, ◌≤◌, ◌≡◌, ◌∙◌, true, length, length-take, length-to_be_bytes, take, drop,
  Bytes, be_at, to_be_bytes, be_at_prefix, from_to_be_4, arith, le→ltb,
}
use mediaflow_proxy_light.Mp4.{Atom}
use mediaflow_proxy_light.Drm.Decrypter.{has_flag, put_be_32}
use mediaflow_proxy_light.Drm.Moof.{modify_trun}

be_at-put_be_32 :
    (d : Bytes) (pos v : ℕ) → pos + 4 ≤ length d → be_at 4 (put_be_32 d pos v) pos ≡ v % 2 ^ 32
be_at-put_be_32 d pos v fits =
    be_at_prefix (take pos d) (to_be_bytes 4 v) (drop (pos + 4) d) 4 pos
      (omega (arith, length-take pos d)) (length-to_be_bytes 4 v)
    ∙ from_to_be_4 v

-- A `trun` of twelve bytes at least with a data offset is written with the offset moved back by the overhead: the two add
-- up to the old offset, as 32-bit numbers.
pub modify_trun_offset :
    (overhead : ℕ) (trun : Atom)
    → 12 ≤ length trun.payload
    → has_flag (be_at 4 trun.payload 0 % 2 ^ 24) 0 ≡ true
    → (be_at 4 (modify_trun overhead trun).payload 8 + overhead) % 2 ^ 32
      ≡ be_at 4 trun.payload 8 % 2 ^ 32
unfolding modify_trun
modify_trun_offset overhead trun long present =
    let v = (be_at 4 trun.payload 8 + 2 ^ 32 - overhead % 2 ^ 32) % 2 ^ 32 in
    rw (le→ltb (length trun.payload) 12 long, present)
      (omega (arith, be_at-put_be_32 trun.payload 8 v long))
