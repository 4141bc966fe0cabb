-- ===== src/Drm/Moof/Strip.antt =====
-- What `process_traf` and `process_moof` write: the boxes that are left, and how much shorter they are.
use native.Mathlib.Decide.{ℕ_discrete}
use mediaflow_proxy_light.Base.{
  ℕ, ◌+◌, ◌^◌, ◌%◌, ◌≡◌, refl, Bool, true, false, ◌&&◌, ◌||◌, List, [], ◌∷◌, append-nil, inl, inr,
  ◌≢◌, ltb, leb, ◌==◌, if◌then◌else◌, length, Bytes, be_at, Bool-cases, done, arith,
}
use mediaflow_proxy_light.Mp4.{Atom, pack, pack_all}
use mediaflow_proxy_light.Drm.Tags
use mediaflow_proxy_light.Drm.Decrypter.{Mp4Decrypter, has_flag}
use mediaflow_proxy_light.Drm.Moof.{
  is_encryption_box, parse_tfhd, tfhd_offset, read_tfhd, process_trun, modify_trun, parse_senc,
  Traf, traf_child,
}

-- What is left of a box: nothing of an encryption box, a `trun` with its offset moved, or itself.
abbrev pub kept : ℕ → Atom → Atom
kept overhead a = if a.atom_type == Tags.trun then modify_trun overhead a else a

abbrev pub clean : ℕ → List Atom → List Atom
clean overhead [] = []
clean overhead (a ∷ rest) =
    let others = clean overhead rest in
    if is_encryption_box a then others else kept overhead a ∷ others

abbrev pub has_box : ℕ → List Atom → Bool
has_box tag [] = false
has_box tag (a ∷ rest) = a.atom_type == tag || has_box tag rest

abbrev tfhd_has_size : Bytes → Bool
tfhd_has_size d =
    let flags = be_at 4 d 0 % 2 ^ 24 in has_flag flags 4 && leb (tfhd_offset flags + 4) (length d)

parse_tfhd_returns :
    (a : Atom) (s : Mp4Decrypter)
    → (s' : Mp4Decrypter) × (parse_tfhd a s ≡ done (tt, s'))
      × (s'.total_encryption_overhead ≡ s.total_encryption_overhead)
unfolding parse_tfhd
parse_tfhd_returns a s = elim (Bool-cases (ltb (length a.payload) 8)) [
  | inl small ↦ rw (small, parse_tfhd) (s, refl, refl)
  | inr large ↦ elim (Bool-cases (tfhd_has_size a.payload)) [
    | inl sized ↦
        rw (large, sized, parse_tfhd)
          (
            record s {
              default_sample_size = be_at 4 a.payload (tfhd_offset (be_at 4 a.payload 0 % 2 ^ 24));
            },
            refl,
            refl,
          )
    | inr plain ↦ rw (large, plain, parse_tfhd) (s, refl, refl)
  ]
]

process_trun_returns :
    (a : Atom) (s : Mp4Decrypter)
    → (r : ℕ × ℕ) × (s' : Mp4Decrypter) × (process_trun a s ≡ done (r, s'))
      × (s'.total_encryption_overhead ≡ s.total_encryption_overhead)
unfolding process_trun
process_trun_returns a s = elim (Bool-cases (ltb (length a.payload) 8)) [
  | inl small ↦ rw (small, process_trun) ((0, 0), s, refl, refl)
  | inr large ↦ rw (large, process_trun) (_, _, refl, refl)
]

-- What one child comes to.
pub record Handled (a : Atom) (t : Traf) (s : Mp4Decrypter) : Type 0 where
  pub written : Bytes
  pub t' : Traf
  pub s' : Mp4Decrypter
  pub returns : traf_child a t s ≡ done ((written, t'), s')
  pub bytes : written ≡ pack_all (clean s.total_encryption_overhead (a ∷ []))
  pub overhead : s'.total_encryption_overhead ≡ s.total_encryption_overhead
  pub tfhd : t'.has_tfhd ≡ (a.atom_type == Tags.tfhd || t.has_tfhd)

module _ (a : Atom) (t : Traf) (s : Mp4Decrypter) where
  tfhd-Handled : a.atom_type ≡ Tags.tfhd → Handled a t s
  unfolding traf_child pack_all
  tfhd-Handled e =
      let (s', parsed, same) = parse_tfhd_returns a s in
      record {
        written = pack a;
        t' = read_tfhd a t s';
        s' = s';
        returns = ground (arith, parsed);
        bytes = ground (arith, append-nil (pack a));
        overhead = same;
        tfhd = ground arith;
      }

  trun-Handled : a.atom_type ≡ Tags.trun → Handled a t s
  unfolding traf_child pack_all
  trun-Handled e =
      let (r, s', parsed, same) = process_trun_returns a s in
      record {
        written = pack (modify_trun s'.total_encryption_overhead a);
        t' = record t { sample_count = r.0; trun_data_offset = r.1 };
        s' = s';
        returns = ground (arith, parsed);
        bytes = ground (arith, same, append-nil (pack (modify_trun s.total_encryption_overhead a)));
        overhead = same;
        tfhd = ground arith;
      }

  senc-Handled : a.atom_type ≡ Tags.senc → Handled a t s
  unfolding traf_child pack_all
  senc-Handled e = record {
    written = [];
    t' = record t { sample_info = parse_senc s a };
    s' = s;
    returns = ground arith;
    bytes = ground arith;
    overhead = refl;
    tfhd = ground arith;
  }

  saiz-Handled : (a.atom_type == Tags.saiz || a.atom_type == Tags.saio) ≡ true → Handled a t s
  unfolding traf_child pack_all
  saiz-Handled e = record {
    written = [];
    t' = t;
    s' = s;
    returns = ground arith;
    bytes = ground arith;
    overhead = refl;
    tfhd = ground arith;
  }

  other-Handled :
      a.atom_type ≢ Tags.tfhd
      → a.atom_type ≢ Tags.trun
      → a.atom_type ≢ Tags.senc
      → (a.atom_type == Tags.saiz || a.atom_type == Tags.saio) ≡ false
      → Handled a t s
  unfolding traf_child pack_all
  other-Handled e f g h = record {
    written = pack a;
    t' = t;
    s' = s;
    returns = ground arith;
    bytes = ground (arith, append-nil (pack a));
    overhead = refl;
    tfhd = ground arith;
  }

  pub traf_child-Handled : Handled a t s
  traf_child-Handled = elim (ℕ_discrete a.atom_type Tags.tfhd) [
    | yes e ↦ tfhd-Handled e
    | no e ↦ elim (ℕ_discrete a.atom_type Tags.trun) [
      | yes f ↦ trun-Handled f
      | no f ↦ elim (ℕ_discrete a.atom_type Tags.senc) [
        | yes g ↦ senc-Handled g
        | no g ↦ elim (Bool-cases (a.atom_type == Tags.saiz || a.atom_type == Tags.saio)) [
          | inl h ↦ saiz-Handled h
          | inr h ↦ other-Handled e f g h
        ]
      ]
    ]
  ]
