-- ===== src/Drm/Moof/Offsets.antt =====
-- Whole track fragments and movie fragments, their boxes laid out one after another.
use mediaflow_proxy_light.Base.{
  ℕ, ◌+◌, ◌≤◌, ◌%◌, be_at, take, drop, to_be_bytes, ◌^◌, ◌≡◌, refl, sym, ap, ◌∙◌, true, false, ◌||◌,
  List, [], ◌∷◌, ◌++◌, append_assoc, inl, inr, ltb, ◌==◌, length, length-append, length-take,
  length-drop, Bytes, length-to_be_bytes, Bool-cases, done, panic, stuck, arith,
}
use mediaflow_proxy_light.Mp4.{Atom, new_atom, pack, pack_all, children_of}
use mediaflow_proxy_light.Mp4.RoundTrip.{length-pack}
use mediaflow_proxy_light.Drm.Tags
use mediaflow_proxy_light.Drm.Decrypter.{
  Mp4Decrypter, >>=-done, lift, has_flag, put_be_32, extend_each, repack,
}
use mediaflow_proxy_light.Drm.Moof.{
  is_encryption_box, boxes_overhead, total_overhead, modify_trun, Traf, new_traf, track_info,
  traf_loop, with_tfhd, process_traf, moof_child, process_moof,
}
use mediaflow_proxy_light.Drm.Moof.Strip.{kept, clean, has_box, Handled, traf_child-Handled}

pack_all-append : (xs ys : List Atom) → pack_all (xs ++ ys) ≡ pack_all xs ++ pack_all ys
unfolding pack_all
pack_all-append [] ys = refl
pack_all-append (a ∷ xs) ys = rw (pack_all-append xs ys) (sym (append_assoc (pack a) _ _))

clean-cons :
    (n : ℕ) (a : Atom) (rest : List Atom) → clean n (a ∷ rest) ≡ clean n (a ∷ []) ++ clean n rest
clean-cons n a rest = elim (Bool-cases (is_encryption_box a)) [
  | inl e ↦ ground arith
  | inr e ↦ ground arith
]

-- What the loop over the children comes to.
record HandledAll (boxes : List Atom) (t : Traf) (s : Mp4Decrypter) : Type 0 where
  written : Bytes
  t' : Traf
  s' : Mp4Decrypter
  returns : traf_loop boxes t s ≡ done ((written, t'), s')
  bytes : written ≡ pack_all (clean s.total_encryption_overhead boxes)
  overhead : s'.total_encryption_overhead ≡ s.total_encryption_overhead
  tfhd : t'.has_tfhd ≡ (has_box Tags.tfhd boxes || t.has_tfhd)

HandledAll-cons :
    (a : Atom) (rest : List Atom) (t : Traf) (s : Mp4Decrypter) (c : Handled a t s)
    → HandledAll rest c.t' c.s'
    → HandledAll (a ∷ rest) t s
unfolding traf_loop
HandledAll-cons a rest t s c l = record {
  written = c.written ++ l.written;
  t' = l.t';
  s' = l.s';
  returns = unfold traf_loop in ground (arith, c.returns, l.returns);
  bytes =
      rw (clean-cons s.total_encryption_overhead a rest, l.bytes, c.overhead, c.bytes)
        (sym (pack_all-append (clean s.total_encryption_overhead (a ∷ [])) _));
  overhead = l.overhead ∙ c.overhead;
  tfhd = ground (arith, l.tfhd, c.tfhd);
}

traf_loop-HandledAll : (boxes : List Atom) (t : Traf) (s : Mp4Decrypter) → HandledAll boxes t s
traf_loop-HandledAll [] t s = record {
  written = [];
  t' = t;
  s' = s;
  returns = unfold traf_loop in refl;
  bytes = unfold pack_all in refl;
  overhead = refl;
  tfhd = refl;
}
traf_loop-HandledAll (a ∷ rest) t s =
    let c = traf_child-Handled a t s in
    HandledAll-cons a rest t s c (traf_loop-HandledAll rest c.t' c.s')

length-put_be_32 : (d : Bytes) (n v : ℕ) → n + 4 ≤ length d → length (put_be_32 d n v) ≡ length d
length-put_be_32 d n v fits = omega (
  arith,
  length-append (take n d) (to_be_bytes 4 v ++ drop (n + 4) d),
  length-append (to_be_bytes 4 v) (drop (n + 4) d),
  length-take n d,
  length-drop (n + 4) d,
  length-to_be_bytes 4 v,
)

-- `modify_trun` keeps the size of the box.
length-modify_trun : (n : ℕ) (a : Atom) → length (modify_trun n a).payload ≡ length a.payload
unfolding modify_trun
length-modify_trun n a = elim (Bool-cases (ltb (length a.payload) 12)) [
  | inl small ↦ rw small
  | inr large ↦ elim (Bool-cases (has_flag (be_at 4 a.payload 0 % 2 ^ 24) 0)) [
    | inl present ↦ rw (large, present) (length-put_be_32 a.payload 8 _ (ground arith))
    | inr absent ↦ rw (large, absent)
  ]
]

length-kept : (n : ℕ) (a : Atom) → length (kept n a).payload ≡ length a.payload
length-kept n a = elim (Bool-cases (a.atom_type == Tags.trun)) [
  | inl e ↦ rw e (length-modify_trun n a)
  | inr e ↦ rw e
]

clean_size :
    (n : ℕ) (boxes : List Atom)
    → length (pack_all (clean n boxes)) + boxes_overhead boxes ≡ length (pack_all boxes)
unfolding boxes_overhead pack_all
clean_size n [] = omega arith
clean_size n (a ∷ rest) =
    let rest_size = clean_size n rest in
    elim (Bool-cases (is_encryption_box a)) [
      | inl e ↦ rw e (omega (arith, length-append (pack a) (pack_all rest), length-pack a))
      | inr e ↦ rw e (
          omega (
            arith,
            length-append (pack a) (pack_all rest),
            length-pack a,
            length-append (pack (kept n a)) (pack_all (clean n rest)),
            length-pack (kept n a),
            length-kept n a,
          ))
    ]

-- A track fragment whose boxes parse, a `tfhd` among them, is written as those boxes in order,
-- without `senc`, `saiz` and `saio`, and with the data offset of each `trun` moved back by the
-- decrypter's overhead. Nothing fails, and the overhead stays.
pub process_traf_lem :
    (boxes : List Atom) (traf : Atom) (s : Mp4Decrypter)
    → children_of traf.payload ≡ done boxes
    → has_box Tags.tfhd boxes ≡ true
    → (s' : Mp4Decrypter) × (process_traf traf s
        ≡ done (new_atom Tags.traf (pack_all (clean s.total_encryption_overhead boxes)), s'))
      × (s'.total_encryption_overhead ≡ s.total_encryption_overhead)
unfolding process_traf with_tfhd
process_traf_lem boxes traf s parses found =
    let l = traf_loop-HandledAll boxes new_traf s in
    let present : l.t'.has_tfhd ≡ true = l.tfhd ∙ rw found in
    (
      record l.s' {
        track_infos = l.s'.track_infos ++ track_info l.s' l.t' ∷ [];
        current_sample_info = l.t'.sample_info;
      },
      >>=-done (lift (children_of traf.payload)) _ s boxes s (rw parses)
          ∙ >>=-done (traf_loop boxes new_traf) _ s (l.written, l.t') l.s' l.returns
          ∙ rw (present, l.bytes),
      l.overhead,
    )

-- The child of a movie fragment whose size is accounted for: any box but `traf`, or a `traf` that is
-- its own boxes one after another, a `tfhd` among them.
pub data Sound (a : Atom) : Type 0 where
  other : (a.atom_type == Tags.traf) ≡ false → Sound a
  traf :
      (boxes : List Atom)
      → (a.atom_type == Tags.traf) ≡ true
      → children_of a.payload ≡ done boxes
      → pack_all boxes ≡ a.payload
      → has_box Tags.tfhd boxes ≡ true
      → Sound a

pub data AllSound : List Atom → Type 0 where
  nil : AllSound []
  cons : {a : Atom} {rest : List Atom} → Sound a → AllSound rest → AllSound (a ∷ rest)

-- What the second pass writes for the children, and what the first pass counted.
record Size (children : List Atom) (s : Mp4Decrypter) : Type 0 where
  written : Bytes
  overhead : ℕ
  s' : Mp4Decrypter
  counts : total_overhead children ≡ done overhead
  returns : extend_each moof_child children s ≡ done (written, s')
  size : length written + overhead ≡ length (pack_all children)
  keeps : s'.total_encryption_overhead ≡ s.total_encryption_overhead

Size-cons :
    (a : Atom) (rest : List Atom) (s : Mp4Decrypter)
    → Sound a
    → ((s' : Mp4Decrypter) → Size rest s')
    → Size (a ∷ rest) s
unfolding total_overhead extend_each moof_child repack pack_all
Size-cons a rest s (other e) of_rest =
    let z = of_rest s in
    record {
      written = pack a ++ z.written;
      overhead = z.overhead;
      s' = z.s';
      counts = rw (e, z.counts);
      returns =
          >>=-done (moof_child a) _ s (pack a) s (rw e)
          ∙ >>=-done (extend_each moof_child rest) _ s z.written z.s' z.returns;
      size =
          omega (
            arith,
            z.size,
            length-append (pack a) z.written,
            length-append (pack a) (pack_all rest),
          );
      keeps = z.keeps;
    }
Size-cons a rest s (traf boxes e parses whole found) of_rest =
    let (s', returns, keeps) = process_traf_lem boxes a s parses found in
    let z = of_rest s' in
    let out = new_atom Tags.traf (pack_all (clean s.total_encryption_overhead boxes)) in
    record {
      written = pack out ++ z.written;
      overhead = boxes_overhead boxes + z.overhead;
      s' = z.s';
      counts = rw (e, parses, z.counts);
      returns =
          >>=-done (moof_child a) _ s (pack out) s'
            (rw e (>>=-done (process_traf a) _ s out s' returns))
          ∙ >>=-done (extend_each moof_child rest) _ s' z.written z.s' z.returns;
      size = omega (
        arith,
        z.size,
        length-append (pack out) z.written,
        length-append (pack a) (pack_all rest),
        length-pack out,
        length-pack a,
        clean_size s.total_encryption_overhead boxes,
        ap length whole,
      );
      keeps = z.keeps ∙ keeps;
    }

children-Size : (children : List Atom) → AllSound children → (s : Mp4Decrypter) → Size children s
children-Size [] nil s = record {
  written = [];
  overhead = 0;
  s' = s;
  counts = unfold total_overhead in refl;
  returns = unfold extend_each in refl;
  size = unfold pack_all in refl;
  keeps = refl;
}
children-Size (a ∷ rest) (cons here there) s = Size-cons a rest s here (children-Size rest there)

done_value : {n m : ℕ} → done n ≡ done m → n ≡ m
done_value e = ap (λ o. elim o [ done n ↦ n | panic ↦ 0 | stuck ↦ 0 ]) e

-- `process_moof` on a movie fragment that is its children one after another, each `traf` of them its
-- own boxes one after another with a `tfhd`, returns a box that is shorter by exactly
-- the overhead it leaves in the state, the amount by which it moves each `trun`'s data offset.
pub process_moof_size :
    (children : List Atom) (moof : Atom) (s : Mp4Decrypter)
    → children_of moof.payload ≡ done children
    → pack_all children ≡ moof.payload
    → AllSound children
    → (out : Atom) × (s' : Mp4Decrypter) × (process_moof moof s ≡ done (out, s'))
      × (length out.payload + s'.total_encryption_overhead ≡ length moof.payload)
      × (total_overhead children ≡ done s'.total_encryption_overhead)
unfolding process_moof
process_moof_size children moof s parses whole sound =
    let before : Mp4Decrypter = record s { track_infos = [] } in
    let counted = children-Size children sound before in
    let counting = record before { total_encryption_overhead = counted.overhead } in
    let z = children-Size children sound counting in
    let same : counted.overhead ≡ z.overhead = done_value (sym counted.counts ∙ z.counts) in
    (
      new_atom Tags.moof z.written,
      z.s',
      >>=-done (lift (children_of moof.payload)) _ s children s (rw parses)
          ∙ >>=-done (lift (total_overhead children)) _ before counted.overhead before
              (rw counted.counts)
          ∙ >>=-done (extend_each moof_child children) _ counting z.written z.s' z.returns,
      omega (arith, z.size, z.keeps, ap length whole, same),
      rw (z.keeps, counted.counts),
    )
