-- ===== src/Drm/Keys/HexItems.antt =====
-- The items of a comma-separated list of keys.
use mathlib.Core.List.{reverse, reverse_aux, reverse-append, reverse-reverse}
use mathlib.Core.Path.{subst}
use mediaflow_proxy_light.Base.{
  ◌≡◌, refl, sym, ap, ◌∙◌, Without, true, false, not, List, [], ◌∷◌, ◌++◌, append-nil, map, keep,
  all, ◌==◌, is_empty, Bytes, if◌then◌else◌, arith,
}
use mediaflow_proxy_light.Drm.Keys.{is_space, trim_start, split_comma, trim, hex_items}

-- White space only.
abbrev pub Blank : Bytes → Type 0
Blank s = all is_space s ≡ true

-- No white space and no comma.
abbrev pub IsClean : Bytes → Type 0
IsClean [] = Unit
IsClean (c ∷ cs) = (is_space c ≡ false) × ((c == b',') ≡ false) × IsClean cs

-- An item with white space around it, or only white space if the item is empty.
pub record Piece : Type 0 where
  pub before : Bytes
  pub item : Bytes
  pub after : Bytes

abbrev pub text : Piece → Bytes
text p = p.before ++ (p.item ++ p.after)

abbrev pub AllPieces : List Piece → Type 0
AllPieces [] = Unit
AllPieces (p ∷ ps) = Blank p.before × IsClean p.item × Blank p.after × AllPieces ps

abbrev pub join : List Bytes → Bytes
join [] = []
join (item ∷ []) = item
join (item ∷ next ∷ rest) = item ++ (b',' ∷ join (next ∷ rest))

IsClean-reverse_aux : (s t : Bytes) → IsClean s → IsClean t → IsClean (reverse_aux s t)
IsClean-reverse_aux [] t h k = k
IsClean-reverse_aux (c ∷ s) t (space, comma, h) k =
    IsClean-reverse_aux s (c ∷ t) h (space, comma, k)

Blank-reverse_aux : (s t : Bytes) → Blank s → Blank t → Blank (reverse_aux s t)
Blank-reverse_aux [] t h k = k
Blank-reverse_aux (c ∷ s) t h k = Blank-reverse_aux s (c ∷ t) (ground arith) (ground arith)

trim_start-Blank : (b s : Bytes) → Blank b → trim_start (b ++ s) ≡ trim_start s
trim_start-Blank [] s h = refl
trim_start-Blank (c ∷ b) s h = let rest = trim_start-Blank b s (ground arith) in ground arith

trim_start-IsClean : (s : Bytes) → IsClean s → trim_start s ≡ s
trim_start-IsClean [] h = refl
trim_start-IsClean (c ∷ s) (space, comma, h) = rw space refl

trim_nothing : (b : Bytes) → Blank b → trim_start b ≡ []
trim_nothing b h = ap trim_start (sym (append-nil b)) ∙ trim_start-Blank b [] h

trim_item :
    (before item after : Bytes)
    → Blank before
    → IsClean item
    → Blank after
    → trim (before ++ (item ++ after)) ≡ item
unfolding trim
trim_item before [] after h clean k =
    ap (λ s. reverse (trim_start (reverse s)))
      (trim_start-Blank before after h ∙ trim_nothing after k)
trim_item before (c ∷ item) after h (space, comma, clean) k =
    ap (λ s. reverse (trim_start (reverse s)))
      (trim_start-Blank before ((c ∷ item) ++ after) h
        ∙ ap (λ b. if b then trim_start (item ++ after) else (c ∷ item) ++ after) space)
    ∙ ap (λ s. reverse (trim_start s)) (reverse-append (c ∷ item) after)
    ∙ ap reverse (
        trim_start-Blank (reverse after) (reverse (c ∷ item)) (Blank-reverse_aux after [] k refl)
        ∙ trim_start-IsClean (reverse (c ∷ item))
            (IsClean-reverse_aux (c ∷ item) [] (space, comma, clean) tt))
    ∙ reverse-reverse (c ∷ item)

Blank-Without : (b s : Bytes) → Blank b → Without b',' s → Without b',' (b ++ s)
Blank-Without [] s h k = k
Blank-Without (c ∷ b) s h k = let rest = Blank-Without b s (ground arith) k in ground arith

IsClean-Without : (item s : Bytes) → IsClean item → Without b',' s → Without b',' (item ++ s)
IsClean-Without [] s h k = k
IsClean-Without (c ∷ item) s (space, comma, h) k =
    let rest = IsClean-Without item s h k in rw comma rest

text-Without : (p : Piece) → Blank p.before → IsClean p.item → Blank p.after → Without b',' (text p)
text-Without p before clean after = Blank-Without p.before (p.item ++ p.after) before (
    IsClean-Without p.item p.after clean
      (subst (Without b',') (append-nil p.after) (Blank-Without p.after [] after refl)))

split_comma-Without : (s : Bytes) → Without b',' s → split_comma s ≡ s ∷ []
unfolding split_comma
split_comma-Without [] h = refl
split_comma-Without (c ∷ s) h = let rest = split_comma-Without s (ground arith) in ground arith

split_comma-append :
    (s t : Bytes) → Without b',' s → split_comma (s ++ (b',' ∷ t)) ≡ s ∷ split_comma t
unfolding split_comma
split_comma-append [] t h = refl
split_comma-append (c ∷ s) t h = let rest = split_comma-append s t (ground arith) in ground arith

-- Items without white space and commas, each with any white space around it, are read back from the
-- text that joins them with commas: in order, without that white space, and without the items
-- that are empty.
pub hex_items-join :
    (ps : List Piece)
    → AllPieces ps
    → hex_items (join (map text ps)) ≡ keep (λ s. not (is_empty s)) (map (λ p. p.item) ps)
unfolding hex_items
hex_items-join [] h = unfold split_comma in unfold trim in refl
hex_items-join (p ∷ []) (before, clean, after, h) =
    rw
      (
        split_comma-Without (text p) (text-Without p before clean after),
        trim_item p.before p.item p.after before clean after,
      )
      refl
hex_items-join (p ∷ q ∷ ps) (before, clean, after, h) =
    rw
      (
        split_comma-append (text p) (join (map text (q ∷ ps))) (text-Without p before clean after),
        trim_item p.before p.item p.after before clean after,
      )
      (ap (λ l. if not (is_empty p.item) then p.item ∷ l else l) (hex_items-join (q ∷ ps) h))
