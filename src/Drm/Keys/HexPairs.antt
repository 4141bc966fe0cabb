-- ===== src/Drm/Keys/HexPairs.antt =====
-- The key map of two comma-separated lists, one of key ids and one of keys.
use mediaflow_proxy_light.Base.{
  ◌≡◌, refl, ap, ◌∙◌, Bool, true, false, not, List, [], ◌∷◌, Option, none, some, map, keep, ◌==◌,
  is_empty, Bytes, if◌then◌else◌, lookup, insert, lookup-insert, bytes_eq, bytes_equal,
}
use mediaflow_proxy_light.Drm.Keys.{decode_item, collect_pairs, hex_items, build_key_map_from_hex}
use mediaflow_proxy_light.Drm.Keys.HexItems.{
  Piece, text, IsClean, Blank, AllPieces, join, hex_items-join,
}

-- A key id and a key, as they are written and as what they stand for.
pub record Pair : Type 0 where
  pub id_piece : Piece
  pub key_piece : Piece
  pub id : Bytes
  pub key : Bytes

abbrev pub IsPiece : Piece → Type 0
IsPiece p = Blank p.before × IsClean p.item × Blank p.after × (is_empty p.item ≡ false)

-- The key of the last pair with an id.
abbrev pub last_key : Bytes → List Pair → Option Bytes
last_key kid [] = none
last_key kid (p ∷ ps) = elim (last_key kid ps) [
  | some key ↦ some key
  | none ↦ if bytes_equal p.id kid then some p.key else none
]

module _ (hex_decode : Bytes → Option Bytes) where
  -- The digits, with dashes among them, decode to the bytes.
  abbrev pub Decodes : Bytes → Bytes → Type 0
  Decodes item bytes = hex_decode (keep (λ c. not (c == b'-')) item) ≡ some bytes

  abbrev pub AllPairs : List Pair → Type 0
  AllPairs [] = Unit
  AllPairs (p ∷ ps) =
      IsPiece p.id_piece
      × IsPiece p.key_piece
      × Decodes p.id_piece.item p.id
      × Decodes p.key_piece.item p.key
      × AllPairs ps

  last_or : Option Bytes → Option Bytes → Option Bytes
  last_or (some key) rest = some key
  last_or none rest = rest

  last_or-none : (o : Option Bytes) → last_or o none ≡ o
  unfolding last_or
  last_or-none (some k) = refl
  last_or-none none = refl

  last_or-step :
      (o : Option Bytes) (b : Bool) (key : Bytes) (rest : Option Bytes)
      → last_or o (if b then some key else rest)
        ≡ last_or (elim o [ some k ↦ some k | none ↦ if b then some key else none ]) rest
  unfolding last_or
  last_or-step (some k) b key rest = refl
  last_or-step none true key rest = refl
  last_or-step none false key rest = refl

  collect_pairs-last :
      (ps : List Pair) (m : List (Bytes × Bytes)) (kid : Bytes)
      → AllPairs ps
      → lookup kid (
          collect_pairs hex_decode
            (map (λ p. p.id_piece.item) ps)
            (map (λ p. p.key_piece.item) ps)
            m)
        ≡ last_or (last_key kid ps) (lookup kid m)
  unfolding collect_pairs decode_item last_or
  collect_pairs-last [] m kid h = refl
  collect_pairs-last (p ∷ ps) m kid (_, _, id, key, h) =
      rw (id, key)
        (collect_pairs-last ps (insert p.id p.key m) kid h
          ∙ ap (last_or (last_key kid ps)) (lookup-insert p.id kid p.key m)
          ∙ last_or-step (last_key kid ps) (bytes_equal p.id kid) p.key (lookup kid m))

  ids_AllPieces : (ps : List Pair) → AllPairs ps → AllPieces (map (λ p. p.id_piece) ps)
  ids_AllPieces [] h = tt
  ids_AllPieces (p ∷ ps) ((b, c, a, _), _, _, _, h) = (b, c, a, ids_AllPieces ps h)

  keys_AllPieces : (ps : List Pair) → AllPairs ps → AllPieces (map (λ p. p.key_piece) ps)
  keys_AllPieces [] h = tt
  keys_AllPieces (p ∷ ps) (_, (b, c, a, _), _, _, h) = (b, c, a, keys_AllPieces ps h)

  kept_ids :
      (ps : List Pair)
      → AllPairs ps
      → keep (λ s. not (is_empty s)) (map (λ p. p.item) (map (λ p. p.id_piece) ps))
        ≡ map (λ p. p.id_piece.item) ps
  kept_ids [] h = refl
  kept_ids (p ∷ ps) ((_, _, _, full), _, _, _, h) =
      rw full (ap (λ l. p.id_piece.item ∷ l) (kept_ids ps h))

  kept_keys :
      (ps : List Pair)
      → AllPairs ps
      → keep (λ s. not (is_empty s)) (map (λ p. p.item) (map (λ p. p.key_piece) ps))
        ≡ map (λ p. p.key_piece.item) ps
  kept_keys [] h = refl
  kept_keys (p ∷ ps) (_, (_, _, _, full), _, _, h) =
      rw full (ap (λ l. p.key_piece.item ∷ l) (kept_keys ps h))

  -- From the texts that join key ids and keys with commas, each with any white space around it and
  -- any dashes in it, where every id and every key decodes: the key map has under an id exactly the
  -- key of the last pair with that id, and nothing under any other.
  pub build_key_map_from_hex-last_key :
      (ps : List Pair) (kid : Bytes)
      → AllPairs ps
      → lookup kid (
          build_key_map_from_hex hex_decode
            (join (map text (map (λ p. p.id_piece) ps)))
            (join (map text (map (λ p. p.key_piece) ps))))
        ≡ last_key kid ps
  unfolding build_key_map_from_hex lookup
  build_key_map_from_hex-last_key ps kid h =
      let ids = map (λ p. p.id_piece) ps in
      let keys = map (λ p. p.key_piece) ps in
      ap (λ l. lookup kid (collect_pairs hex_decode l (hex_items (join (map text keys))) []))
        (hex_items-join ids (ids_AllPieces ps h) ∙ kept_ids ps h)
      ∙ ap (λ l. lookup kid (collect_pairs hex_decode (map (λ p. p.id_piece.item) ps) l []))
          (hex_items-join keys (keys_AllPieces ps h) ∙ kept_keys ps h)
      ∙ collect_pairs-last ps [] kid h
      ∙ last_or-none (last_key kid ps)
