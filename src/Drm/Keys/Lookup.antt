-- ===== src/Drm/Keys/Lookup.antt =====
-- Keys stored under an id whose UUID components are in the other byte order.
use mediaflow_proxy_light.Base.{
  ℕ, ◌≡◌, all, refl, ◌∙◌, true, false, List, ◌∷◌, none, some, ◌==◌, length, Bytes, lookup, insert,
  lookup-insert, ℕ_eq, bytes_eq, bytes_equal_iff, arith,
}
use mediaflow_proxy_light.Drm.Decrypter.{Mp4Decrypter}
use mediaflow_proxy_light.Drm.Keys.{swap_guid, is_zero_kid, find_by_kid, get_key_for_track}

lookup_inserted :
    (kid key : Bytes) (m : List (Bytes × Bytes)) → lookup kid (insert kid key m) ≡ some key
lookup_inserted kid key m = lookup-insert kid kid key m ∙ ground (arith, bytes_equal_iff kid kid)

-- A track whose `tenc` states a key id of 16 bytes, not all zero, gets the key that was stored under
-- that id with the first four bytes reversed, the next two swapped, and the two behind them
-- swapped, however many other keys there are, where none is stored under the id as stated.
pub get_key_for_track-swap_guid :
    (s : Mp4Decrypter) (track_id a0 a1 a2 a3 a4 a5 a6 a7 : ℕ) (rest key : Bytes)
    (m : List (Bytes × Bytes))
    → let stored = a0 ∷ a1 ∷ a2 ∷ a3 ∷ a4 ∷ a5 ∷ a6 ∷ a7 ∷ rest in
      let stated = a3 ∷ a2 ∷ a1 ∷ a0 ∷ a5 ∷ a4 ∷ a7 ∷ a6 ∷ rest in
      length rest ≡ 8
      → s.key_map ≡ insert stored key m
      → lookup track_id s.extracted_kids ≡ some stated
      → all (λ b. b == 0) stated ≡ false
      → lookup stated s.key_map ≡ none
      → get_key_for_track s track_id ≡ some key
unfolding get_key_for_track find_by_kid swap_guid is_zero_kid
get_key_for_track-swap_guid s track_id a0 a1 a2 a3 a4 a5 a6 a7 rest key m long stored extracted
      nonzero missing =
    let kid : Bytes = a0 ∷ a1 ∷ a2 ∷ a3 ∷ a4 ∷ a5 ∷ a6 ∷ a7 ∷ rest in
    let stated : Bytes = a3 ∷ a2 ∷ a1 ∷ a0 ∷ a5 ∷ a4 ∷ a7 ∷ a6 ∷ rest in
    let size : (length stated == 16) ≡ true = ground (arith, long) in
    let found : lookup kid s.key_map ≡ some key = rw stored (lookup_inserted kid key m) in
    let zero : is_zero_kid stated ≡ false = rw nonzero refl in
    ground (arith, extracted, zero, missing, size, found)
