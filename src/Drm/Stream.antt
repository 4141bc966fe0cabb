-- ===== src/Drm/Stream.antt =====
-- `decrypt_segment_streaming` (src/drm/cenc.rs): boxes are cut out of the chunks as they arrive, and
-- each is decrypted once it is complete.
pub mod Fuel
pub mod Joined
pub mod Boxes
pub mod Chunks
pub mod Sequence
use mediaflow_proxy_light.Base.{
  ℕ, zero, suc, ◌-◌, min, Bool, true, false, List, [], ◌∷◌, ◌++◌, Option, none, some, ltb, ◌==◌,
  if◌then◌else◌, length, take, drop, is_empty, Bytes, be_at, Outcome, done, stuck, ◌>>=◌,
}
use mediaflow_proxy_light.Mp4.{Atom, new_atom, pack}
use mediaflow_proxy_light.Drm.Cipher.{Ciphers}
use mediaflow_proxy_light.Drm.Tags
use mediaflow_proxy_light.Drm.Decrypter.{Mp4Decrypter, new_decrypter}
use mediaflow_proxy_light.Drm.Keys.{build_key_map_from_hex}
use mediaflow_proxy_light.Drm.Moof.{process_moof}
use mediaflow_proxy_light.Drm.Mdat.{decrypt_mdat}
use mediaflow_proxy_light.Drm.Segment.{process_init_only, init_from_segment}

-- The local variables of the stream; `passing` once a box without a size has been met.
pub record Stream : Type 0 where
  pub buf : Bytes
  pub cur_type : Option ℕ
  pub cur_body : Bytes
  pub cur_body_remaining : ℕ
  pub decrypter : Mp4Decrypter
  pub passing : Bool

-- What the first bytes of the buffer say: wait for more, a box to the end of the stream, or a
-- header of `header_len` bytes before a body of `body_len` bytes.
pub data Header : Type 0 where
  wait endless : Header
  begin : ℕ → ℕ → Header

unfoldable pub read_header : Bytes → Header
read_header buf =
    let size = be_at 4 buf 0 in
    if ltb (length buf) 8
    then wait
    else if size == 1
    then if ltb (length buf) 16 then wait else begin 16 (be_at 8 buf 8 - 16)
    else if size == 0
    then endless
    else begin 8 (size - 8)

abbrev pub open_box : Stream → ℕ → ℕ → Stream
open_box s header_len body_len = record s {
  buf = drop header_len s.buf;
  cur_type = some (be_at 4 s.buf 4);
  cur_body = [];
  cur_body_remaining = body_len;
}

-- "Accumulate body bytes from the buffer."
abbrev pub accumulate : Stream → Stream
accumulate s =
    let n = min (length s.buf) s.cur_body_remaining in
    record s {
      buf = drop n s.buf;
      cur_body = s.cur_body ++ take n s.buf;
      cur_body_remaining = s.cur_body_remaining - n;
    }

-- The header goes out, and so does what has been buffered behind it, if anything.
abbrev pub pass_through : Stream → List Bytes × Stream
pass_through s = (
  take 8 s.buf ∷ (if is_empty (drop 8 s.buf) then [] else drop 8 s.buf ∷ []),
  record s { buf = []; passing = true },
)

-- What the consumer receives: chunks and then the end of the stream, chunks and then the error of
-- the upstream, or the error for a missing key. What is left of a partial box is dropped.
pub data Yielded : Type 0 where
  ended failed : List Bytes → Yielded
  drm_error : Yielded

module _ (c : Ciphers) where
  -- A complete box: `sidx` is dropped, fragments and media data are processed, all else is copied.
  unfoldable pub finish_box : Mp4Decrypter → Atom → Outcome (List Bytes × Mp4Decrypter)
  finish_box s a =
      if a.atom_type == Tags.sidx
      then done ([], s)
      else if a.atom_type == Tags.moof
      then (process_moof a s >>= λ r. done (pack r.0 ∷ [], r.1))
      else if a.atom_type == Tags.mdat
      then (decrypt_mdat c s a >>= λ p. done (pack p ∷ [], s))
      else done (pack a ∷ [], s)

  -- The box is closed, and the loop goes on from the state that `more` takes.
  unfoldable pub close_box :
      (Stream → Outcome (List Bytes × Stream)) → Stream → ℕ → Outcome (List Bytes × Stream)
  unfolding finish_box
  close_box more s tag = finish_box s.decrypter (new_atom tag s.cur_body) >>= λ r.
      more (record s { cur_type = none; cur_body = []; decrypter = r.1 }) >>= λ q.
      done (r.0 ++ q.0, q.1)

  unfoldable pub fill_box :
      (Stream → Outcome (List Bytes × Stream)) → Stream → ℕ → Outcome (List Bytes × Stream)
  unfolding close_box
  fill_box more s tag =
      let s' = accumulate s in
      if ltb 0 s'.cur_body_remaining then done ([], s') else close_box more s' tag

  -- One round of the loop "process as many complete boxes as possible from `buf`".
  unfoldable pub box_round :
      (Stream → Outcome (List Bytes × Stream)) → Option ℕ → Stream → Outcome (List Bytes × Stream)
  unfolding fill_box read_header
  box_round more (some tag) s = fill_box more s tag
  box_round more none s = elim (read_header s.buf) [
    | wait ↦ done ([], s)
    | endless ↦ done (pass_through s)
    | begin header_len body_len ↦ fill_box more (open_box s header_len body_len) (be_at 4 s.buf 4)
  ]

  -- Each round that goes on takes a byte at least out of the buffer.
  unfoldable pub box_loop : ℕ → Stream → Outcome (List Bytes × Stream)
  unfolding box_round
  box_loop zero s = stuck
  box_loop (suc fuel) s = box_round (box_loop fuel) s.cur_type s

  -- `stream.next()` has returned a chunk.
  unfoldable pub feed : Stream → Bytes → Outcome (List Bytes × Stream)
  unfolding box_loop
  feed s chunk =
      let buf = s.buf ++ chunk in
      if s.passing
      then done (chunk ∷ [], s)
      else box_loop (suc (length buf)) (record s { buf = buf })

  unfoldable pub feed_all : Stream → List Bytes → Outcome (List Bytes × Stream)
  unfolding feed
  feed_all s [] = done ([], s)
  feed_all s (chunk ∷ rest) =
      feed s chunk >>= λ r. feed_all r.1 rest >>= λ q. done (r.0 ++ q.0, q.1)

  abbrev pub new_stream : Mp4Decrypter → Stream
  new_stream s = record {
    buf = [];
    cur_type = none;
    cur_body = [];
    cur_body_remaining = 0;
    decrypter = s;
    passing = false;
  }

  unfoldable pub prime : Bytes → Bool → Mp4Decrypter → Outcome (List Bytes × Mp4Decrypter)
  unfolding process_init_only init_from_segment
  prime init_bytes include_init s =
      if include_init
      then (process_init_only init_bytes s >>= λ r. done (r.0 ∷ [], r.1))
      else (init_from_segment init_bytes s >>= λ r. done ([], r.1))

  module _ (hex_decode : Bytes → Option Bytes) where
    -- The upstream returns the chunks, and then an error if `fails`.
    unfoldable pub decrypt_segment_streaming :
        Bytes → List Bytes → Bool → Bytes → Bytes → Bool → Outcome Yielded
    unfolding prime feed_all
    decrypt_segment_streaming init_bytes segment_stream fails key_id key include_init =
        let key_map = build_key_map_from_hex hex_decode key_id key in
        if is_empty key_map
        then done drm_error
        else (prime init_bytes include_init (new_decrypter key_map) >>= λ r.
            feed_all (new_stream r.1) segment_stream >>= λ q.
            done (if fails then failed (r.0 ++ q.0) else ended (r.0 ++ q.0)))
