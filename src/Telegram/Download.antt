-- ===== src/Telegram/Download.antt =====
-- `fetch_chunk` and `stream_document_range` of src/telegram/session.rs. The network answers each
-- request; requests and reconnects are numbered in the order in which they are made.
pub mod Delivery
use mediaflow_proxy_light.Base.{
  ℕ, zero, suc, ◌+◌, ◌-◌, ◌*◌, ◌/◌, ◌%◌, ◌^◌, min, max, Bool, true, false, ◌&&◌, ◌||◌, List, [],
  ◌∷◌, ◌++◌, Option, none, some, ltb, leb, ◌==◌, if◌then◌else◌, length, is_empty, Bytes, slice,
  Outcome, done, panic, stuck, ◌>>=◌,
}

-- What the client returns for an `upload.getFile` request.
pub data Reply : Type 0 where
  file : Bytes → Reply
  cdn_redirect : Reply
  read_error dropped other_error : Reply

pub record Network : Type 0 where
  -- request number, offset
  pub invoke : ℕ → ℕ → Reply
  -- data centre, request number, offset
  pub invoke_in_dc : ℕ → ℕ → ℕ → Reply
  -- whether `get_or_init_client` returns a client after that request
  pub reconnects : ℕ → Bool

unfoldable pub max_chunk : ℕ
max_chunk = 512 * 1024

unfoldable pub max_reconnects : ℕ
max_reconnects = 6

pub data FetchError : Type 0 where
  too_many_reconnects reconnect_failed cdn_unsupported rpc_failed : FetchError

-- `Ok(Some(bytes))`, `Ok(None)` and `Err(e)`.
pub data Fetched : Type 0 where
  bytes : Bytes → Fetched
  eof : Fetched
  failed : FetchError → Fetched

-- The requests made so far, and the reconnects counted for the stream.
pub record Connection : Type 0 where
  pub requests : ℕ
  pub reconnect_count : ℕ

-- "When the file is on the home DC, invoke directly"; a read error counts as a dropped connection.
abbrev pub as_dropped : Reply → Reply
as_dropped read_error = dropped
as_dropped r = r

abbrev pub respond : Network → ℕ → ℕ → ℕ → ℕ → Reply
respond net dc_id home_dc_id n chunk_offset =
    if dc_id == home_dc_id
    then as_dropped (net.invoke n chunk_offset)
    else as_dropped (net.invoke_in_dc dc_id n chunk_offset)

abbrev pub file_bytes : Bytes → Fetched
file_bytes d = if is_empty d then eof else bytes d

module _ (net : Network) (dc_id home_dc_id : ℕ) where
  -- What a reply comes to; `retry` is the loop with a fresh client.
  unfoldable pub fetch_round :
      (Connection → Outcome (Fetched × Connection))
      → Reply
      → Connection
      → Outcome (Fetched × Connection)
  fetch_round retry (file d) conn =
      done (file_bytes d, record conn { requests = suc conn.requests })
  fetch_round retry cdn_redirect conn =
      done (failed cdn_unsupported, record conn { requests = suc conn.requests })
  fetch_round retry other_error conn =
      done (failed rpc_failed, record conn { requests = suc conn.requests })
  fetch_round retry _ conn =
      let again : Connection = record {
        requests = suc conn.requests;
        reconnect_count = suc conn.reconnect_count;
      } in
      if leb max_reconnects conn.reconnect_count
      then done (failed too_many_reconnects, record conn { requests = suc conn.requests })
      else if net.reconnects conn.requests
      then retry again
      else done (failed reconnect_failed, again)

  unfoldable pub fetch_loop : ℕ → ℕ → Connection → Outcome (Fetched × Connection)
  unfolding fetch_round
  fetch_loop zero chunk_offset conn = stuck
  fetch_loop (suc fuel) chunk_offset conn =
      fetch_round (fetch_loop fuel chunk_offset)
        (respond net dc_id home_dc_id conn.requests chunk_offset) conn

  -- At most one request more than there are reconnects.
  unfoldable pub fetch_chunk : ℕ → Connection → Outcome (Fetched × Connection)
  unfolding fetch_loop
  fetch_chunk chunk_offset conn = fetch_loop (suc max_reconnects) chunk_offset conn

-- What the stream has given out, and how it ended.
abbrev pub Streamed : Type 0
Streamed = List Bytes × Option FetchError

-- `chunk_len as i32 < MAX_CHUNK`: a length of 2 ^ 31 and more would be negative.
abbrev pub is_last : ℕ → Bool
is_last chunk_len = ltb (chunk_len % 2 ^ 32) max_chunk || leb (2 ^ 31) (chunk_len % 2 ^ 32)

abbrev pub emit : List Bytes → Streamed → Streamed
emit payload (rest, e) = (payload ++ rest, e)

-- `end - start + 1` on `u64`s, with the wrap-around of a release build.
unfoldable pub needed : ℕ → ℕ → ℕ
needed start finish = ((finish + 2 ^ 64 - start) % 2 ^ 64 + 1) % 2 ^ 64

module _ (start finish : ℕ) where
  -- The part of a chunk that lies in the range, if there is one.
  unfoldable pub payload_of : ℕ → Bytes → Outcome (List Bytes)
  payload_of chunk_offset raw_bytes =
      let chunk_file_end = chunk_offset + length raw_bytes - 1 in
      let slice_start = max start chunk_offset in
      let slice_end = min finish chunk_file_end in
      if leb slice_start slice_end
      then (slice raw_bytes (slice_start - chunk_offset) (slice_end - chunk_offset + 1) >>= λ p.
          done (p ∷ []))
      else done []

  abbrev pub payload_length : List Bytes → ℕ
  payload_length [] = 0
  payload_length (p ∷ ps) = length p + payload_length ps

  module _ (net : Network) (dc_id home_dc_id : ℕ) where
    -- The round behind a successful fetch; `more` is the loop.
    unfoldable pub chunk_round :
        (ℕ → ℕ → Connection → Outcome Streamed) → ℕ → ℕ → Fetched × Connection → Outcome Streamed
    unfolding payload_of
    chunk_round more chunk_offset bytes_emitted (failed e, conn) = done ([], some e)
    chunk_round more chunk_offset bytes_emitted (eof, conn) = done ([], none)
    chunk_round more chunk_offset bytes_emitted (bytes raw_bytes, conn) =
        payload_of chunk_offset raw_bytes >>= λ payload.
        let next = chunk_offset + length raw_bytes in
        let rest =
          more next (bytes_emitted + payload_length payload) conn >>= λ r. done (emit payload r) in
        if is_last (length raw_bytes) || ltb finish next
        then done (emit payload ([], none))
        else rest

    unfoldable pub range_loop : ℕ → ℕ → ℕ → Connection → Outcome Streamed
    unfolding chunk_round fetch_chunk
    range_loop zero chunk_offset bytes_emitted conn = stuck
    range_loop (suc fuel) chunk_offset bytes_emitted conn =
        let round =
          fetch_chunk net dc_id home_dc_id chunk_offset conn
          >>= chunk_round (range_loop fuel) chunk_offset bytes_emitted in
        if leb (needed start finish) bytes_emitted then done ([], none) else round

    -- A chunk that goes on has a byte at least, so that `finish + 2` rounds are enough.
    unfoldable pub stream_document_range : Outcome Streamed
    unfolding range_loop
    stream_document_range =
        range_loop (suc (finish + 1)) (start / max_chunk * max_chunk) 0
          (record { requests = 0; reconnect_count = 0 })
