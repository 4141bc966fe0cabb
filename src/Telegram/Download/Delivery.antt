-- ===== src/Telegram/Download/Delivery.antt =====
-- What a media request delivers of a file that the network serves, with dropped connections.
use mediaflow_proxy_light.Base.{
  ℕ, zero, suc, ◌+◌, ◌-◌, ◌*◌, ◌/◌, ◌%◌, ◌^◌, ◌≤◌, ◌<◌, ◌≡◌, refl, sym, ap, ◌∙◌, min, max, Bool,
  true, false, ◌||◌, List, [], ◌∷◌, ◌++◌, append-nil, none, some, ◌⊎◌, inl, inr, leb, length, take,
  drop, length-take, length-drop, take_add, take-take, drop-take, drop_add, take_prefix,
  drop_prefix, Bytes, joined, slice_in_range, Bool-cases, List-cases, Outcome, done, ◌>>=◌, arith,
  le→ltb, lt→ltb, le→leb, lt→leb,
}
use native.Mathlib.Decide.{dec_lt}
use native.Mathlib.Nat.{div-mul-le_self}
use mediaflow_proxy_light.Telegram.Download.{
  file, dropped, Network, max_chunk, max_reconnects, FetchError, Fetched, bytes, failed, file_bytes,
  Connection, respond, fetch_round, fetch_loop, fetch_chunk, Streamed, is_last, emit, needed,
  payload_of, chunk_round, range_loop, stream_document_range,
}

-- The network serves a file: each request for a chunk is answered with that part of the file, or
-- the connection drops.
abbrev pub Serves : Bytes → Network → ℕ → ℕ → Type 0
Serves content net dc_id home_dc_id =
    (n offset : ℕ)
    → (respond net dc_id home_dc_id n offset ≡ file (take max_chunk (drop offset content)))
      ⊎ (respond net dc_id home_dc_id n offset ≡ dropped)

-- What has been given out of the bytes that are wanted: all, or the first ones and then an error.
pub data Delivers (wanted : Bytes) : Streamed → Type 0 where
  complete : {chunks : List Bytes} → joined chunks ≡ wanted → Delivers wanted (chunks, none)
  broken :
      {chunks : List Bytes} (count : ℕ) (e : FetchError)
      → joined chunks ≡ take count wanted
      → Delivers wanted (chunks, some e)

-- More bytes in front.
Delivers-emit :
    {wanted p : Bytes} (all : Bytes) {r : Streamed}
    → all ≡ p ++ wanted
    → Delivers wanted r
    → Delivers all (emit (p ∷ []) r)
Delivers-emit {p = p} all e (complete same) = complete (ap (λ t. p ++ t) same ∙ sym e)
Delivers-emit {wanted = wanted} {p = p} all e (broken count err same) =
    broken (length p + count) err (
      rw
        (
          same,
          e,
          take_add (length p) count (p ++ wanted),
          take_prefix p wanted,
          drop_prefix p wanted,
        )
        refl)

Delivers-emit_none :
    {wanted : Bytes} (all : Bytes) {r : Streamed}
    → all ≡ wanted
    → Delivers wanted r
    → Delivers all (emit [] r)
Delivers-emit_none all e (complete same) = complete (same ∙ sym e)
Delivers-emit_none all e (broken count err same) = broken count err (rw e same)

or_true : (a b : Bool) → b ≡ true → (a || b) ≡ true
or_true true b h = refl
or_true false b h = h

chunk_bounds : (0 < max_chunk) × (max_chunk < 2 ^ 31)
unfolding max_chunk
chunk_bounds = omega arith

module _ (content : Bytes) (net : Network) (dc_id home_dc_id : ℕ)
    (serves : Serves content net dc_id home_dc_id) where
  -- A chunk of the file, or an error.
  data Gets (offset : ℕ) : Outcome (Fetched × Connection) → Type 0 where
    got :
        (conn : Connection)
        → Gets offset (done (file_bytes (take max_chunk (drop offset content)), conn))
    lost : (e : FetchError) (conn : Connection) → Gets offset (done (failed e, conn))

  fetch_loop-Gets :
      (fuel offset : ℕ) (conn : Connection)
      → max_reconnects ≤ fuel + conn.reconnect_count
      → Gets offset (fetch_loop net dc_id home_dc_id (suc fuel) offset conn)
  unfolding fetch_loop fetch_round
  fetch_loop-Gets zero offset conn enough = elim (serves conn.requests offset) [
    | inl answered ↦ rw answered (got _)
    | inr cut ↦
        let many : leb max_reconnects conn.reconnect_count ≡ true = le→leb _ _ (omega arith) in
        rw (cut, many) (lost _ _)
  ]
  fetch_loop-Gets (suc fuel) offset conn enough = elim (serves conn.requests offset) [
    | inl answered ↦ rw answered (got _)
    | inr cut ↦ rw cut (elim (Bool-cases (leb max_reconnects conn.reconnect_count)) [
      | inl many ↦ rw many (lost _ _)
      | inr few ↦ elim (Bool-cases (net.reconnects conn.requests)) [
        | inl back ↦ rw (few, back) (fetch_loop-Gets fuel offset _ (omega arith))
        | inr away ↦ rw (few, away) (lost _ _)
      ]
    ])
  ]

  fetch_chunk-Gets :
      (offset : ℕ) (conn : Connection) → Gets offset (fetch_chunk net dc_id home_dc_id offset conn)
  unfolding fetch_chunk
  fetch_chunk-Gets offset conn = fetch_loop-Gets max_reconnects offset conn (omega arith)

  module _ (start finish : ℕ) (ordered : start ≤ finish) (inside : finish < length content)
      (short : length content < 2 ^ 63) where
    abbrev wanted_from : ℕ → Bytes
    wanted_from offset = take (finish + 1 - max start offset) (drop (max start offset) content)

    abbrev chunk_at : ℕ → Bytes
    chunk_at offset = take max_chunk (drop offset content)

    length-chunk_at :
        (offset : ℕ) → length (chunk_at offset) ≡ min max_chunk (length content - offset)
    length-chunk_at offset =
        omega (arith, length-take max_chunk (drop offset content), length-drop offset content)

    -- A chunk that reaches the range.
    payload_of-chunk :
        (offset : ℕ)
        → offset ≤ finish
        → start < offset + length (chunk_at offset)
        → let w = min finish (offset + length (chunk_at offset) - 1) + 1 - max start offset in
          payload_of start finish offset (chunk_at offset)
          ≡ done (take w (drop (max start offset) content) ∷ [])
    unfolding payload_of max_chunk
    payload_of-chunk offset near reaches =
        let raw = chunk_at offset in
        let m = max start offset in
        let last = min finish (offset + length raw - 1) in
        let from = m - offset in
        let to = last - offset + 1 in
        let size = length-chunk_at offset in
        let overlaps : leb m last ≡ true = le→leb _ _ (omega (arith, size)) in
        let width : to - from ≡ last + 1 - m = omega arith in
        let there : offset + from ≡ m = omega arith in
        rw (overlaps, slice_in_range raw from to (omega arith) (omega arith))
          (ap (λ t. done (t ∷ []))
            (ap (take (to - from)) (drop-take from max_chunk (drop offset content))
              ∙ take-take (to - from) (max_chunk - from) (drop from (drop offset content))
                  (omega (arith, size))
              ∙ ap (take (to - from)) (drop_add offset from content)
              ∙ ap (λ k. take (to - from) (drop k content)) there
              ∙ ap (λ k. take k (drop m content)) width))

    payload_of-skipped :
        (offset : ℕ)
        → 0 < length (chunk_at offset)
        → offset + length (chunk_at offset) ≤ start
        → payload_of start finish offset (chunk_at offset) ≡ done []
    unfolding payload_of
    payload_of-skipped offset some_bytes before =
        let apart : leb (max start offset) (min finish (offset + length (chunk_at offset) - 1))
            ≡ false =
          lt→leb _ _ (omega arith) in
        rw apart refl

    chunk_nonempty :
        (offset : ℕ)
        → offset ≤ finish
        → (0 < length (chunk_at offset)) × (length (chunk_at offset) < 2 ^ 31)
    chunk_nonempty offset near = omega (arith, length-chunk_at offset, chunk_bounds)

    -- A chunk that is the last one ends behind the range.
    last_ends :
        (offset : ℕ)
        → offset ≤ finish
        → offset + length (chunk_at offset) ≤ finish
        → is_last (length (chunk_at offset)) ≡ false
    last_ends offset near within =
        let size = length-chunk_at offset in
        let full : length (chunk_at offset) % 2 ^ 32 ≡ max_chunk =
          omega (arith, size, chunk_bounds) in
        rw full (ground (arith, chunk_bounds))

    file_bytes-chunk :
        (offset : ℕ) → offset ≤ finish → file_bytes (chunk_at offset) ≡ bytes (chunk_at offset)
    file_bytes-chunk offset near = elim (List-cases (chunk_at offset)) [
      | inl gone ↦ absurd (omega (arith, chunk_nonempty offset near, ap length gone))
      | inr (x, r, e) ↦ rw e refl
    ]

    abbrev Ends : ℕ → Outcome Streamed → Type 0
    Ends offset o = (r : Streamed) × (o ≡ done r) × Delivers (wanted_from offset) r

    -- The bytes of this round, and those that follow.
    wanted_split :
        (offset next : ℕ)
        → start < next
        → offset ≤ next
        → next ≤ finish
        → wanted_from offset
          ≡ take (next - max start offset) (drop (max start offset) content) ++ wanted_from next
    wanted_split offset next reaches onward near =
        let m = max start offset in
        let w = next - m in
        let sum : finish + 1 - m ≡ w + (finish + 1 - max start next) = omega arith in
        let place : m + w ≡ max start next = omega arith in
        rw sum (
          take_add w (finish + 1 - max start next) (drop m content)
          ∙ ap (λ t. take w (drop m content) ++ take (finish + 1 - max start next) t)
              (drop_add m w content ∙ ap (λ k. drop k content) place))

    -- A round that has got its chunk.
    round_Ends :
        (more : ℕ → ℕ → Connection → Outcome Streamed) (offset : ℕ) (conn : Connection)
        → offset ≤ finish
        → ((next : ℕ) (c : Connection)
            → offset < next
            → next ≤ finish
            → Ends next (more next (next - start) c))
        → Ends offset (
            chunk_round start finish net dc_id home_dc_id more offset
              (offset - start)
              (bytes (chunk_at offset), conn))
    unfolding chunk_round
    round_Ends more offset conn near rest = elim (dec_lt start next) [
      | yes reaches ↦ elim (dec_lt finish next) [
        | yes over ↦
            let w : finish + 1 - m ≡ min finish (next - 1) + 1 - m = omega arith in
            (
              (take (min finish (next - 1) + 1 - m) (drop m content) ∷ [], none),
              rw
                  (
                    payload_of-chunk offset near reaches,
                    or_true (is_last size) _ (lt→ltb finish next over),
                  )
                  refl,
              complete (append-nil _ ∙ ap (λ k. take k (drop m content)) (sym w)),
            )
        | no within ↦
            let p = take (min finish (next - 1) + 1 - m) (drop m content) in
            let (r, e, d) =
              rest next conn (omega (arith, chunk_nonempty offset near)) (omega arith) in
            let width : min finish (next - 1) + 1 - m ≡ next - m =
              omega (arith, chunk_nonempty offset near) in
            let emitted : offset - start + (length p + 0) ≡ next - start = omega (
              arith,
              length-take (next - m) (drop m content),
              length-drop m content,
              ap (λ k. length (take k (drop m content))) width,
            ) in
            (
              emit (p ∷ []) r,
              rw
                  (
                    payload_of-chunk offset near reaches,
                    last_ends offset near (omega arith),
                    le→ltb finish next (omega arith),
                    emitted,
                    e,
                  )
                  refl,
              Delivers-emit (wanted_from offset)
                  (wanted_split offset next reaches (omega arith) (omega arith)
                    ∙ ap (λ k. take k (drop m content) ++ wanted_from next) (sym width))
                  d,
            )
      ]
      | no before ↦
          let (r, e, d) =
            rest next conn (omega (arith, chunk_nonempty offset near)) (omega arith) in
          let emitted : offset - start + 0 ≡ next - start = omega arith in
          let still : max start offset ≡ max start next = omega arith in
          (
            emit [] r,
            rw
                (
                  payload_of-skipped offset (omega (arith, chunk_nonempty offset near))
                      (omega arith),
                  last_ends offset near (omega arith),
                  le→ltb finish next (omega arith),
                  emitted,
                  e,
                )
                refl,
            Delivers-emit_none (wanted_from offset)
                (ap (λ k. take (finish + 1 - k) (drop k content)) still) d,
          )
    ]
      where
        size : ℕ
        size = length (chunk_at offset)

        next : ℕ
        next = offset + size

        m : ℕ
        m = max start offset

    fetched_Ends :
        (more : ℕ → ℕ → Connection → Outcome Streamed) (offset : ℕ)
        (o : Outcome (Fetched × Connection))
        → offset ≤ finish
        → Gets offset o
        → ((next : ℕ) (c : Connection)
            → offset < next
            → next ≤ finish
            → Ends next (more next (next - start) c))
        → Ends offset
            (o >>= chunk_round start finish net dc_id home_dc_id more offset (offset - start))
    unfolding chunk_round
    fetched_Ends more offset o near (got conn) rest =
        rw (file_bytes-chunk offset near) (round_Ends more offset conn near rest)
    fetched_Ends more offset o near (lost e conn) rest = (([], some e), refl, broken 0 e refl)

    needed_exact : needed start finish ≡ finish - start + 1
    unfolding needed
    needed_exact = omega arith

    range_loop-Ends :
        (fuel offset : ℕ) (conn : Connection)
        → offset ≤ finish
        → finish < fuel + offset
        → Ends offset
            (range_loop start finish net dc_id home_dc_id fuel offset (offset - start) conn)
    unfolding range_loop
    range_loop-Ends zero offset conn near enough = absurd (omega arith)
    range_loop-Ends (suc fuel) offset conn near enough =
        let missing : leb (needed start finish) (offset - start) ≡ false =
          lt→leb _ _ (omega (arith, needed_exact)) in
        rw missing (
          fetched_Ends (range_loop start finish net dc_id home_dc_id fuel) offset _ near
            (fetch_chunk-Gets offset conn)
            (λ next c onward within. range_loop-Ends fuel next c within (omega arith)))

    -- A media request of a range within a file that is shorter than 2 ^ 63 bytes always ends: it gives
    -- out exactly the bytes of the range, or the first ones of them and then an error, however often
    -- the connection drops.
    pub stream_document_range-Delivers :
        (r : Streamed) × (stream_document_range start finish net dc_id home_dc_id ≡ done r)
        × Delivers (take (finish + 1 - start) (drop start content)) r
    unfolding stream_document_range
    stream_document_range-Delivers =
        let offset = start / max_chunk * max_chunk in
        let below : offset ≤ start = div-mul-le_self start max_chunk in
        let none_yet : offset - start ≡ 0 = omega arith in
        let first : max start offset ≡ start = omega arith in
        rw (none_yet, first) at
          (range_loop-Ends (suc (finish + 1)) offset (record { requests = 0; reconnect_count = 0 })
            (omega arith) (omega arith))
