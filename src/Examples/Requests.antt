-- ===== src/Examples/Requests.antt =====
-- Range headers, file ids and prefetch queues.
use mathlib.Core.List.{Memᴰ}
use mediaflow_proxy_light.Base.{
  ℕ, ◌+◌, ◌≡◌, ◌⊎◌, refl, min, List, [], ◌∷◌, ◌++◌, some, false, length, Bytes, ℕ_eq, arith,
}
use mediaflow_proxy_light.Telegram.Range.{parse_range, split_once, bytes_part, parse_u64}
use mediaflow_proxy_light.Telegram.Range.Bounds.{
  InFile, IsEmptySuffix, parse_range-InFile, parse_range_inverted,
}
use mediaflow_proxy_light.Telegram.FileId.{rle_decode, read_tl_bytes}
use mediaflow_proxy_light.Telegram.FileId.Laws.{
  literal, zeros, wire, expand, tl_bytes, rle_decode-wire, read_tl_bytes-tl_bytes,
}
use mediaflow_proxy_light.Hls.Prebuffer.{Prefetcher, pop_batch_with_headers, promote}
use mediaflow_proxy_light.Hls.Prebuffer.Queue.{pop_batch_lem, promote_lem}

-- `bytes=-0`
abbrev empty_suffix : Bytes
empty_suffix = b'b' ∷ b'y' ∷ b't' ∷ b'e' ∷ b's' ∷ b'=' ∷ b'-' ∷ b'0' ∷ []

parse_range-InFile_example :
    InFile 100 (parse_range (some empty_suffix) 100) ⊎ IsEmptySuffix (some empty_suffix)
parse_range-InFile_example = parse_range-InFile (some empty_suffix) 100 (omega arith)

empty_suffix-IsEmptySuffix : IsEmptySuffix (some empty_suffix)
unfolding split_once bytes_part parse_u64
empty_suffix-IsEmptySuffix = record {
  value = empty_suffix;
  end_str = b'0' ∷ [];
  given = refl;
  splits = refl;
  counts_none = refl;
}

parse_range_inverted_example :
    (parse_range (some empty_suffix) 100).0 ≡ (parse_range (some empty_suffix) 100).1 + 1
parse_range_inverted_example =
    parse_range_inverted (some empty_suffix) 100 (omega arith) empty_suffix-IsEmptySuffix

rle_decode-wire_example :
    rle_decode (wire (literal 7 ∷ zeros 3 ∷ literal 1 ∷ []))
    ≡ expand (literal 7 ∷ zeros 3 ∷ literal 1 ∷ [])
rle_decode-wire_example =
    rle_decode-wire (literal 7 ∷ zeros 3 ∷ literal 1 ∷ [])
      ((λ e. omega arith), ((λ e. omega arith), tt))

read_tl_bytes-tl_bytes_example :
    read_tl_bytes (tl_bytes (1 ∷ 2 ∷ 3 ∷ 4 ∷ []) ++ 9 ∷ [])
    ≡ some (1 ∷ 2 ∷ 3 ∷ 4 ∷ [], length (tl_bytes (1 ∷ 2 ∷ 3 ∷ 4 ∷ [])))
read_tl_bytes-tl_bytes_example = read_tl_bytes-tl_bytes (1 ∷ 2 ∷ 3 ∷ 4 ∷ []) (9 ∷ []) (omega arith)

abbrev queue : Prefetcher ℕ ℕ
queue = record { queue = 4 ∷ 5 ∷ 6 ∷ []; headers = 5; wake = false; last_active = 0 }

pop_batch_lem_example :
    let ((batch, headers), q) = pop_batch_with_headers queue 2 0 in
    (batch ++ q.queue ≡ queue.queue)
    × (length batch ≡ min 2 (length queue.queue))
    × (headers ≡ queue.headers)
    × (q.headers ≡ queue.headers)
pop_batch_lem_example = pop_batch_lem queue 1 0

abbrev urls : List ℕ
urls = 1 ∷ 2 ∷ 3 ∷ []

promote_lem_example :
    ((before after : List ℕ) × (urls ≡ before ++ 2 ∷ after)
      × (Memᴰ 2 before → ⊥)
      × (promote 2 urls ≡ 2 ∷ (before ++ after)))
    ⊎ ((Memᴰ 2 urls → ⊥) × (promote 2 urls ≡ 2 ∷ urls))
promote_lem_example = promote_lem 2 urls
