-- ===== src/Examples/Downloads.antt =====
-- A media request over a network that drops a connection, and the ranges of a SIDX box.
use mediaflow_proxy_light.Base.{
  ℕ, suc, List, Option, ◌≡◌, inl, inr, refl, true, [], ◌∷◌, ◌++◌, ◌==◌, if◌then◌else◌, length, take,
  drop, Bytes, ascii, done, be_at, Bool-cases, arith,
}
use mediaflow_proxy_light.Telegram.Download.{
  Reply, file, dropped, Network, max_chunk, Streamed, stream_document_range,
}
use mediaflow_proxy_light.Telegram.Download.Delivery.{
  Serves, Delivers, stream_document_range-Delivers,
}
use mediaflow_proxy_light.Mpd.Sidx.{SidxFragment, read, find_sidx, parse_sidx_fragments}
use mediaflow_proxy_light.Mpd.Sidx.Ranges.{
  Boxed, Follows, parse_sidx_fragments-Follows, parse_sidx_fragments_ends,
}

abbrev content : Bytes
content = 10 ∷ 11 ∷ 12 ∷ 13 ∷ 14 ∷ []

-- The first request is dropped, all others are answered.
abbrev answer : ℕ → ℕ → Reply
answer n offset = if n == 0 then dropped else file (take max_chunk (drop offset content))

abbrev flaky : Network
flaky = record { invoke = answer; invoke_in_dc = λ dc. answer; reconnects = λ n. true }

flaky-Serves : Serves content flaky 2 4
flaky-Serves n offset = elim (Bool-cases (n == 0)) [
  | inl e ↦ inr (rw e refl)
  | inr e ↦ inl (rw e refl)
]

stream_document_range-Delivers_example :
    (r : Streamed) × (stream_document_range 1 3 flaky 2 4 ≡ done r)
    × Delivers (take 3 (drop 1 content)) r
stream_document_range-Delivers_example =
    stream_document_range-Delivers content flaky 2 4 flaky-Serves 1 3 (omega arith) (omega arith)
      (omega arith)

-- A box of 44 bytes with one media reference of 500 bytes.
abbrev sidx_box : Bytes
sidx_box =
    (0 ∷ 0 ∷ 0 ∷ 44 ∷ ascii "sidx")
    ++ (0 ∷ 0 ∷ 0 ∷ 0 ∷ 0 ∷ 0 ∷ 0 ∷ 1 ∷ 0 ∷ 0 ∷ 3 ∷ 232 ∷ [])
    ++ (0 ∷ 0 ∷ 0 ∷ 0 ∷ 0 ∷ 0 ∷ 0 ∷ 0 ∷ 0 ∷ 0 ∷ 0 ∷ 1 ∷ [])
    ++ (0 ∷ 0 ∷ 1 ∷ 244 ∷ 0 ∷ 0 ∷ 7 ∷ 208 ∷ 0 ∷ 0 ∷ 0 ∷ 0 ∷ [])

parse_sidx_fragments-Follows_example :
    (fs : List SidxFragment) × (parse_sidx_fragments sidx_box 800 ≡ done fs) × Follows 844 fs
unfolding find_sidx read be_at
parse_sidx_fragments-Follows_example =
    parse_sidx_fragments-Follows sidx_box 800 0 44 0 1000 0 28 1 refl refl refl refl refl refl
      (omega arith) (omega arith)

parse_sidx_fragments_ends_example :
    (found : Option ℕ) × (find_sidx (suc (length sidx_box)) sidx_box 0 ≡ done found)
    × Boxed sidx_box found
    × ((fs : List SidxFragment) × (parse_sidx_fragments sidx_box 800 ≡ done fs))
parse_sidx_fragments_ends_example = parse_sidx_fragments_ends sidx_box 800
