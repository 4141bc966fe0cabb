-- ===== src/Lib.antt =====
-- Verification of mediaflow-proxy-light, a media proxy server in Rust.
--
-- A request comes in with a password or with an encrypted token. The guard of src/auth decides
-- whether it reaches the handlers and which data it carries. Links of that form are made by
-- `build_proxy_url` of src/proxy/handler.rs, which the playlist rewriting of src/hls calls for every
-- URL of a playlist, so that a player comes back through the guard. Other handlers fetch from
-- Telegram, from an Ace Stream engine or from an upstream of the client's choice, behind the
-- forward guard. Protected media are decrypted by src/drm: a segment is a tree of MP4 boxes, which
-- src/drm/mp4_atom.rs parses and packs; `Mp4Decrypter` of src/drm/cenc.rs reads the encryption
-- settings out of the initialisation (moov), takes the encryption boxes out of every movie fragment
-- (moof), moves its data offsets back by their size, notes where the samples are, and decrypts
-- these in the media data (mdat), on a whole segment or on a stream of chunks as they arrive.
--
-- Base: the shared helpers. `Outcome` is what a call comes to: `done` with a value, `panic` (an index or
--   a slice out of range), or `stuck`, which is no result of the source: a loop of the model has
--   no fuel left. Bytes are lists of numbers, and big-endian integers are read and written by `be_at` and
--   `to_be_bytes`. A HashMap is an association list with one entry for a key, and a text is its
--   ASCII bytes.
-- Mp4: src/drm/mp4_atom.rs. `Atom` is Mp4Atom and `Parser` is Mp4Parser; a four-byte tag is a number.
-- Drm: src/drm/cenc.rs and build_key_map_from_hex of src/drm/clearkey.rs.
--   Cipher: the AES calls as a parameter. Sample: decrypt_sample and what it calls.
--   Decrypter: the state of Mp4Decrypter; a method is a function of the state that returns a value
--   and the new state. Keys: get_key_for_track and the key map. Moov, Moof, Mdat: process_moov,
--   process_moof and decrypt_mdat with all that they call. Segment: decrypt_segment,
--   process_init_only, init_from_segment, process_drm_init_segment. Stream:
--   decrypt_segment_streaming, whose state `Stream` is fed with one chunk after another.
-- Auth: Encryption is src/auth/encryption.rs, the tokens; `Crates` has its calls of base64, AES-CBC
--   and serde, and the random vector and the time are arguments. Middleware is
--   src/auth/middleware.rs: `call` answers with the request and the data that the handlers get, or
--   with an error.
-- Proxy: src/proxy/handler.rs. Links is build_proxy_url, Forward the guard check_forward_destination.
-- Hls: Prebuffer: the queue operations of the prefetcher in src/hls/prebuffer.rs. SkipFilter:
--   src/hls/skip_filter.rs and its run over parsed segments. Links and Manifest: src/hls/manifest.rs;
--   Manifest.Lines is the line fallback `process_lines`, a loop over the lines of the text with
--   the state `Lines`, and Manifest.Media `process` with process_media and process_master. f64 and
--   its operations are a parameter (`Floats`, `FloatTexts`), as are the parser and the writers of
--   playlists (`M3u8`).
-- Config: src/config.rs, the router of upstream proxies and normalize_server_path.
-- Utils: src/utils/url.rs: public_proxy_base_url, resolve_url, segment_extension.
-- Telegram: decode_file_id of src/telegram/media_ref.rs, parse_range of src/telegram/handler.rs, and
--   Download: stream_document_range of src/telegram/session.rs over a `Network` that answers each
--   request or drops the connection.
-- Acestream: the session registry of src/acestream/session.rs; the engine is a parameter, and each
--   operation is a function of the registry.
-- Xtream: src/xtream/auth.rs, user names that carry an upstream.
-- Mpd: the SIDX parser of src/mpd/processor.rs.
-- Examples: toy parameters and concrete inputs.
--
-- Sub-modules named for what they prove stand below the module that they are about.
--
-- Numbers: a usize has 64 bits, and arithmetic wraps around where the release build's does and the
-- values of the data can make it: the size of a box, the data offset of a trun, the start of a
-- track, the count of a session's clients. Buffers are taken to be shorter than 2 ^ 63 bytes where
-- a position is added to a size.
--
-- Fuel: list_atoms has one round more than the buffer has bytes, and a box takes eight at least.
-- block_positions has one more than the data has bytes, and a period takes sixteen at least.
-- box_loop has one more than the buffer has bytes, and a round that goes on takes a byte at least out.
-- find_sidx has one more than the buffer has bytes, and a box takes eight at least. range_loop has
-- two more than the end of the range, and a round that goes on takes a byte at least; fetch_loop has
-- one for each of the attempts that the source allows.
--
-- Not modelled: logging, the allocation hints, the third-party crates (parameters), the network and
-- everything that only passes requests on (the handlers of the routes, the site extractors,
-- transcoding, web pages), the caches, and, as yet, the rest of src/mpd and the worker of the
-- prefetchers.
pub mod Base
pub mod Mp4
pub mod Drm
pub mod Hls
pub mod Telegram
pub mod Proxy
pub mod Utils
pub mod Auth
pub mod Config
pub mod Acestream
pub mod Xtream
pub mod Mpd
pub mod Examples
