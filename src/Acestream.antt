-- ===== src/Acestream.antt =====
-- src/acestream/session.rs: the registry of sessions with the Ace Stream engine. A call is one step
-- on the registry, at a time in milliseconds. The engine's answers and new pids are parameters.
pub mod Clients
pub mod Release
pub mod FreeMode
pub mod Underflow
use mediaflow_proxy_light.Base.{
  ℕ, ◌+◌, ◌-◌, ◌^◌, ◌%◌, Bool, true, false, not, ◌&&◌, ◌||◌, List, [], ◌∷◌, ◌++◌, Option, none,
  some, ltb, leb, ◌==◌, if◌then◌else◌, is_empty, length, all, is_hexdigit, Bytes, ascii,
  to_lowercase, contains_text, contains_bytes, decimal, replace, lookup, insert, remove, bytes_eq,
}
use mathlib.Core.Option

pub record EngineResponse : Type 0 where
  pub playback_url : Option Bytes
  pub stat_url : Option Bytes
  pub command_url : Option Bytes

-- What comes of a request to the engine: no answer, a status, a body that is no JSON of this kind,
-- and one with the fields `error` and `response`.
pub data EngineReply : Type 0 where
  failed : Bytes → EngineReply
  bad_status : Bytes → EngineReply
  bad_json : Bytes → EngineReply
  answered : Option Bytes → Option EngineResponse → EngineReply

pub data SessionResult {ℓ} (A : Type ℓ) : Type ℓ where
  ok : A → SessionResult A
  err : Bytes → SessionResult A

pub record AcestreamSession : Type 0 where
  pub infohash : Bytes
  pub pid : Bytes
  pub playback_url : Bytes
  pub command_url : Option Bytes
  pub stat_url : Option Bytes
  pub playback_session_id : Option Bytes
  pub is_live : Bool
  pub is_free_mode : Bool
  pub created_at : ℕ
  pub last_access : ℕ
  pub client_count : ℕ

-- A spawned task that sends a stop command when it is due.
pub record DelayedStop : Type 0 where
  pub infohash : Bytes
  pub command_url : Option Bytes
  pub due : ℕ

-- The registry, the delayed tasks, and the stop commands sent, the latest first.
pub record AcestreamSessionManager : Type 0 where
  pub sessions : List (Bytes × AcestreamSession)
  pub delayed : List DelayedStop
  pub sent : List Bytes

abbrev pub touch : ℕ → AcestreamSession → AcestreamSession
touch now s = record s { last_access = now }

abbrev pub is_stale : ℕ → ℕ → AcestreamSession → Bool
is_stale now ttl s = ltb ttl (now - s.last_access)

unfoldable pub is_premium_error : Bytes → Bool
is_premium_error e =
    let lower = to_lowercase e in
    contains_text lower (ascii "premium")
    || contains_text lower (ascii "activate")
    || contains_text lower (ascii "subscription")

abbrev pub local_hosts : List Bytes
local_hosts = ascii "localhost" ∷ ascii "127.0.0.1" ∷ ascii "::1" ∷ []

unfoldable pub rewrite_engine_host : Bytes → Bytes → ℕ → Bytes
rewrite_engine_host url engine_host engine_port =
    let port = ascii ":" ++ decimal engine_port in
    if contains_bytes local_hosts engine_host
    then url
    else replace (ascii "[::1]" ++ port) (engine_host ++ port) (
        replace (ascii "127.0.0.1" ++ port) (engine_host ++ port)
          (replace (ascii "localhost" ++ port) (engine_host ++ port) url))

-- The addresses of a session: for playback, for commands and for statistics.
pub record Addresses : Type 0 where
  pub playback_url : Bytes
  pub command_url : Option Bytes
  pub stat_url : Option Bytes

abbrev pub read_response : Bytes → ℕ → Option EngineResponse → SessionResult Addresses
read_response host port none = err (ascii "Engine response missing 'response' field")
read_response host port (some engine) = elim engine.playback_url [
  | none ↦ err (ascii "Engine response missing playback_url")
  | some url ↦ ok (record {
    playback_url = rewrite_engine_host url host port;
    command_url = Option.map (λ s. rewrite_engine_host s host port) engine.command_url;
    stat_url = Option.map (λ s. rewrite_engine_host s host port) engine.stat_url;
  })
]

unfoldable pub try_json_session : EngineReply → Bytes → ℕ → SessionResult Addresses
unfolding rewrite_engine_host
try_json_session (failed e) host port = err (ascii "Engine request failed: " ++ e)
try_json_session (bad_status s) host port = err (ascii "Engine returned HTTP " ++ s)
try_json_session (bad_json e) host port = err (ascii "Engine JSON parse error: " ++ e)
try_json_session (answered (some e) response) host port = err (ascii "premium:" ++ e)
try_json_session (answered none response) host port = read_response host port response

-- The arguments of `get_or_create`, with the pid that it draws.
pub record Start : Type 0 where
  pub engine_host : Bytes
  pub engine_port : ℕ
  pub infohash : Bytes
  pub content_id : Option Bytes
  pub access_token : Option Bytes
  pub pid : Bytes

abbrev pub token_suffix : Option Bytes → Bytes
token_suffix none = []
token_suffix (some []) = []
token_suffix (some (c ∷ cs)) = ascii "&token=" ++ (c ∷ cs)

-- `id=` with a content id, and `infohash=` without.
abbrev pub id_parameter : Start → Bytes
id_parameter q = elim q.content_id [
  | some cid ↦ ascii "id=" ++ cid
  | none ↦ ascii "infohash=" ++ q.infohash
]

abbrev pub engine_url : Start → Bytes
engine_url q = ascii "http://" ++ q.engine_host ++ ascii ":" ++ decimal q.engine_port

abbrev pub json_url : Start → Bytes
json_url q =
    engine_url q
    ++ ascii "/ace/manifest.m3u8?format=json&pid="
    ++ q.pid
    ++ ascii "&"
    ++ id_parameter q
    ++ token_suffix q.access_token

-- The addresses of the free mode.
abbrev pub free_addresses : Start → Addresses
free_addresses q = record {
  playback_url =
      engine_url q ++ ascii "/ace/manifest.m3u8?" ++ id_parameter q ++ token_suffix q.access_token;
  command_url = some (engine_url q ++ ascii "/ace/cmd?pid=" ++ q.pid);
  stat_url = some (engine_url q ++ ascii "/ace/stat/" ++ q.pid);
}

abbrev pub new_session : ℕ → Start → Addresses → Bool → AcestreamSession
new_session now q a free = record {
  infohash = q.infohash;
  pid = q.pid;
  playback_url = a.playback_url;
  command_url = a.command_url;
  stat_url = a.stat_url;
  playback_session_id = none;
  is_live = true;
  is_free_mode = free;
  created_at = now;
  last_access = now;
  client_count = 0;
}

abbrev pub with_sessions :
    List (Bytes × AcestreamSession) → AcestreamSessionManager → AcestreamSessionManager
with_sessions sessions m = record m { sessions = sessions }

abbrev pub put_session :
    AcestreamSession
    → AcestreamSessionManager
    → SessionResult AcestreamSession × AcestreamSessionManager
put_session s m = (ok s, with_sessions (insert s.infohash s m.sessions) m)

-- The rest of `get_or_create` after the engine's answer.
abbrev pub start_session :
    ℕ
    → Start
    → SessionResult Addresses
    → AcestreamSessionManager
    → SessionResult AcestreamSession × AcestreamSessionManager
start_session now q (ok a) m = put_session (new_session now q a false) m
start_session now q (err e) m =
    if is_premium_error e
    then put_session (new_session now q (free_addresses q) true) m
    else (err e, m)

module _ (engine : Bytes → EngineReply) where
  unfoldable pub create_session :
      ℕ → Start → AcestreamSessionManager → SessionResult AcestreamSession × AcestreamSessionManager
  unfolding try_json_session is_premium_error insert
  create_session now q m =
      start_session now q (try_json_session (engine (json_url q)) q.engine_host q.engine_port) m

  -- A session counts as live for 300 seconds after the last access.
  unfoldable pub get_or_create :
      ℕ → Start → AcestreamSessionManager → SessionResult AcestreamSession × AcestreamSessionManager
  unfolding create_session lookup insert
  get_or_create now q m = elim (lookup q.infohash m.sessions) [
    | none ↦ create_session now q m
    | some s ↦
        if not (is_stale now 300000 s)
        then (ok (touch now s), with_sessions (insert q.infohash (touch now s) m.sessions) m)
        else create_session now q m
  ]

-- `fetch_add(1)` and `fetch_sub(1)` wrap around.
abbrev pub with_count : ℕ → AcestreamSession → AcestreamSession
with_count n s = record s { client_count = n % 2 ^ 64 }

unfoldable pub increment_client : Bytes → AcestreamSessionManager → AcestreamSessionManager
unfolding lookup insert
increment_client infohash m = elim (lookup infohash m.sessions) [
  | none ↦ m
  | some s ↦ with_sessions (insert infohash (with_count (s.client_count + 1) s) m.sessions) m
]

abbrev pub schedule : DelayedStop → AcestreamSessionManager → AcestreamSessionManager
schedule task m = record m { delayed = task ∷ m.delayed }

abbrev pub last_release :
    ℕ → Bytes → AcestreamSession → AcestreamSessionManager → AcestreamSessionManager
last_release now infohash s m =
    schedule (record { infohash = infohash; command_url = s.command_url; due = now + 30000 })
      (with_sessions (remove infohash m.sessions) m)

-- The previous count is zero, above one, or one.
unfoldable pub release_client : ℕ → Bytes → AcestreamSessionManager → AcestreamSessionManager
unfolding lookup insert remove
release_client now infohash m = elim (lookup infohash m.sessions) [
  | none ↦ m
  | some s ↦
      let counted =
        with_sessions (insert infohash (with_count (s.client_count + (2 ^ 64 - 1)) s) m.sessions)
          m in
      if s.client_count == 0
      then counted
      else if ltb 1 s.client_count
      then counted
      else last_release now infohash s counted
]

abbrev pub stop_url : Bytes → Bytes
stop_url url =
    if contains_text url (ascii "?")
    then url ++ ascii "&method=stop"
    else url ++ ascii "?method=stop"

abbrev pub send_stop_command : Option Bytes → AcestreamSessionManager → AcestreamSessionManager
send_stop_command none m = m
send_stop_command (some url) m = record m { sent = stop_url url ∷ m.sent }

-- The delayed task, when its time has come.
unfoldable pub run_delayed_stop : DelayedStop → AcestreamSessionManager → AcestreamSessionManager
unfolding lookup
run_delayed_stop task m = elim (lookup task.infohash m.sessions) [
  | some _ ↦ m
  | none ↦ send_stop_command task.command_url m
]

unfoldable pub stop_session : Bytes → AcestreamSessionManager → AcestreamSessionManager
unfolding lookup remove
stop_session infohash m =
    send_stop_command (elim (lookup infohash m.sessions) [ none ↦ none | some s ↦ s.command_url ])
      (with_sessions (remove infohash m.sessions) m)

unfoldable pub invalidate : Bytes → AcestreamSessionManager → AcestreamSessionManager
unfolding remove
invalidate infohash m = with_sessions (remove infohash m.sessions) m

unfoldable pub is_infohash : Bytes → Bool
is_infohash s = length s == 40 && all is_hexdigit s
