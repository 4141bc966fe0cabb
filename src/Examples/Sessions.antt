-- ===== src/Examples/Sessions.antt =====
-- Ace Stream sessions: one shared by clients, one refused by the engine.
use mediaflow_proxy_light.Base.{
  ◌≡◌, ◌⊎◌, ◌++◌, refl, true, false, List, [], ◌∷◌, none, some, Bytes, ascii, lookup, bytes_eq,
  arith,
}
use mediaflow_proxy_light.Acestream.{
  AcestreamSession, AcestreamSessionManager, EngineReply, answered, ok, Start, get_or_create,
  engine_url,
}
use mediaflow_proxy_light.Acestream.Clients.{
  Represents, present, attach, detach, Visit, visit_all, attend_all, visit_all-Represents,
}
use mediaflow_proxy_light.Acestream.Release.{Reused, NoLive, Created, get_or_create-Created}
use mediaflow_proxy_light.Acestream.FreeMode.{get_or_create-free_mode}

abbrev hash : Bytes
hash = ascii "ab"

abbrev session : AcestreamSession
session = record {
  infohash = hash;
  pid = ascii "p";
  playback_url = ascii "u";
  command_url = none;
  stat_url = none;
  playback_session_id = none;
  is_live = true;
  is_free_mode = false;
  created_at = 0;
  last_access = 0;
  client_count = 0;
}

abbrev registry : AcestreamSessionManager
registry = record { sessions = (hash, session) ∷ []; delayed = []; sent = [] }

abbrev visits : List Visit
visits = attach ∷ attach ∷ detach 5 ∷ detach 9 ∷ []

registry-Represents : Represents hash session [] [] (present 0) registry
unfolding lookup
registry-Represents = (refl, refl, refl)

visit_all-Represents_example :
    Represents hash session [] [] (attend_all visits (present 0)) (visit_all hash visits registry)
visit_all-Represents_example =
    visit_all-Represents hash session [] [] visits (present 0) registry tt (omega arith)
      registry-Represents

abbrev start : Start
start = record {
  engine_host = ascii "h";
  engine_port = 6878;
  infohash = hash;
  content_id = none;
  access_token = none;
  pid = ascii "q";
}

-- An engine that refuses every request.
abbrev refusing : Bytes → EngineReply
refusing url = answered (some (ascii "busy")) none

get_or_create-Created_example :
    Reused refusing 1000 start registry (get_or_create refusing 1000 start registry)
    ⊎ (NoLive refusing 1000 start registry
        × Created start registry (get_or_create refusing 1000 start registry))
get_or_create-Created_example = get_or_create-Created refusing 1000 start registry

abbrev empty : AcestreamSessionManager
empty = record { sessions = []; delayed = []; sent = [] }

empty-absent : lookup hash empty.sessions ≡ none
unfolding lookup
empty-absent = refl

get_or_create-free_mode_example :
    (s : AcestreamSession) × (m' : AcestreamSessionManager) × (get_or_create refusing 7 start empty
      ≡ (ok s, m'))
    × (s.is_free_mode ≡ true)
    × (s.command_url ≡ some (engine_url start ++ ascii "/ace/cmd?pid=" ++ start.pid))
    × (s.stat_url ≡ some (engine_url start ++ ascii "/ace/stat/" ++ start.pid))
    × Created start empty (ok s, m')
get_or_create-free_mode_example =
    get_or_create-free_mode refusing 7 start empty (ascii "busy") none empty-absent refl
