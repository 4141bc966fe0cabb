-- ===== src/Acestream/FreeMode.antt =====
-- Sessions of an engine that answers with an error.
use mediaflow_proxy_light.Base.{
  ℕ, ◌≡◌, refl, ap, ◌∙◌, true, ◌++◌, Option, none, some, if◌then◌else◌, Bytes, lookup, bytes_eq,
  ascii,
}
use mediaflow_proxy_light.Acestream.{
  AcestreamSession, AcestreamSessionManager, EngineReply, answered, EngineResponse, ok, err, Start,
  get_or_create, create_session, start_session, put_session, is_premium_error, try_json_session,
  json_url, free_addresses, engine_url, new_session,
}
use mediaflow_proxy_light.Acestream.Release.{Created, put_session-Created, get_or_create-absent}

premium_text : (e : Bytes) → is_premium_error (ascii "premium:" ++ e) ≡ true
unfolding is_premium_error
premium_text e = refl

named_error :
    (now : ℕ) (q : Start) (m : AcestreamSessionManager) (e : Bytes)
    (response : Option EngineResponse)
    → start_session now q
        (try_json_session (answered (some e) response) q.engine_host q.engine_port)
        m
      ≡ put_session (new_session now q (free_addresses q) true) m
unfolding try_json_session
named_error now q m e response =
    ap
      (λ b.
        if b
        then put_session (new_session now q (free_addresses q) true) m
        else (err (ascii "premium:" ++ e), m))
      (premium_text e)

module _ (engine : Bytes → EngineReply) where
  -- If the engine answers with an error of its own, whatever its text, a registry without a session
  -- for the infohash stores and returns one that is marked as free, without clients and under the
  -- new pid, with the stop command and the state address of that pid; its other sessions stay, and
  -- no error is returned.
  pub get_or_create-free_mode :
      (now : ℕ) (q : Start) (m : AcestreamSessionManager) (e : Bytes)
      (response : Option EngineResponse)
      → lookup q.infohash m.sessions ≡ none
      → engine (json_url q) ≡ answered (some e) response
      → (s : AcestreamSession) × (m' : AcestreamSessionManager) × (get_or_create engine now q m
          ≡ (ok s, m'))
        × (s.is_free_mode ≡ true)
        × (s.command_url ≡ some (engine_url q ++ ascii "/ace/cmd?pid=" ++ q.pid))
        × (s.stat_url ≡ some (engine_url q ++ ascii "/ace/stat/" ++ q.pid))
        × Created q m (ok s, m')
  unfolding create_session
  get_or_create-free_mode now q m e response absent reply =
      let s = new_session now q (free_addresses q) true in
      (
        s,
        (put_session s m).1,
        get_or_create-absent engine now q m absent
            ∙ ap (λ r. start_session now q (try_json_session r q.engine_host q.engine_port) m) reply
            ∙ named_error now q m e response,
        refl,
        refl,
        refl,
        put_session-Created now q (free_addresses q) true m,
      )
