-- ===== src/Acestream/Underflow.antt =====
-- Releases of a session without clients.
use mediaflow_proxy_light.Base.{ℕ, ◌-◌, ◌^◌, ◌≡◌, refl, sym, some, Bytes, lookup, bytes_eq}
use mathlib.Core.Path.{subst}
use mediaflow_proxy_light.Acestream.{
  AcestreamSession, AcestreamSessionManager, increment_client, release_client,
}
use mediaflow_proxy_light.Acestream.Clients.{lookup-inserted, increment-found, release-counted}

module _ (infohash : Bytes) (s : AcestreamSession) where
  HasCount : ℕ → AcestreamSessionManager → Type 0
  HasCount n m = lookup infohash m.sessions ≡ some (record s { client_count = n })

  release-zero :
      (t : ℕ) (m : AcestreamSessionManager)
      → HasCount 0 m
      → HasCount (2 ^ 64 - 1) (release_client t infohash m)
  unfolding HasCount
  release-zero t m h =
      subst (HasCount (2 ^ 64 - 1))
        (sym (release-counted t infohash m (record s { client_count = 0 }) h refl))
        (lookup-inserted infohash (record s { client_count = 2 ^ 64 - 1 }) m.sessions)

  increment-maximum :
      (m : AcestreamSessionManager)
      → HasCount (2 ^ 64 - 1) m
      → HasCount 0 (increment_client infohash m)
  unfolding HasCount
  increment-maximum m h =
      subst (HasCount 0)
        (sym (increment-found infohash m (record s { client_count = 2 ^ 64 - 1 }) h))
        (lookup-inserted infohash (record s { client_count = 0 }) m.sessions)

  -- A release at count zero leaves 2 ^ 64 - 1 behind: the next client's coming and leaving does not
  -- remove the session.
  pub release_client-wraps :
      (t t' : ℕ) (m : AcestreamSessionManager)
      → lookup infohash m.sessions ≡ some (record s { client_count = 0 })
      → lookup infohash
          (release_client t' infohash
            (increment_client infohash (release_client t infohash m))).sessions
        ≡ some (record s { client_count = 2 ^ 64 - 1 })
  unfolding HasCount
  release_client-wraps t t' m h = release-zero t' _ (increment-maximum _ (release-zero t m h))
