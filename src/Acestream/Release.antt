-- ===== src/Acestream/Release.antt =====
-- What `get_or_create` returns and stores.
use mediaflow_proxy_light.Base.{
  ℕ, ◌-◌, ◌<◌, ◌≤◌, ◌≡◌, ◌≢◌, ◌⊎◌, inl, inr, refl, sym, ap, ◌∙◌, Bool, true, false, List, Option,
  none, some, if◌then◌else◌, Bytes, Bool-cases, Option-cases, lookup, insert, lookup-insert,
  bytes_eq, bytes_equal, bytes_equal_iff, arith,
}
use mathlib.Core.Path.{subst}
use mediaflow_proxy_light.Acestream.{
  AcestreamSession, AcestreamSessionManager, EngineReply, SessionResult, ok, err, Start, Addresses,
  with_sessions, get_or_create, create_session, start_session, put_session, new_session,
  free_addresses, touch, is_stale, is_premium_error, try_json_session, json_url,
}
use mediaflow_proxy_light.Acestream.Clients.{lookup-inserted}

-- The new session is in the registry without clients, in place of any earlier one; an error leaves
-- the registry as it was.
abbrev pub Created :
    Start
    → AcestreamSessionManager
    → SessionResult AcestreamSession × AcestreamSessionManager
    → Type 0
Created q m (ok s, m') =
    (lookup q.infohash m'.sessions ≡ some s)
    × (s.client_count ≡ 0)
    × (s.pid ≡ q.pid)
    × (m'.delayed ≡ m.delayed)
    × ((k : Bytes) → k ≢ q.infohash → lookup k m'.sessions ≡ lookup k m.sessions)
Created q m (err e, m') = m' ≡ m

unequal : (k j : Bytes) → j ≢ k → bytes_equal k j ≡ false
unequal k j h = elim (Bool-cases (bytes_equal k j)) [
  | inl e ↦ elim (h (sym ((bytes_equal_iff k j).0 e))) [ ]
  | inr e ↦ e
]

lookup-other :
    (k j : Bytes) (s : AcestreamSession) (m : List (Bytes × AcestreamSession))
    → j ≢ k
    → lookup j (insert k s m) ≡ lookup j m
lookup-other k j s m h =
    lookup-insert k j s m ∙ ap (λ b. if b then some s else lookup j m) (unequal k j h)

last_access_or : Option AcestreamSession → ℕ
last_access_or none = 0
last_access_or (some s) = s.last_access

pub put_session-Created :
    (now : ℕ) (q : Start) (a : Addresses) (free : Bool) (m : AcestreamSessionManager)
    → Created q m (put_session (new_session now q a free) m)
put_session-Created now q a free m = (
  lookup-inserted q.infohash (new_session now q a free) m.sessions,
  refl,
  refl,
  refl,
  (λ k ne. lookup-other q.infohash k (new_session now q a free) m.sessions ne),
)

start_session-Created :
    (now : ℕ) (q : Start) (r : SessionResult Addresses) (m : AcestreamSessionManager)
    → Created q m (start_session now q r m)
start_session-Created now q (ok a) m = put_session-Created now q a false m
start_session-Created now q (err e) m =
    elim (is_premium_error e)
      as (λ b.
        Created q m
          (if b then put_session (new_session now q (free_addresses q) true) m else (err e, m))) [
            | true ↦ put_session-Created now q (free_addresses q) true m
            | false ↦ refl
          ]

module _ (engine : Bytes → EngineReply) where
  pub get_or_create-stale :
      (now : ℕ) (q : Start) (m : AcestreamSessionManager) (s : AcestreamSession)
      → lookup q.infohash m.sessions ≡ some s
      → is_stale now 300000 s ≡ true
      → get_or_create engine now q m ≡ create_session engine now q m
  unfolding get_or_create
  get_or_create-stale now q m s h e = rw (h, get_or_create) (rw e refl)

  get_or_create-live :
      (now : ℕ) (q : Start) (m : AcestreamSessionManager) (s : AcestreamSession)
      → lookup q.infohash m.sessions ≡ some s
      → is_stale now 300000 s ≡ false
      → get_or_create engine now q m
        ≡ (ok (touch now s), with_sessions (insert q.infohash (touch now s) m.sessions) m)
  unfolding get_or_create
  get_or_create-live now q m s h e = rw (h, get_or_create) (rw e refl)

  pub get_or_create-absent :
      (now : ℕ) (q : Start) (m : AcestreamSessionManager)
      → lookup q.infohash m.sessions ≡ none
      → get_or_create engine now q m ≡ create_session engine now q m
  unfolding get_or_create
  get_or_create-absent now q m h = rw (h, get_or_create) refl

  pub create_session-Created :
      (now : ℕ) (q : Start) (m : AcestreamSessionManager)
      → Created q m (create_session engine now q m)
  unfolding create_session
  create_session-Created now q m =
      start_session-Created now q
        (try_json_session (engine (json_url q)) q.engine_host q.engine_port) m

  -- The session of the registry, touched, with its number of clients.
  abbrev pub Reused :
      ℕ
      → Start
      → AcestreamSessionManager
      → SessionResult AcestreamSession × AcestreamSessionManager
      → Type 0
  Reused now q m (r, m') =
      (s : AcestreamSession) × (lookup q.infohash m.sessions ≡ some s)
      × (now - s.last_access ≤ 300000)
      × (r ≡ ok (touch now s))
      × (lookup q.infohash m'.sessions ≡ some (touch now s))
      × ((k : Bytes) → k ≢ q.infohash → lookup k m'.sessions ≡ lookup k m.sessions)

  abbrev pub NoLive : ℕ → Start → AcestreamSessionManager → Type 0
  NoLive now q m =
      (s : AcestreamSession) → lookup q.infohash m.sessions ≡ some s → 300000 < now - s.last_access

  -- Of every registry and every answer of the engine: either the registry has a session that was
  -- used within 300 seconds, and this one is returned and touched; or it has none, and then it
  -- stores and returns a session without clients under the new pid, or returns an error and stays
  -- as it was. The sessions of other infohashes stay.
  pub get_or_create-Created :
      (now : ℕ) (q : Start) (m : AcestreamSessionManager)
      → Reused now q m (get_or_create engine now q m)
        ⊎ (NoLive now q m × Created q m (get_or_create engine now q m))
  unfolding last_access_or
  get_or_create-Created now q m = elim (Option-cases (lookup q.infohash m.sessions)) [
    | inl h ↦ inr (
      (λ s found. ground arith),
      subst (Created q m) (sym (get_or_create-absent now q m h)) (create_session-Created now q m),
    )
    | inr (s, h) ↦ elim (Bool-cases (is_stale now 300000 s)) [
      | inl e ↦ inr (
        (λ s' found. ground (arith, ap last_access_or (sym h ∙ found))),
        subst (Created q m) (sym (get_or_create-stale now q m s h e))
            (create_session-Created now q m),
      )
      | inr e ↦ inl (
          subst (Reused now q m) (sym (get_or_create-live now q m s h e)) (
            s,
            h,
            ground arith,
            refl,
            lookup-inserted q.infohash (touch now s) m.sessions,
            (λ k ne. lookup-other q.infohash k (touch now s) m.sessions ne),
          ))
    ]
  ]
