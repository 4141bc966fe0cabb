-- ===== src/Acestream/Clients.antt =====
-- The clients of one session, counted from the calls of `increment_client` and `release_client`.
use mediaflow_proxy_light.Base.{
  ℕ, zero, suc, ◌+◌, ◌-◌, ◌^◌, ◌%◌, ◌<◌, ◌≡◌, refl, sym, ap, ◌∙◌, false, List, [], ◌∷◌, none, some,
  ltb, ◌==◌, if◌then◌else◌, length, Bytes, lookup, insert, remove, lookup-insert, lookup-remove,
  bytes_eq, bytes_equal_iff, arith,
}
use mathlib.Core.Path.{subst}
use mediaflow_proxy_light.Acestream.{
  AcestreamSession, AcestreamSessionManager, DelayedStop, with_count, with_sessions, last_release,
  increment_client, release_client,
}

pub lookup-inserted :
    (k : Bytes) (s : AcestreamSession) (m : List (Bytes × AcestreamSession))
    → lookup k (insert k s m) ≡ some s
lookup-inserted k s m = ground (arith, lookup-insert k k s m, bytes_equal_iff k k)

pub lookup-removed :
    (k : Bytes) (m : List (Bytes × AcestreamSession)) → lookup k (remove k m) ≡ none
lookup-removed k m = ground (arith, lookup-remove k k m, bytes_equal_iff k k)

pub increment-absent :
    (k : Bytes) (m : AcestreamSessionManager)
    → lookup k m.sessions ≡ none
    → increment_client k m ≡ m
unfolding increment_client
increment-absent k m h = rw (h, increment_client) refl

pub increment-found :
    (k : Bytes) (m : AcestreamSessionManager) (s : AcestreamSession)
    → lookup k m.sessions ≡ some s
    → increment_client k m
      ≡ with_sessions (insert k (with_count (s.client_count + 1) s) m.sessions) m
unfolding increment_client
increment-found k m s h = rw (h, increment_client) refl

pub release-absent :
    (now : ℕ) (k : Bytes) (m : AcestreamSessionManager)
    → lookup k m.sessions ≡ none
    → release_client now k m ≡ m
unfolding release_client
release-absent now k m h = rw (h, release_client) refl

abbrev pub counted_down :
    Bytes → AcestreamSession → AcestreamSessionManager → AcestreamSessionManager
counted_down k s m =
    with_sessions (insert k (with_count (s.client_count + (2 ^ 64 - 1)) s) m.sessions) m

guards :
    (n : ℕ) (x y : AcestreamSessionManager)
    → (if n == 0 then x else if ltb 1 n then x else y) ≡ (if n == 1 then y else x)
guards n x y = ground arith

pub release-found :
    (now : ℕ) (k : Bytes) (m : AcestreamSessionManager) (s : AcestreamSession)
    → lookup k m.sessions ≡ some s
    → release_client now k m ≡ (
        if s.client_count == 1
        then last_release now k s (counted_down k s m)
        else counted_down k s m)
unfolding release_client
release-found now k m s h =
    rw (h, release_client)
      (guards s.client_count (counted_down k s m) (last_release now k s (counted_down k s m)))

pub release-counted :
    (now : ℕ) (k : Bytes) (m : AcestreamSessionManager) (s : AcestreamSession)
    → lookup k m.sessions ≡ some s
    → (s.client_count == 1) ≡ false
    → release_client now k m ≡ counted_down k s m
release-counted now k m s h e =
    release-found now k m s h
    ∙ ap (λ b. if b then last_release now k s (counted_down k s m) else counted_down k s m) e

-- A client that comes, and one that leaves at a time.
pub data Visit : Type 0 where
  attach : Visit
  detach : ℕ → Visit

abbrev pub visit : Bytes → Visit → AcestreamSessionManager → AcestreamSessionManager
visit infohash attach m = increment_client infohash m
visit infohash (detach now) m = release_client now infohash m

abbrev pub visit_all : Bytes → List Visit → AcestreamSessionManager → AcestreamSessionManager
visit_all infohash [] m = m
visit_all infohash (v ∷ vs) m = visit_all infohash vs (visit infohash v m)

-- How many clients there are, or when the last of them left.
pub data Attendance : Type 0 where
  present : ℕ → Attendance
  gone : ℕ → Attendance

abbrev pub attend : Visit → Attendance → Attendance
attend v (gone t) = gone t
attend attach (present n) = present (suc n)
attend (detach now) (present (suc zero)) = gone now
attend (detach now) (present (suc (suc n))) = present (suc n)
attend (detach now) (present zero) = present zero

abbrev pub attend_all : List Visit → Attendance → Attendance
attend_all [] a = a
attend_all (v ∷ vs) a = attend_all vs (attend v a)

-- No client leaves that has not come.
abbrev pub Accounted : List Visit → Attendance → Type 0
Accounted [] a = Unit
Accounted (v ∷ vs) (gone t) = Accounted vs (gone t)
Accounted (attach ∷ vs) (present n) = Accounted vs (present (suc n))
Accounted (detach now ∷ vs) (present zero) = ⊥
Accounted (detach now ∷ vs) (present (suc n)) = Accounted vs (attend (detach now) (present (suc n)))

abbrev pub attendance : Attendance → ℕ
attendance (present n) = n
attendance (gone t) = 0

attendance-detach : (now n : ℕ) → attendance (attend (detach now) (present (suc n))) ≡ n
attendance-detach now zero = refl
attendance-detach now (suc n) = refl

module _ (infohash : Bytes) (s : AcestreamSession) (delayed : List DelayedStop)
    (sent : List Bytes) where
  -- While clients are there the registry has the session with their number; afterwards it has none,
  -- and one stop command waits.
  abbrev pub Represents : Attendance → AcestreamSessionManager → Type 0
  Represents (present n) m =
      (lookup infohash m.sessions ≡ some (record s { client_count = n }))
      × (m.delayed ≡ delayed)
      × (m.sent ≡ sent)
  Represents (gone t) m =
      (lookup infohash m.sessions ≡ none)
      × (m.delayed
          ≡ (record { infohash = infohash; command_url = s.command_url; due = t + 30000 })
            ∷ delayed)
      × (m.sent ≡ sent)

  visit-gone :
      (v : Visit) (t : ℕ) (m : AcestreamSessionManager)
      → Represents (gone t) m
      → Represents (gone t) (visit infohash v m)
  visit-gone attach t m h = subst (Represents (gone t)) (sym (increment-absent infohash m h.0)) h
  visit-gone (detach now) t m h =
      subst (Represents (gone t)) (sym (release-absent now infohash m h.0)) h

  counted :
      (k n : ℕ) (m : AcestreamSessionManager)
      → k % 2 ^ 64 ≡ n
      → (m.delayed ≡ delayed) × (m.sent ≡ sent)
      → Represents (present n) (with_sessions (insert infohash (with_count k s) m.sessions) m)
  counted k n m e (d, w) = (
    lookup-inserted infohash (with_count k s) m.sessions
        ∙ ap (λ c. some (record s { client_count = c })) e,
    d,
    w,
  )

  attach-present :
      (n : ℕ) (m : AcestreamSessionManager)
      → suc n < 2 ^ 64
      → Represents (present n) m
      → Represents (present (suc n)) (increment_client infohash m)
  attach-present n m bound (found, d, w) =
      subst (Represents (present (suc n)))
        (sym (increment-found infohash m (record s { client_count = n }) found))
        (counted (n + 1) (suc n) m (omega arith) (d, w))

  detach-present :
      (now n : ℕ) (m : AcestreamSessionManager)
      → suc n < 2 ^ 64
      → Represents (present (suc n)) m
      → Represents (attend (detach now) (present (suc n))) (release_client now infohash m)
  detach-present now zero m bound (found, d, w) =
      subst (Represents (gone now))
        (sym (release-found now infohash m (record s { client_count = 1 }) found))
        (
          lookup-removed infohash _,
          ap
              (λ l.
                record { infohash = infohash; command_url = s.command_url; due = now + 30000 } ∷ l)
              d,
          w,
        )
  detach-present now (suc n) m bound (found, d, w) =
      subst (Represents (present (suc n)))
        (sym (
          release-counted now infohash m (record s { client_count = suc (suc n) }) found
            (ground arith)))
        (counted (suc (suc n) + (2 ^ 64 - 1)) (suc n) m (omega arith) (d, w))

  -- Of a session that the registry holds with n clients, and of every sequence of clients that come
  -- and leave in which none leaves that has not come, shorter than 2 ^ 64 with those n: the registry
  -- follows the count of clients. It holds the session with their number until the last one has
  -- left; then it holds none, and one stop command is due 30 seconds later.
  pub visit_all-Represents :
      (vs : List Visit) (a : Attendance) (m : AcestreamSessionManager)
      → Accounted vs a
      → attendance a + length vs < 2 ^ 64
      → Represents a m
      → Represents (attend_all vs a) (visit_all infohash vs m)
  visit_all-Represents [] a m ok bound h = h
  visit_all-Represents (v ∷ vs) (gone t) m ok bound h =
      visit_all-Represents vs (gone t) (visit infohash v m) ok (omega arith) (visit-gone v t m h)
  visit_all-Represents (attach ∷ vs) (present n) m ok bound h =
      visit_all-Represents vs (present (suc n)) (increment_client infohash m) ok (omega arith)
        (attach-present n m (omega arith) h)
  visit_all-Represents (detach now ∷ vs) (present zero) m ok bound h = elim ok [ ]
  visit_all-Represents (detach now ∷ vs) (present (suc n)) m ok bound h =
      visit_all-Represents vs (attend (detach now) (present (suc n)))
        (release_client now infohash m) ok (ground (arith, attendance-detach now n))
        (detach-present now n m (omega arith) h)
