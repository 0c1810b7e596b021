-- ===== src/Session.antt =====
-- session.go: the vCD session that all calls share, and its renewal. `SetToken` and the context
-- answer with an error or none, which is an argument; `clientMu` makes each part that runs
-- under it one step. `time.Time{}` is `none`, whose age exceeds every interval.
pub mod Renewal
use fleeting_plugin_vcd.Base.{
  ℕ, ◌+◌, ◌*◌, ◌%◌, ◌^◌, leb, ◌==◌, if◌then◌else◌, String, Bool, true, false, not, ◌&&◌, ◌||◌,
  Option, none, some, List, [], ◌∷◌,
}
use fleeting_plugin_vcd.Store.Ops.{minute}

abbrev pub hour : ℕ
hour = 60 * minute

abbrev pub default_session_refresh_interval : ℕ
default_session_refresh_interval = 20 * hour

-- The fields of `InstanceGroup` that hold the session; `connected` is `vcdClient != nil`, and an
-- interval of 0 stands for every one that is not positive.
pub record Session : Type 0 where
  pub connected : Bool
  pub last_authenticated : Option ℕ
  pub auth_generation : ℕ
  pub session_refresh_interval : ℕ

-- `authenticateLocked`, with what `setVCDToken` answers. The generation is a uint64.
unfoldable pub authenticate_locked : Option String → ℕ → Session → Session × Option String
authenticate_locked (some error) now s = (record s { last_authenticated = none }, some error)
authenticate_locked none now s = (
  record s { last_authenticated = some now; auth_generation = (s.auth_generation + 1) % 2 ^ 64 },
  none,
)

-- `sessionExpired`
unfoldable pub session_expired : ℕ → Session → Bool
session_expired now s =
    let interval =
      if s.session_refresh_interval == 0
      then default_session_refresh_interval
      else s.session_refresh_interval in
    elim s.last_authenticated [ none ↦ true | some t ↦ leb (t + interval) now ]

-- How `lockSession` ends.
pub data Locked : Type 0 where
  refused : String → Locked
  locked : ℕ → Locked

-- The part of `lockSession` under the write lock, and its error.
unfoldable pub renew_locked : Option String → ℕ → Session → Session × Option String
unfolding session_expired authenticate_locked
renew_locked token now s =
    if session_expired now s then authenticate_locked token now s else (s, none)

-- What other goroutines do to a connected session: a token exchange, with its answer and its time.
pub record Exchange : Type 0 where
  pub token : Option String
  pub at : ℕ

unfoldable pub exchanges : List Exchange → Session → Session
unfolding authenticate_locked
exchanges [] s = s
exchanges (x ∷ xs) s = exchanges xs (authenticate_locked x.token x.at s).0

-- The end of `lockSession`: the read lock is taken again, `later` being the exchanges between the write
-- lock and it.
unfoldable pub relock : List Exchange → Session × Option String → Session × Locked
unfolding exchanges
relock later (s, some error) = (s, refused error)
relock later (s, none) = let t = exchanges later s in (t, locked t.auth_generation)

-- `lockSession`; `others` is what other goroutines do to the session between the read lock and the
-- write lock, and `later` between the write lock and the second read lock.
unfoldable pub lock_session :
    Option String
    → Option String
    → (Session → Session)
    → List Exchange
    → ℕ
    → Session
    → Session × Locked
unfolding renew_locked relock
lock_session (some error) token others later now s = (s, refused error)
lock_session none token others later now s =
    if not s.connected || not (session_expired now s)
    then (s, locked s.auth_generation)
    else relock later (renew_locked token now (others s))

-- `refreshSession`
unfoldable pub refresh_session :
    Option String → Option String → ℕ → ℕ → Session → Session × Option String
unfolding authenticate_locked
refresh_session (some error) token now generation s = (s, some error)
refresh_session none token now generation s =
    if not s.connected
    then (s, some "cannot renew VCD session before authentication")
    else if not (s.auth_generation == generation)
    then (s, none)
    else authenticate_locked token now s

-- `getVCDClient`: the first client, which `login` answers for, or a renewal; `others` is what other
-- goroutines do to the session between the two locks.
unfoldable pub get_vcd_client :
    Option String → Option String → (Session → Session) → ℕ → Session → Session × Option String
unfolding session_expired authenticate_locked
get_vcd_client login token others now s =
    let t = others s in
    if s.connected && not (session_expired now s)
    then (s, none)
    else if not t.connected
    then elim login [
      | some e ↦ (t, some e)
      | none ↦ (
        record t {
          connected = true;
          last_authenticated = some now;
          auth_generation = (t.auth_generation + 1) % 2 ^ 64;
        },
        none,
      )
    ]
    else if session_expired now t
    then authenticate_locked token now t
    else (t, none)
