-- ===== src/Session/Renewal.antt =====
-- session.go: one token exchange per session, however many calls it fails.
use fleeting_plugin_vcd.Base.{
  none, some, ◌≤◌, ◌≢◌, false, Option-cases, Bool-cases, ℕ, ◌+◌, ◌%◌, ◌^◌, ◌<◌, ◌≡◌, refl, ◌⊎◌, inl,
  inr, String, true, false, Option, List, [], ◌∷◌, arith,
}
use fleeting_plugin_vcd.Session.{
  Session, Exchange, exchanges, relock, authenticate_locked, session_expired, locked, renew_locked,
  lock_session, get_vcd_client, refresh_session,
}

-- Calls that failed with 401 under the same generation, in the order in which they come to renew:
-- whether their context has ended, what the token exchange would answer, and when.
pub record Refresh : Type 0 where
  pub context : Option String
  pub token : Option String
  pub at : ℕ

unfoldable pub refresh_each : ℕ → List Refresh → Session → Session
refresh_each generation [] s = s
refresh_each generation (r ∷ rs) s =
    refresh_each generation rs (refresh_session r.context r.token r.at generation s).0

next_differs : (n : ℕ) → n < 2 ^ 64 → ((n + 1) % 2 ^ 64 ≡ n → ⊥)
next_differs n h e = omega (arith, e)

-- A session that another generation has replaced is left alone.
refresh_each-stale :
    (generation : ℕ) (rs : List Refresh) (s : Session)
    → (s.auth_generation ≡ generation → ⊥)
    → refresh_each generation rs s ≡ s
unfolding refresh_each refresh_session
refresh_each-stale generation [] s stale = refl
refresh_each-stale generation (r ∷ rs) s stale = ground (arith, refresh_each-stale generation rs s)

generation-refresh_session :
    (r : Refresh) (s : Session)
    → let t = (refresh_session r.context r.token r.at s.auth_generation s).0 in
      (t.auth_generation ≡ s.auth_generation)
      ⊎ (t.auth_generation ≡ (s.auth_generation + 1) % 2 ^ 64)
unfolding refresh_session authenticate_locked
generation-refresh_session r s = ground arith

-- However many calls fail with 401 under one session, and in whatever order they come to renew it,
-- the session is replaced at most once: the generation is the old one or the next.
pub refresh_each-once :
    (rs : List Refresh) (s : Session)
    → s.auth_generation < 2 ^ 64
    → ((refresh_each s.auth_generation rs s).auth_generation ≡ s.auth_generation)
      ⊎ ((refresh_each s.auth_generation rs s).auth_generation ≡ (s.auth_generation + 1) % 2 ^ 64)
unfolding refresh_each refresh_session
refresh_each-once [] s h = ground arith
refresh_each-once (r ∷ rs) s h =
    let t = (refresh_session r.context r.token r.at s.auth_generation s).0 in
    elim (generation-refresh_session r s) [
      | inl same ↦ ground (arith, same, refresh_each-once rs t)
      | inr renewed ↦ ground (
        arith,
        renewed,
        next_differs s.auth_generation h,
        refresh_each-stale s.auth_generation rs t,
      )
    ]

-- The exchanges come from a time on.
abbrev pub AreSince : ℕ → List Exchange → Type 0
AreSince now [] = Unit
AreSince now (x ∷ xs) = (now ≤ x.at) × AreSince now xs

-- One of the exchanges fails.
abbrev pub AnyFails : List Exchange → Type 0
AnyFails [] = ⊥
AnyFails (x ∷ xs) = (x.token ≢ none) ⊎ AnyFails xs

exchange-valid :
    (now : ℕ) (x : Exchange) (s : Session)
    → now ≤ x.at
    → (session_expired now (authenticate_locked x.token x.at s).0 ≡ false) ⊎ (x.token ≢ none)
unfolding authenticate_locked session_expired
exchange-valid now x s since = elim (Option-cases x.token) [
  | inl given ↦ rw given (inl (ground (arith, since)))
  | inr (e, fails) ↦ inr (λ h. ground (arith, h, fails))
]

exchanges-valid :
    (now : ℕ) (later : List Exchange) (s : Session)
    → AreSince now later
    → session_expired now s ≡ false
    → (session_expired now (exchanges later s) ≡ false) ⊎ AnyFails later
unfolding exchanges
exchanges-valid now [] s since valid = inl valid
exchanges-valid now (x ∷ later) s since valid = elim (exchange-valid now x s since.0) [
  | inr fails ↦ inr (inl fails)
  | inl renewed ↦
      elim (exchanges-valid now later (authenticate_locked x.token x.at s).0 since.1 renewed) [
        | inl kept ↦ inl kept
        | inr fails ↦ inr (inr fails)
      ]
]

renew_locked-valid :
    (token : Option String) (now : ℕ) (s : Session)
    → (renew_locked token now s).1 ≡ none
    → session_expired now (renew_locked token now s).0 ≡ false
unfolding renew_locked authenticate_locked session_expired
renew_locked-valid token now s ok = ground (arith, ok)

relock-valid :
    (now : ℕ) (later : List Exchange) (x : Session × Option String) (g : ℕ)
    → AreSince now later
    → (x.1 ≡ none → session_expired now x.0 ≡ false)
    → (relock later x).1 ≡ locked g
    → ((session_expired now (relock later x).0 ≡ false) ⊎ AnyFails later)
      × ((relock later x).0.auth_generation ≡ g)
unfolding relock
relock-valid now later (s, some error) g since valid e = absurd (ground (arith, e))
relock-valid now later (s, none) g since valid e =
    (exchanges-valid now later s since (valid refl), ground (arith, e))

-- When `lockSession` lets a call through on a connected session, whatever other goroutines did before it
-- took the write lock, the generation is the session's, and the session has not expired at that
-- time unless a token exchange of another goroutine failed between the write lock and the
-- second read lock, where no exchange is timed earlier.
pub lock_session-valid :
    (context token : Option String) (others : Session → Session) (later : List Exchange) (now : ℕ)
    (s : Session) (g : ℕ)
    → s.connected ≡ true
    → AreSince now later
    → (lock_session context token others later now s).1 ≡ locked g
    → ((session_expired now (lock_session context token others later now s).0 ≡ false)
        ⊎ AnyFails later)
      × ((lock_session context token others later now s).0.auth_generation ≡ g)
unfolding lock_session
lock_session-valid (some error) token others later now s g c since e = absurd (ground (arith, e))
lock_session-valid none token others later now s g c since e =
    elim (Bool-cases (session_expired now s)) [
      | inr valid ↦ ground (arith, c, valid, e)
      | inl expired ↦
          let relocked : lock_session none token others later now s
              ≡ relock later (renew_locked token now (others s)) =
            rw (c, expired, lock_session) refl in
          rw relocked (
            relock-valid now later (renew_locked token now (others s)) g since
              (renew_locked-valid token now (others s)) (rw relocked at e))
    ]

-- When `getVCDClient` gives a client, whatever other goroutines did in between, the session is
-- connected and has not expired at that time.
pub get_vcd_client-valid :
    (login token : Option String) (others : Session → Session) (now : ℕ) (s : Session)
    → (get_vcd_client login token others now s).1 ≡ none
    → ((get_vcd_client login token others now s).0.connected ≡ true)
      × (session_expired now (get_vcd_client login token others now s).0 ≡ false)
unfolding get_vcd_client authenticate_locked session_expired
get_vcd_client-valid login token others now s e = ground (arith, e)
