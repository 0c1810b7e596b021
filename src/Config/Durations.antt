-- ===== src/Config/Durations.antt =====
-- config.go: which durations `populate` accepts.
use fleeting_plugin_vcd.Base.{
  ℕ, suc, ◌*◌, ◌<◌, leb, ◌≡◌, refl, ◌↔◌, ◌⊎◌, inl, inr, String, str_eq, Bool, true, false, Option,
  some, arith, eq_iff, Bool-cases,
}
use fleeting_plugin_vcd.Config.{
  ℤ, pos, Plugin, duration_or, below_a_day, Populated, populate, default_session_refresh_interval,
  default_create_timeout, default_startup_cleanup_timeout,
}
use fleeting_plugin_vcd.Config.Limits.{populate-set_by, set_by, interval_of, below_a_day-bound}
use fleeting_plugin_vcd.Session.{hour}

-- A text that stands for a default or for a duration above 0.
abbrev pub IsDuration : (String → Option ℤ) → String → Type 0
IsDuration parse text = (text ≡ "") ⊎ ((n : ℕ) × (parse text ≡ some (pos (suc n))))

-- The same for the session: below a day.
abbrev pub IsInterval : (String → Option ℤ) → String → Type 0
IsInterval parse text =
    (text ≡ "") ⊎ ((n : ℕ) × (parse text ≡ some (pos (suc n))) × (suc n < 24 * hour))

-- The durations of a configuration that `populate` accepts.
abbrev pub HasDurations : (String → Option ℤ) → Plugin → Type 0
HasDurations parse g =
    IsDuration parse g.create_timeout
    × IsDuration parse g.startup_cleanup_timeout
    × IsInterval parse g.session_refresh_interval

duration_or-some :
    (parse : String → Option ℤ) (text : String) (default_value d : ℕ)
    → duration_or parse text default_value ≡ some d
    → ((text ≡ "") × (d ≡ default_value))
      ⊎ ((n : ℕ) × (d ≡ suc n) × (parse text ≡ some (pos (suc n))))
unfolding duration_or
duration_or-some parse text default_value d h = ground (arith, h, eq_iff text "")

duration_or-given :
    (parse : String → Option ℤ) (text : String) (default_value : ℕ)
    → IsDuration parse text
    → (d : ℕ) × (duration_or parse text default_value ≡ some d)
unfolding duration_or
duration_or-given parse text default_value (inl empty) =
    (default_value, ground (arith, empty, eq_iff text ""))
duration_or-given parse text default_value (inr (n, read)) = elim (Bool-cases (str_eq text "")) [
  | inl empty ↦ (default_value, rw empty refl)
  | inr given ↦ (suc n, rw (given, read) refl)
]

interval-given :
    (parse : String → Option ℤ) (g : Plugin)
    → IsInterval parse g.session_refresh_interval
    → (d : ℕ) × (interval_of parse g ≡ some d)
unfolding duration_or below_a_day
interval-given parse g (inl empty) =
    (default_session_refresh_interval, ground (arith, empty, eq_iff g.session_refresh_interval ""))
interval-given parse g (inr (n, read, below)) =
    elim (Bool-cases (str_eq g.session_refresh_interval "")) [
      | inl empty ↦ (default_session_refresh_interval, rw empty refl)
      | inr given ↦
          let short : leb (24 * hour) (suc n) ≡ false = ground (arith, below) in
          (suc n, rw (given, read, short) refl)
    ]

duration_or-IsDuration :
    (parse : String → Option ℤ) (text : String) (default_value d : ℕ)
    → duration_or parse text default_value ≡ some d
    → IsDuration parse text
duration_or-IsDuration parse text default_value d h =
    elim (duration_or-some parse text default_value d h) [
      | inl (empty, _) ↦ inl empty
      | inr (n, _, read) ↦ inr (n, read)
    ]

interval_of-IsInterval :
    (parse : String → Option ℤ) (g : Plugin) (d : ℕ)
    → interval_of parse g ≡ some d
    → IsInterval parse g.session_refresh_interval
interval_of-IsInterval parse g d h =
    let (set, below) = below_a_day-bound _ d h in
    elim (duration_or-some parse g.session_refresh_interval default_session_refresh_interval d
      set) [
        | inl (empty, _) ↦ inl empty
        | inr (n, same, read) ↦ inr (n, read, omega (arith, same, below))
      ]

-- `populate` sets limits exactly if each duration is acceptable and the URL parses.
pub populate-HasDurations :
    (is_url : String → Bool) (parse : String → Option ℤ) (g : Plugin)
    → ((p : Populated) × (populate is_url parse g ≡ some p))
      ↔ (HasDurations parse g × (is_url g.str_url ≡ true))
unfolding populate
populate-HasDurations is_url parse g = (
  λ (p, h).
      let (interval, create, cleanup, some_1, some_2, some_3, _, url) =
        populate-set_by is_url parse g p h in
      (
        (
          duration_or-IsDuration parse g.create_timeout default_create_timeout create some_2,
          duration_or-IsDuration parse g.startup_cleanup_timeout default_startup_cleanup_timeout
              cleanup some_3,
          interval_of-IsInterval parse g interval some_1,
        ),
        url,
      ),
  λ ((create_ok, cleanup_ok, interval_ok), url).
      let (interval, some_1) = interval-given parse g interval_ok in
      let (create, some_2) =
        duration_or-given parse g.create_timeout default_create_timeout create_ok in
      let (cleanup, some_3) =
        duration_or-given parse g.startup_cleanup_timeout default_startup_cleanup_timeout
          cleanup_ok in
      (set_by g interval create cleanup, rw (some_1, populate, some_2, some_3, url) refl),
)
