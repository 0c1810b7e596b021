-- ===== src/Config/Limits.antt =====
-- config.go, reconciler.go: the limits and timeouts that the reconciler starts with.
use fleeting_plugin_vcd.Base.{
  ℕ, zero, suc, ◌*◌, ◌<◌, ◌≡◌, refl, subst, inl, inr, String, Bool, true, Option, some, arith,
  Option-cases,
}
use fleeting_plugin_vcd.Config.{
  default_max_concurrent_creates, default_max_concurrent_deletes, default_max_concurrent_operations,
  pos, negsuc, ℤ, or_default, Plugin, duration_or, below_a_day, Populated, populate, with_defaults,
  reconciler_config, default_max_instance_age, default_session_refresh_interval,
  default_create_timeout, default_startup_cleanup_timeout,
}
use fleeting_plugin_vcd.Session.{hour}

duration_or-positive :
    (parse : String → Option ℤ) (text : String) (default_value d : ℕ)
    → 0 < default_value
    → duration_or parse text default_value ≡ some d
    → 0 < d
unfolding duration_or
duration_or-positive parse text default_value d h e = ground (arith, e)

pub below_a_day-bound :
    (o : Option ℕ) (d : ℕ) → below_a_day o ≡ some d → (o ≡ some d) × (d < 24 * hour)
unfolding below_a_day
below_a_day-bound o d e = ground (arith, e)

or_default-positive : (z : ℤ) (d : ℕ) → 0 < d → 0 < or_default z d
unfolding or_default
or_default-positive (pos zero) d h = h
or_default-positive (pos (suc n)) d h = omega arith
or_default-positive (negsuc n) d h = h

or_default-pos : (n d : ℕ) → 0 < n → or_default (pos n) d ≡ n
unfolding or_default
or_default-pos zero d h = omega (arith, h)
or_default-pos (suc n) d h = refl

-- The session's interval, below a day.
abbrev pub interval_of : (String → Option ℤ) → Plugin → Option ℕ
interval_of parse g =
    below_a_day (duration_or parse g.session_refresh_interval default_session_refresh_interval)

-- What `populate` sets, once the durations are known.
abbrev pub set_by : Plugin → ℕ → ℕ → ℕ → Populated
set_by g interval create cleanup = record {
  refresh_interval = interval;
  create_limit = create;
  cleanup_limit = cleanup;
  creates = or_default g.max_concurrent_creates default_max_concurrent_creates;
  deletes = or_default g.max_concurrent_deletes default_max_concurrent_deletes;
  operations = or_default g.max_concurrent_operations default_max_concurrent_operations;
}

-- The session interval is above 0 and below a day, the limits are above 0, and the reconciler
-- starts with these limits and this cleanup timeout, and with the default age.
abbrev pub IsStarted : Populated → Type 0
IsStarted p =
    (0 < p.refresh_interval)
    × (p.refresh_interval < 24 * hour)
    × (0 < p.create_limit)
    × (with_defaults (reconciler_config p) ≡ record {
      max_concurrent_creates = p.creates;
      max_concurrent_deletes = p.deletes;
      max_concurrent_operations = p.operations;
      max_instance_age = default_max_instance_age;
      startup_cleanup_timeout = p.cleanup_limit;
    })
    × (0 < p.creates)
    × (0 < p.deletes)
    × (0 < p.operations)

Populated-positive :
    (is_url : String → Bool) (parse : String → Option ℤ) (g : Plugin) (p : Populated)
    (interval create cleanup : ℕ)
    → interval_of parse g ≡ some interval
    → duration_or parse g.create_timeout default_create_timeout ≡ some create
    → duration_or parse g.startup_cleanup_timeout default_startup_cleanup_timeout ≡ some cleanup
    → set_by g interval create cleanup ≡ p
    → IsStarted p
unfolding with_defaults reconciler_config
Populated-positive is_url parse g p interval create cleanup some_1 some_2 some_3 at_p =
    let (given, below) = below_a_day-bound _ interval some_1 in
    let pos_1 =
      duration_or-positive parse g.session_refresh_interval _ interval (omega arith) given in
    let pos_2 = duration_or-positive parse g.create_timeout _ create (omega arith) some_2 in
    let pos_3 =
      duration_or-positive parse g.startup_cleanup_timeout _ cleanup (omega arith) some_3 in
    let c =
      or_default-positive g.max_concurrent_creates default_max_concurrent_creates (omega arith) in
    let d =
      or_default-positive g.max_concurrent_deletes default_max_concurrent_deletes (omega arith) in
    let o =
      or_default-positive g.max_concurrent_operations default_max_concurrent_operations
        (omega arith) in
    subst IsStarted at_p (
      pos_1,
      below,
      pos_2,
      rw
          (
            or_default-pos _ default_max_concurrent_creates c,
            or_default-pos _ default_max_concurrent_deletes d,
            or_default-pos _ default_max_concurrent_operations o,
            or_default-pos cleanup default_startup_cleanup_timeout pos_3,
          )
          refl,
      c,
      d,
      o,
    )

-- What `populate` sets comes from the three durations that it reads.
pub populate-set_by :
    (is_url : String → Bool) (parse : String → Option ℤ) (g : Plugin) (p : Populated)
    → populate is_url parse g ≡ some p
    → (interval create cleanup : ℕ) × (interval_of parse g ≡ some interval)
      × (duration_or parse g.create_timeout default_create_timeout ≡ some create)
      × (duration_or parse g.startup_cleanup_timeout default_startup_cleanup_timeout ≡ some cleanup)
      × (set_by g interval create cleanup ≡ p)
      × (is_url g.str_url ≡ true)
unfolding populate
populate-set_by is_url parse g p e = elim (Option-cases (interval_of parse g)) [
  | inl none_1 ↦ absurd (ground (arith, e, none_1))
  | inr (interval, some_1) ↦
      elim (Option-cases (duration_or parse g.create_timeout default_create_timeout)) [
        | inl none_2 ↦ absurd (ground (arith, e, some_1, none_2))
        | inr (create, some_2) ↦
            elim (Option-cases
              (duration_or parse g.startup_cleanup_timeout default_startup_cleanup_timeout)) [
                | inl none_3 ↦ absurd (ground (arith, e, some_1, some_2, none_3))
                | inr (cleanup, some_3) ↦ (
                  interval,
                  create,
                  cleanup,
                  some_1,
                  some_2,
                  some_3,
                  ground (arith, e, some_1, some_2, some_3),
                  ground (arith, e, some_1, some_2, some_3),
                )
              ]
      ]
]

-- What `populate` accepts has a session interval above 0 and below a day, and timeouts and limits
-- above 0; the reconciler then starts with these limits and this cleanup timeout, and
-- with the default age.
pub populate-positive :
    (is_url : String → Bool) (parse : String → Option ℤ) (g : Plugin) (p : Populated)
    → populate is_url parse g ≡ some p
    → IsStarted p
populate-positive is_url parse g p e =
    let (interval, create, cleanup, some_1, some_2, some_3, at_p, _) =
      populate-set_by is_url parse g p e in
    Populated-positive is_url parse g p interval create cleanup some_1 some_2 some_3 at_p
