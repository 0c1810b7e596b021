-- ===== src/Provider/Init/Starts.antt =====
-- provider.go: which configurations `Init` accepts, and the bounds of the program that it starts.
use fleeting_plugin_vcd.Base.{
  ℕ, ◌+◌, ◌≤◌, ◌<◌, ◌≡◌, refl, subst, ◌≢◌, ◌↔◌, ◌⊎◌, inl, inr, String, str_eq, Bool, true, Option,
  none, some, List, [], ◌∷◌, arith, eq_iff, Bool-cases, Option-cases, sym, ◌∙◌,
}
use fleeting_plugin_vcd.Backoff.{Backoff}
use fleeting_plugin_vcd.Config.{
  ℤ, or_default, default_max_concurrent_creates, default_max_concurrent_deletes,
  default_max_concurrent_operations, Plugin, ConfigError, validate, Populated, populate,
  with_defaults, reconciler_config,
}
use fleeting_plugin_vcd.Config.Checks.{IsComplete, LacksCredentials, validate-exact}
use fleeting_plugin_vcd.Config.Durations.{HasDurations, populate-HasDurations}
use fleeting_plugin_vcd.Config.Limits.{populate-set_by, populate-positive}
use fleeting_plugin_vcd.Provider.Init.{Started, Initialised, refused, started, start, accept, init}
use fleeting_plugin_vcd.Reconciler.{Reconciler, new_reconciler}
use fleeting_plugin_vcd.Reconciler.Slots.Reach.{operations_bounded}
use fleeting_plugin_vcd.Reconciler.Steps.{Steps, running_creates, running_deletes}
use fleeting_plugin_vcd.Semaphore.{Semaphore, IsSemaphore}
use fleeting_plugin_vcd.Store.{new_store}

-- `validate` changes nothing that `populate` reads.
populate-validate :
    (is_url : String → Bool) (parse : String → Option ℤ) (g : Plugin)
    → populate is_url parse (validate is_url g).0 ≡ populate is_url parse g
unfolding validate populate
populate-validate is_url parse g = elim (Bool-cases (str_eq g.protocol "")) [
  | inl empty ↦ rw empty refl
  | inr given ↦ rw given refl
]

static-validate :
    (is_url : String → Bool) (g : Plugin)
    → (validate is_url g).0.use_static_credentials ≡ g.use_static_credentials
unfolding validate
static-validate is_url g = elim (Bool-cases (str_eq g.protocol "")) [
  | inl empty ↦ rw empty refl
  | inr given ↦ rw given refl
]

-- The limits are the configured ones, with the defaults for those that are not above 0.
abbrev AreLimits : Plugin → ℕ → ℕ → ℕ → Type 0
AreLimits g c d o =
    (c ≡ or_default g.max_concurrent_creates default_max_concurrent_creates)
    × (d ≡ or_default g.max_concurrent_deletes default_max_concurrent_deletes)
    × (o ≡ or_default g.max_concurrent_operations default_max_concurrent_operations)

populate-AreLimits :
    (is_url : String → Bool) (parse : String → Option ℤ) (g : Plugin) (p : Populated)
    → populate is_url parse g ≡ some p
    → AreLimits g p.creates p.deletes p.operations
populate-AreLimits is_url parse g p e =
    let (interval, create, cleanup, _, _, _, at_p, _) = populate-set_by is_url parse g p e in
    subst (λ q. AreLimits g q.creates q.deletes q.operations) at_p (refl, refl, refl)

-- Static credentials are asked for and given.
abbrev pub HasStaticCredentials : Plugin → Type 0
HasStaticCredentials g = (g.use_static_credentials ≡ true) × ((g.password ≢ "") ⊎ (g.key ≢ none))

HasStaticCredentials-iff :
    (g : Plugin)
    → ((g.use_static_credentials ≡ true) × ¬ LacksCredentials g) ↔ HasStaticCredentials g
HasStaticCredentials-iff g = (
  λ (asked, has). (
    asked,
    elim (Bool-cases (str_eq g.password "")) [
      | inl empty ↦
          let blank = (eq_iff g.password "").0 empty in inr (λ no_key. has (asked, blank, no_key))
      | inr given ↦ inl (λ e. ground (arith, given, e, eq_iff g.password ""))
    ],
  ),
  λ (asked, has).
      (asked, λ (_, blank, no_key). elim has [ inl given ↦ given blank | inr key ↦ key no_key ]),
)

module _ (m : Semaphore) (tb cb : Backoff) (is_url : String → Bool)
    (parse : String → Option ℤ) where
  -- What a successful end of `Init` says of the plugin and the errors that `validate` left.
  abbrev Fits : ℕ → Plugin × List ConfigError → Initialised m tb cb → Type 0
  Fits now v (refused e) = Unit
  Fits now v (started s) =
      (v.1 ≡ [])
      × (v.0.use_static_credentials ≡ true)
      × (populate is_url parse v.0 ≡ some s.populated)
      × (s.reconciler
          ≡ new_reconciler m tb cb (with_defaults (reconciler_config s.populated)) new_store now)

  start-Fits :
      (now : ℕ) (g : Plugin) (p : Populated)
      → populate is_url parse g ≡ some p
      → Fits now (g, []) (start m tb cb g now p)
  unfolding start populate
  start-Fits now g p set = elim (Bool-cases g.use_static_credentials) [
    | inl static ↦ rw static (refl, refl, set, refl)
    | inr dynamic ↦ rw dynamic tt
  ]

  accept-Fits :
      (now : ℕ) (v : Plugin × List ConfigError) → Fits now v (accept m tb cb is_url parse now v)
  unfolding accept
  accept-Fits now (g, e ∷ es) = tt
  accept-Fits now (g, []) = elim (Option-cases (populate is_url parse g)) [
    | inl without ↦ rw (without, accept) tt
    | inr (p, set) ↦ rw (set, accept) (start-Fits now g p set)
  ]

  started-accept :
      (now : ℕ) (v : Plugin × List ConfigError) (p : Populated)
      → v.1 ≡ []
      → v.0.use_static_credentials ≡ true
      → populate is_url parse v.0 ≡ some p
      → (s : Started m tb cb) × (accept m tb cb is_url parse now v ≡ started s)
  unfolding accept start
  started-accept now (g, e ∷ es) p none_failed static set = absurd (ground (arith, none_failed))
  started-accept now (g, []) p none_failed static set = rw (set, accept, static) (_, refl)

  init-Fits :
      (now : ℕ) (g : Plugin) (s : Started m tb cb)
      → init m tb cb is_url parse now g ≡ started s
      → Fits now (validate is_url g) (started s)
  unfolding init
  init-Fits now g s h = subst (Fits now (validate is_url g)) h (accept-Fits now (validate is_url g))

  -- `Init` succeeds exactly if the configuration is complete, with a URL that parses, an IP
  -- allocation mode that exists and sizes that are not 0; if it asks for static credentials and
  -- has some; and if each duration is missing or above 0, the session's below a day.
  pub init-exact :
      (now : ℕ) (g : Plugin)
      → ((s : Started m tb cb) × (init m tb cb is_url parse now g ≡ started s))
        ↔ (IsComplete is_url g × HasStaticCredentials g × HasDurations parse g)
  unfolding init
  init-exact now g =
      let ((valid, complete), _) = validate-exact is_url g in
      let (durations, set) = populate-HasDurations is_url parse g in
      (
        λ (s, h).
            let (none_failed, static, accepted, _) = init-Fits now g s h in
            let (has, whole) = valid none_failed in
            let asked = sym (static-validate is_url g) ∙ static in
            (
              whole,
              (HasStaticCredentials-iff g).0 (asked, has),
              (durations (s.populated, sym (populate-validate is_url parse g) ∙ accepted)).0,
            ),
        λ (whole, static, ok).
            let (asked, has) = (HasStaticCredentials-iff g).1 static in
            let (p, accepted) = set (ok, whole.1) in
            started-accept now (validate is_url g) p (complete (has, whole))
              (static-validate is_url g ∙ asked) (populate-validate is_url parse g ∙ accepted),
      )

-- In every state that is reached from a successful `Init`, whatever the interleaving: the creates
-- that run are at most as many as configured, the deletes and cleanups likewise, and all together
-- likewise, where a limit that is not above 0 stands for its default; and creates find a slot
-- that the others leave, unless there is only one.
pub init-bounded :
    (m : Semaphore) (laws : IsSemaphore m) (tb cb rb : Backoff) (is_url : String → Bool)
    (parse : String → Option ℤ) (now : ℕ) (g : Plugin) (s : Started m tb cb)
    (r : Reconciler m tb cb)
    → init m tb cb is_url parse now g ≡ started s
    → Steps m tb cb rb s.reconciler r
    → (running_creates r.running
        ≤ or_default g.max_concurrent_creates default_max_concurrent_creates)
      × (running_deletes r.running
          ≤ or_default g.max_concurrent_deletes default_max_concurrent_deletes)
      × (running_creates r.running + running_deletes r.running
          ≤ or_default g.max_concurrent_operations default_max_concurrent_operations)
      × ((or_default g.max_concurrent_operations default_max_concurrent_operations ≤ 1)
          ⊎ (running_deletes r.running
              < or_default g.max_concurrent_operations default_max_concurrent_operations))
init-bounded m laws tb cb rb is_url parse now g s r h steps =
    let (_, _, accepted, same) = init-Fits m tb cb is_url parse now g s h in
    let set = sym (populate-validate is_url parse g) ∙ accepted in
    let (_, _, _, settings, _, _, _) = populate-positive is_url parse g s.populated set in
    let (c, d, o) = populate-AreLimits is_url parse g s.populated set in
    let (total, some_creates, some_deletes, spare) = rw settings at (
      operations_bounded m laws tb cb rb (with_defaults (reconciler_config s.populated)) now
        (subst (λ begun. Steps m tb cb rb begun r) same steps)) in
    rw⁻¹ (c, d, o) (some_creates, some_deletes, total, spare)
