-- ===== src/Config.antt =====
-- config.go: how the plugin's configuration is checked and completed; reconciler.go, `withDefaults`.
-- `url.Parse` and `time.ParseDuration` are arguments: whether a text is a URL, and the nanoseconds
-- of a duration. Of the fields of `InstanceGroup` those that these functions read or set are kept.
pub mod Checks
pub mod Limits
pub mod Durations
use fleeting_plugin_vcd.Base.{
  ℕ, zero, suc, ◌*◌, leb, if◌then◌else◌, String, str_eq, Bool, true, false, not, ◌&&◌, ◌||◌, Option,
  none, some, List, [], ◌∷◌,
}
use fleeting_plugin_vcd.Reconciler.{Settings}
use fleeting_plugin_vcd.Session.{hour, default_session_refresh_interval}
use fleeting_plugin_vcd.Store.Ops.{second, minute}

-- A Go integer that may be negative.
pub data ℤ : Type 0 where
  pos : ℕ → ℤ
  negsuc : ℕ → ℤ

-- `n` where it is above 0, and else the default.
unfoldable pub or_default : ℤ → ℕ → ℕ
or_default (pos zero) d = d
or_default (pos (suc n)) d = suc n
or_default (negsuc n) d = d

-- `== 0`
abbrev pub is_zero : ℤ → Bool
is_zero (pos zero) = true
is_zero (pos (suc n)) = false
is_zero (negsuc n) = false

abbrev pub default_max_concurrent_creates : ℕ
default_max_concurrent_creates = 3

abbrev pub default_max_concurrent_deletes : ℕ
default_max_concurrent_deletes = 5

abbrev pub default_max_concurrent_operations : ℕ
default_max_concurrent_operations = 4

abbrev pub default_create_timeout : ℕ
default_create_timeout = 20 * minute

abbrev pub default_startup_cleanup_timeout : ℕ
default_startup_cleanup_timeout = 30 * minute

abbrev pub default_max_instance_age : ℕ
default_max_instance_age = 24 * hour

-- The configuration as it is read.
pub record Plugin : Type 0 where
  pub protocol : String
  pub protocol_port : ℕ
  pub os : String
  pub use_static_credentials : Bool
  pub password : String
  pub key : Option String
  pub name : String
  pub str_url : String
  pub org : String
  pub token : String
  pub virtual_datacenter : String
  pub network : String
  pub ip_allocation_mode : String
  pub instance_group_name : String
  pub vapp_name_prefix : String
  pub catalog : String
  pub template : String
  pub storage_profile : String
  pub cpu_count : ℤ
  pub cores_per_socket : ℤ
  pub memory_mb : ℤ
  pub disk_size_gb : ℤ
  pub max_concurrent_creates : ℤ
  pub max_concurrent_deletes : ℤ
  pub max_concurrent_operations : ℤ
  pub session_refresh_interval : String
  pub create_timeout : String
  pub startup_cleanup_timeout : String

pub data ConfigError : Type 0 where
  missing : String → ConfigError
  invalid_url : ConfigError
  invalid_ip_allocation_mode : String → ConfigError
  no_credentials : ConfigError

-- A sequence of `if test { errs = append(errs, …) }`.
unfoldable pub run_checks : List (Bool × ConfigError) → List ConfigError
run_checks [] = []
run_checks ((fails, e) ∷ checks) =
    let later = run_checks checks in if fails then e ∷ later else later

-- The checks of `validate` up to the credentials, in order.
abbrev pub field_checks : (String → Bool) → Plugin → List (Bool × ConfigError)
field_checks is_url g =
    (str_eq g.name "", missing "name")
    ∷ (str_eq g.str_url "", missing "url")
    ∷ (not (is_url g.str_url), invalid_url)
    ∷ (str_eq g.org "", missing "org")
    ∷ (str_eq g.token "", missing "token")
    ∷ (str_eq g.virtual_datacenter "", missing "virtual_datacenter")
    ∷ (str_eq g.network "", missing "network")
    ∷ (str_eq g.ip_allocation_mode "", missing "ip_allocation_mode")
    ∷ (
      not (str_eq g.ip_allocation_mode "DHCP") && not (str_eq g.ip_allocation_mode "POOL"),
      invalid_ip_allocation_mode g.ip_allocation_mode,
    )
    ∷ (str_eq g.instance_group_name "", missing "instance_group_name")
    ∷ (str_eq g.vapp_name_prefix "", missing "vapp_name_prefix")
    ∷ (str_eq g.catalog "", missing "catalog")
    ∷ (str_eq g.template "", missing "template")
    ∷ (str_eq g.storage_profile "", missing "storage_profile")
    ∷ (is_zero g.cpu_count, missing "cpu_count")
    ∷ (is_zero g.cores_per_socket, missing "cores_per_socket")
    ∷ (is_zero g.memory_mb, missing "memory_mb")
    ∷ []

-- Static credentials are asked for and there are none.
unfoldable pub lacks_credentials : Plugin → Bool
lacks_credentials g =
    let no_key : Bool = elim g.key [ none ↦ true | some _ ↦ false ] in
    g.use_static_credentials && (str_eq g.password "" && no_key)

-- `validate`: the plugin with a protocol, and the errors, none of which is no error. Missing
-- credentials are reported alone.
unfoldable pub validate : (String → Bool) → Plugin → Plugin × List ConfigError
unfolding run_checks lacks_credentials
validate is_url g =
    let h : Plugin = if str_eq g.protocol "" then record g { protocol = "ssh" } else g in
    (h, if lacks_credentials g then no_credentials ∷ [] else run_checks (field_checks is_url g))

-- A duration that must be above 0, from its text; an empty text stands for the default.
unfoldable pub duration_or : (String → Option ℤ) → String → ℕ → Option ℕ
duration_or parse text default_value =
    if str_eq text "" then some default_value else elim (parse text) [
      | none ↦ none
      | some d ↦ elim d [ negsuc n ↦ none | pos n ↦ elim n [ zero ↦ none | suc m ↦ some (suc m) ] ]
    ]

-- What `populate` sets.
pub record Populated : Type 0 where
  pub refresh_interval : ℕ
  pub create_limit : ℕ
  pub cleanup_limit : ℕ
  pub creates : ℕ
  pub deletes : ℕ
  pub operations : ℕ

-- The bound on the session's interval.
unfoldable pub below_a_day : Option ℕ → Option ℕ
below_a_day none = none
below_a_day (some d) = if leb (24 * hour) d then none else some d

-- `populate`: none is an error, which ends `Init`.
unfoldable pub populate : (String → Bool) → (String → Option ℤ) → Plugin → Option Populated
unfolding or_default duration_or below_a_day
populate is_url parse g =
    elim (below_a_day
      (duration_or parse g.session_refresh_interval default_session_refresh_interval)) [
        | none ↦ none
        | some interval ↦ elim (duration_or parse g.create_timeout default_create_timeout) [
          | none ↦ none
          | some create ↦
              elim (duration_or parse g.startup_cleanup_timeout default_startup_cleanup_timeout) [
                | none ↦ none
                | some cleanup ↦
                    if not (is_url g.str_url)
                    then none
                    else some (record {
                      refresh_interval = interval;
                      create_limit = create;
                      cleanup_limit = cleanup;
                      creates = or_default g.max_concurrent_creates default_max_concurrent_creates;
                      deletes = or_default g.max_concurrent_deletes default_max_concurrent_deletes;
                      operations =
                          or_default g.max_concurrent_operations default_max_concurrent_operations;
                    })
              ]
        ]
      ]

-- `ReconcilerConfig` before `withDefaults`: the fields that the model of the reconciler reads.
pub record ReconcilerConfig : Type 0 where
  pub max_concurrent_creates : ℤ
  pub max_concurrent_deletes : ℤ
  pub max_concurrent_operations : ℤ
  pub max_instance_age : ℤ
  pub startup_cleanup_timeout : ℤ

-- `withDefaults`
unfoldable pub with_defaults : ReconcilerConfig → Settings
unfolding or_default
with_defaults c = record {
  max_concurrent_creates = or_default c.max_concurrent_creates default_max_concurrent_creates;
  max_concurrent_deletes = or_default c.max_concurrent_deletes default_max_concurrent_deletes;
  max_concurrent_operations =
      or_default c.max_concurrent_operations default_max_concurrent_operations;
  max_instance_age = or_default c.max_instance_age default_max_instance_age;
  startup_cleanup_timeout = or_default c.startup_cleanup_timeout default_startup_cleanup_timeout;
}

-- The configuration that `Init` makes of the plugin's.
unfoldable pub reconciler_config : Populated → ReconcilerConfig
reconciler_config p = record {
  max_concurrent_creates = pos p.creates;
  max_concurrent_deletes = pos p.deletes;
  max_concurrent_operations = pos p.operations;
  max_instance_age = pos 0;
  startup_cleanup_timeout = pos p.cleanup_limit;
}
