-- ===== src/Provider/Init.antt =====
-- provider.go: `Init`. `url.Parse` and `time.ParseDuration` are arguments, as in Config; the debug
-- server, the loggers and the build information of version.go are left out.
pub mod Starts
use fleeting_plugin_vcd.Base.{
  ℕ, if◌then◌else◌, String, Bool, true, false, not, Option, none, some, List, [], ◌∷◌,
}
use fleeting_plugin_vcd.Backoff.{Backoff}
use fleeting_plugin_vcd.Config.{
  ℤ, Plugin, ConfigError, validate, Populated, populate, with_defaults, reconciler_config,
}
use fleeting_plugin_vcd.Reconciler.{Reconciler, new_reconciler}
use fleeting_plugin_vcd.Semaphore.{Semaphore}
use fleeting_plugin_vcd.Store.{new_store}

abbrev pub max_size : ℕ
max_size = 128

-- `provider.ProviderInfo`, with the elements of the path that is the ID.
pub record ProviderInfo : Type 0 where
  pub id_elements : List String
  pub max_size_of_group : ℕ

-- The four ways in which `Init` ends.
pub data InitError : Type 0 where
  rejects : List ConfigError → InitError  -- `validate`
  no_limits : InitError  -- `populate`
  dynamic_credentials : InitError

module _ (m : Semaphore) (tb cb : Backoff) where
  -- What `Init` leaves behind when it succeeds: the plugin with what `populate` sets, and the
  -- reconciler, which has started.
  pub record Started : Type 0 where
    pub info : ProviderInfo
    pub plugin : Plugin
    pub populated : Populated
    pub reconciler : Reconciler m tb cb

  pub data Initialised : Type 0 where
    refused : InitError → Initialised
    started : Started → Initialised

  unfoldable pub provider_info : Plugin → ProviderInfo
  provider_info g = record {
    id_elements =
        "vcd" ∷ g.org ∷ g.virtual_datacenter ∷ g.network ∷ g.vapp_name_prefix
        ∷ g.instance_group_name ∷ [];
    max_size_of_group = max_size;
  }

  -- The end of `Init`, once `populate` has succeeded.
  unfoldable pub start : Plugin → ℕ → Populated → Initialised
  unfolding provider_info
  start g now p =
      if not g.use_static_credentials
      then refused dynamic_credentials
      else started (record {
        info = provider_info g;
        plugin = g;
        populated = p;
        reconciler = new_reconciler m tb cb (with_defaults (reconciler_config p)) new_store now;
      })

  -- The end of `Init`, once `validate` has left the plugin and its errors.
  unfoldable pub accept :
      (String → Bool) → (String → Option ℤ) → ℕ → Plugin × List ConfigError → Initialised
  unfolding start
  accept is_url parse now (g, e ∷ es) = refused (rejects (e ∷ es))
  accept is_url parse now (g, []) = elim (populate is_url parse g) [
    | none ↦ refused no_limits
    | some p ↦ start g now p
  ]

  -- `Init`
  unfoldable pub init : (String → Bool) → (String → Option ℤ) → ℕ → Plugin → Initialised
  unfolding accept
  init is_url parse now g = accept is_url parse now (validate is_url g)
