-- ===== src/Debug/Api.antt =====
-- debug.go: what the handlers of the debug server show. Texts, headers and JSON are left out.
pub mod Agree
use fleeting_plugin_vcd.Base.{
  ℕ, str_eq, not, String, Bool, true, false, Option, none, List, [], ◌∷◌, map, put,
}
use fleeting_plugin_vcd.Debug.{PhaseCount, phase_order, summary}
use fleeting_plugin_vcd.Debug.View.{InstanceView, instances}
use fleeting_plugin_vcd.Instance.{phase_string}
use fleeting_plugin_vcd.Store.{Store}

-- `apiInstance`
pub record ApiInstance : Type 0 where
  pub intent_id : String
  pub href : String
  pub name : String
  pub phase : String
  pub source : String
  pub leftover : Bool
  pub ip_address : String
  pub retries : ℕ
  pub last_error : String
  pub since : Option ℕ

unfoldable pub api_instance : InstanceView → ApiInstance
api_instance v =
    let i = v.instance_of_view in
    record {
      intent_id = i.intent_id;
      href = i.id;
      name = i.name;
      phase = phase_string i.phase;
      source = v.source;
      leftover = i.leftover;
      ip_address = i.ip_address;
      retries = i.retry_count;
      last_error = i.last_error;
      since = v.phase_since_of_view;
    }

-- The loop of `handleAPIStatus` over the rows of the summary.
unfoldable pub count_phases : List PhaseCount → List (String × ℕ) → List (String × ℕ)
count_phases [] phases = phases
count_phases (row ∷ rows) phases = count_phases rows (put row.phase row.count phases)

-- `phases` and `instances` of `handleAPIStatus`.
unfoldable pub handle_api_status : Store → List (String × ℕ) × List ApiInstance
unfolding count_phases api_instance
handle_api_status s = (count_phases (summary s).0 [], map api_instance (instances false "" s))

-- `handleInstances`, given the two values of the query.
unfoldable pub handle_instances : String → String → Store → List InstanceView
handle_instances hide_deleted phase s = instances (not (str_eq hide_deleted "")) phase s

-- `phaseNames`
unfoldable pub phase_names : List String
phase_names = map phase_string phase_order

-- The data of `handlePage`.
unfoldable pub handle_page : Store → (List PhaseCount × ℕ) × List InstanceView × List String
unfolding phase_names
handle_page s = (summary s, instances true "" s, phase_names)
