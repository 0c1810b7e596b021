-- ===== src/Instance.antt =====
-- instancegroup.go: the lifecycle phases of an instance and the record that the store keeps.
-- A `*time.Time` is an `Option ℕ` of nanoseconds, and a Go `int` that only counts up is a ℕ.
use fleeting_plugin_vcd.Base.{ℕ, String, Bool, true, false, Option, none}

pub data Phase : Type 0 where
  pending_create creating running pending_delete deleting deleted : Phase

pub Phase-discrete : Discrete Phase
Phase-discrete = hlevel

-- `p == q` on phases.
abbrev pub phase_eq : Phase → Phase → Bool
phase_eq pending_create pending_create = true
phase_eq creating creating = true
phase_eq running running = true
phase_eq pending_delete pending_delete = true
phase_eq deleting deleting = true
phase_eq deleted deleted = true
phase_eq _ _ = false

unfoldable pub phase_string : Phase → String
phase_string pending_create = "PendingCreate"
phase_string creating = "Creating"
phase_string running = "Running"
phase_string pending_delete = "PendingDelete"
phase_string deleting = "Deleting"
phase_string deleted = "Deleted"

pub record Instance : Type 0 where
  pub id : String  -- the vApp's HREF, empty until the vApp is created
  pub intent_id : String
  pub name : String
  pub vm_name : String
  pub phase : Phase
  pub ip_address : String
  pub vapp_status : String
  pub vm_status : String
  pub os_type : String
  pub created_at : Option ℕ
  pub create_started_at : Option ℕ
  pub create_completed_at : Option ℕ
  pub delete_requested_at : Option ℕ
  pub delete_started_at : Option ℕ
  pub delete_completed_at : Option ℕ
  pub gc_marked_at : Option ℕ
  pub last_updated : Option ℕ
  pub retry_count : ℕ
  pub last_error : String
  pub next_retry_after : Option ℕ
  pub missed_polls : ℕ
  pub leftover : Bool

-- `Instance{}`: Go's zero value.
abbrev pub zero_instance : Instance
zero_instance = record {
  id = "";
  intent_id = "";
  name = "";
  vm_name = "";
  phase = pending_create;
  ip_address = "";
  vapp_status = "";
  vm_status = "";
  os_type = "";
  created_at = none;
  create_started_at = none;
  create_completed_at = none;
  delete_requested_at = none;
  delete_started_at = none;
  delete_completed_at = none;
  gc_marked_at = none;
  last_updated = none;
  retry_count = 0;
  last_error = "";
  next_retry_after = none;
  missed_polls = 0;
  leftover = false;
}
