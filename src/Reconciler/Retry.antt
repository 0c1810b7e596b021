-- ===== src/Reconciler/Retry.antt =====
-- reconciler.go, `doCreate` and `retryDelay`, with the deferred function of `createInstance` in
-- vcd.go: what becomes of a create that fails.
use fleeting_plugin_vcd.Base.{ℕ, ◌≡◌, refl, String, some, lookup}
use fleeting_plugin_vcd.Backoff.{Backoff}
use fleeting_plugin_vcd.Instance.{Instance}
use fleeting_plugin_vcd.Reconciler.{Reconciler}
use fleeting_plugin_vcd.Semaphore.{Semaphore}
use fleeting_plugin_vcd.Store.{Store, get_by_intent_id}

pub held_instance :
    (s : Store) (id : String) (p : ℕ)
    → lookup id s.instances ≡ some p
    → get_by_intent_id s id ≡ some (s.cell p)
unfolding get_by_intent_id
held_instance s id p held = rw (held, get_by_intent_id) refl
