-- ===== src/Reconciler/Shutdown/Sweep.antt =====
-- reconciler.go, `Shutdown`: what it deletes, and what its result says.
use fleeting_plugin_vcd.Base.{List}
use fleeting_plugin_vcd.Instance.{Instance}
use fleeting_plugin_vcd.Store.{Store}
