-- ===== src/Tests/Ends.antt =====
-- The end of the group, of waits and of cleanups at concrete values: reconciler.go, vcd.go,
-- vcd_create.go; utils.go.
use fleeting_plugin_vcd.Base.{
  arith, ℕ, ◌+◌, ◌≤◌, ◌≡◌, refl, ◌≢◌, ◌⊎◌, String, false, Option, none, some, List, [], ◌∷◌, lookup,
  put,
}
use fleeting_plugin_vcd.Reconciler.Poll.{found}
use fleeting_plugin_vcd.Reconciler.Shutdown.{cleans_up, deletes_vapp, Answers, Closing, shutdown}
use fleeting_plugin_vcd.Reconciler.Finish.{record_created}
use fleeting_plugin_vcd.Store.{new_store, get_all}
use fleeting_plugin_vcd.Store.Ops.{add_create_intent, update_instance}
use fleeting_plugin_vcd.Tests.Store.{made}
use fleeting_plugin_vcd.Deletion
use fleeting_plugin_vcd.Deletion.{Lookup, clean_up_instance_by_name}
use fleeting_plugin_vcd.Deletion.Cleanup.{IsDeleted, IsMissing, cleanup_kept}
use fleeting_plugin_vcd.Names.{vm_name_safe, usable_text, encode_url, remove_byte}
use fleeting_plugin_vcd.Names.Safe.{AreShort, FailsFirst, IsFirst, IsName, vm_name_safe-ends}
use fleeting_plugin_vcd.Reconciler.{new_reconciler}
use fleeting_plugin_vcd.Reconciler.Finish.{safe_call_max_elapsed_time, end_cleanup}
use fleeting_plugin_vcd.Semaphore.{counting}
use fleeting_plugin_vcd.Tests.Plugin.{deletion_answers}
use fleeting_plugin_vcd.Tests.Runs.{State, settings, pace}
use fleeting_plugin_vcd.Waits.{Reading, task_timeout, timed_rounds, wait_task_completion}
use fleeting_plugin_vcd.Waits.Deadline.{wait_task_completion-ends}

abbrev answers : Answers
answers = record { loop_exit = none; drain = none; result = λ t. found tt; context = λ n. none }

abbrev fresh : Closing
fresh = record { closed = false; errors = [] }

abbrev failed_creates : List (String × ℕ)
failed_creates = ("runner-lost", 5) ∷ []

shutdown_test :
    (shutdown answers "" made failed_creates fresh).1
    ≡ cleans_up "runner-lost" ∷ deletes_vapp "https://vcd/vapp-1" ∷ []
unfolding shutdown get_all update_instance lookup add_create_intent put new_store record_created
shutdown_test = refl

-- A task that stays queued.
abbrev queued : ℕ → Reading
queued k = record { refresh = none; status = "queued"; took = 5_000_000 }

wait_task_completion-ends_example :
    wait_task_completion (timed_rounds 1201 queued 0 (100 + task_timeout) 100) ≢ none
wait_task_completion-ends_example = wait_task_completion-ends queued 100

-- The vApp of the failed create is found and deleted.
abbrev seen : Lookup
seen = record {
  client = none;
  org = none;
  vdc = none;
  vapp = found "https://vcd/vapp-7";
  is_not_found = λ e. false;
}

abbrev deletion : String → Deletion.Answers
deletion href = deletion_answers

abbrev cleaning : State
cleaning = record (new_reconciler counting pace pace settings new_store 0) {
  failed_create_cleanups = ("runner-lost", 5) ∷ [];
}

is_kept : lookup "runner-lost" cleaning.failed_create_cleanups ≡ some 5
unfolding lookup new_reconciler
is_kept = refl

cleanup_kept_example :
    let result = (clean_up_instance_by_name seen deletion).1 in
    let s = end_cleanup counting pace pace pace "runner-lost" 5 9 result cleaning in
    (lookup "runner-lost" s.failed_create_cleanups ≡ some 5)
    ⊎ ((href : String) × (seen.vapp ≡ found href) × IsDeleted (deletion href))
    ⊎ (IsMissing seen deletion × (5 + safe_call_max_elapsed_time ≤ 9))
cleanup_kept_example =
    cleanup_kept counting pace pace pace seen deletion "runner-lost" 5 9 cleaning is_kept

-- The first draw is made of signs only, the second gives four characters.
abbrev draws : List (Option (List ℕ))
draws = some (251 ∷ 239 ∷ 190 ∷ []) ∷ some (0 ∷ 16 ∷ 131 ∷ []) ∷ []

name_test : vm_name_safe 4 draws ≡ some (some (b'a' ∷ b'b' ∷ b'c' ∷ b'd' ∷ []))
unfolding vm_name_safe usable_text encode_url remove_byte
name_test = refl

vm_name_safe-ends_example :
    ((vm_name_safe 4 draws ≡ none) × AreShort 4 draws)
    ⊎ ((vm_name_safe 4 draws ≡ some none) × FailsFirst 4 draws)
    ⊎ ((text : List ℕ) × (vm_name_safe 4 draws ≡ some (some text))
        × IsName 4 text
        × IsFirst 4 draws text)
vm_name_safe-ends_example = vm_name_safe-ends 4 draws (omega arith)
