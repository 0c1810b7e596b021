-- ===== src/Reconciler/Shutdown.antt =====
-- reconciler.go, `Shutdown`: once the loop has exited and the operations in flight have ended, what
-- is left of the group is deleted. What the waits and the deletions answer is an argument, and so
-- is `ctx.Err()` after each number of deletions.
pub mod Targets
pub mod Sweep
use fleeting_plugin_vcd.Base.{
  ℕ, suc, if◌then◌else◌, String, str_eq, starts_with, Bool, true, false, not, ◌||◌, Option, none,
  some, List, [], ◌∷◌, ◌++◌,
}
use fleeting_plugin_vcd.Instance.{Instance, deleted, phase_eq}
use fleeting_plugin_vcd.Reconciler.Poll.{Read, found, gone, failed}
use fleeting_plugin_vcd.Store.{Store, get_all}

-- A call of `cleanUpInstanceByName` or `deleteInstance`.
pub data Target : Type 0 where
  cleans_up : String → Target
  deletes_vapp : String → Target

pub record Answers : Type 0 where
  pub loop_exit : Option String  -- the context's error where it ends before the loop exits
  pub drain : Option String  -- the error of `limiter.drain`
  pub result : Target → Read (Unit {0})  -- how `withinContext` ends
  pub context : ℕ → Option String  -- `ctx.Err()` after so many deletions

-- What `shutdownOnce` keeps: whether it has run, and the errors that are joined.
pub record Closing : Type 0 where
  pub closed : Bool
  pub errors : List String

-- What a part of the sweep has done: its calls, its errors, and the number of calls so far.
pub record Swept : Type 0 where
  pub calls : List Target
  pub errors : List String
  pub count : ℕ

abbrev pub cleanup_errors : Read (Unit {0}) → String → List String
cleanup_errors (found _) name = []
cleanup_errors gone name = []
cleanup_errors failed name = name ∷ []

module _ (a : Answers) where
  -- The `Range` over `failedCreateCleanups`, which stops when the context ends.
  unfoldable pub clean_up_each : ℕ → List (String × ℕ) → Swept
  clean_up_each n [] = record { calls = []; errors = []; count = n }
  clean_up_each n ((name, since) ∷ names) =
      let errors = cleanup_errors (a.result (cleans_up name)) name in
      let rest = clean_up_each (suc n) names in
      elim (a.context (suc n)) [
        | some e ↦ record { calls = cleans_up name ∷ []; errors = errors; count = suc n }
        | none ↦ record {
          calls = cleans_up name ∷ rest.calls;
          errors = errors ++ rest.errors;
          count = rest.count;
        }
      ]

  -- The loop over the instances; the error of a deletion is only logged.
  unfoldable pub delete_each_left : String → ℕ → List Instance → List Target × ℕ
  delete_each_left vapp_prefix n [] = ([], n)
  delete_each_left vapp_prefix n (i ∷ is) =
      let skipping = delete_each_left vapp_prefix n is in
      let deleting = delete_each_left vapp_prefix (suc n) is in
      elim (a.context n) [
        | some e ↦ ([], n)
        | none ↦
            if str_eq i.id "" || phase_eq i.phase deleted
            then skipping
            else if not (starts_with i.name vapp_prefix)
            then skipping
            else (deletes_vapp i.id ∷ deleting.0, deleting.1)
      ]

  -- The error that the last test of the context adds.
  unfoldable pub interrupted : Option String → List String
  interrupted none = []
  interrupted (some e) = e ∷ []

  unfoldable pub sweep : String → Store → List (String × ℕ) → List Target × List String
  unfolding clean_up_each delete_each_left interrupted
  sweep vapp_prefix s names =
      let cleaned = clean_up_each 0 names in
      let (calls, n) = delete_each_left vapp_prefix cleaned.count (get_all s) in
      (cleaned.calls ++ calls, cleaned.errors ++ interrupted (a.context n))

  -- The part under `shutdownOnce`, given how the two waits end.
  unfoldable pub close_down :
      String → Store → List (String × ℕ) → Option String → Option String → Closing × List Target
  unfolding sweep
  close_down vapp_prefix s names (some e) drain = (record { closed = true; errors = e ∷ [] }, [])
  close_down vapp_prefix s names none (some e) = (record { closed = true; errors = e ∷ [] }, [])
  close_down vapp_prefix s names none none =
      let (calls, errors) = sweep vapp_prefix s names in
      (record { closed = true; errors = errors }, calls)

  -- `Shutdown`: what it keeps, and the deletions that it calls for.
  unfoldable pub shutdown : String → Store → List (String × ℕ) → Closing → Closing × List Target
  unfolding close_down
  shutdown vapp_prefix s names c =
      if c.closed then (c, []) else close_down vapp_prefix s names a.loop_exit a.drain
