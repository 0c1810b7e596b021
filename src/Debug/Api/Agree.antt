-- ===== src/Debug/Api/Agree.antt =====
-- debug.go, `handleAPIStatus`: the two lists that it gives agree.
use fleeting_plugin_vcd.Base.{suc, ◌≡◌, refl, ap, ◌∙◌, sym, false, List, [], ◌∷◌, length, map}
use fleeting_plugin_vcd.Debug.{summary}
use fleeting_plugin_vcd.Debug.Api.{api_instance, handle_api_status}
use fleeting_plugin_vcd.Debug.Counts.{sum_of, summary-total}
use fleeting_plugin_vcd.Debug.View.{InstanceView, instances, is_shown}
use fleeting_plugin_vcd.Debug.View.Shown.{instances-exact}
use fleeting_plugin_vcd.Instance.{Instance}
use fleeting_plugin_vcd.Store.{Store, get_all}
use fleeting_plugin_vcd.Store.Query.{tally}

length-api : (vs : List InstanceView) → length (map api_instance vs) ≡ length vs
length-api [] = refl
length-api (v ∷ vs) = ap suc (length-api vs)

-- With no filter every instance is shown.
tally-is_shown : (is : List Instance) → tally (is_shown false "") is ≡ length is
unfolding tally
tally-is_shown [] = refl
tally-is_shown (i ∷ is) = ap suc (tally-is_shown is)

-- The counts of the summary add up to the number of entries for instances that the API gives, which
-- is the number of instances in the store.
pub handle_api_status-agrees :
    (s : Store)
    → (length (handle_api_status s).1 ≡ length (get_all s))
      × (sum_of (summary s).0 ≡ length (handle_api_status s).1)
unfolding handle_api_status summary
handle_api_status-agrees s =
    let shown =
      length-api (instances false "" s)
      ∙ (instances-exact false "" s).2
      ∙ tally-is_shown (get_all s) in
    (shown, (summary-total s).0 ∙ sym shown)
