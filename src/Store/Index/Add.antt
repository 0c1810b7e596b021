-- ===== src/Store/Index/Add.antt =====
-- store.go: the methods that add an instance keep the maps well formed, when the key is fresh.
use fleeting_plugin_vcd.Base.{
  ℕ, ◌≡◌, refl, ◌≢◌, String, inl, inr, none, some, lookup, put, arith, Option-cases, eq_iff,
  lookup-put, put-IsMap,
}
use fleeting_plugin_vcd.Instance.{Instance}
use fleeting_plugin_vcd.Store.{Store, alloc}
use fleeting_plugin_vcd.Store.Index.{IsWellFormed}
use fleeting_plugin_vcd.Store.Ops.{add_create_intent, Observation, add_preexisting, add_leftover}

-- A pointer that is not yet allocated stands in neither map.
fresh_pointer : (s : Store) → IsWellFormed s → (k : String) → lookup k s.instances ≢ some s.next
fresh_pointer s w k e = omega (arith, w.allocated k s.next e)

fresh_indexed : (s : Store) → IsWellFormed s → (h : String) → lookup h s.by_vapp_href ≢ some s.next
fresh_indexed s w h e = fresh_pointer s w _ (w.tracked h s.next e)

-- A new instance with no HREF enters the primary map only.
intent-IsWellFormed :
    (s : Store) (i : Instance)
    → IsWellFormed s
    → lookup i.intent_id s.instances ≡ none
    → i.id ≡ ""
    → IsWellFormed (record (alloc s i) { instances = put i.intent_id s.next s.instances })
intent-IsWellFormed s i w new bare = record {
  keys = put-IsMap i.intent_id s.next s.instances w.keys;
  allocated = λ k p e. ground (arith, lookup-put i.intent_id k s.next s.instances, w.allocated k p);
  named = λ k p e. ground (
    arith,
    eq_iff i.intent_id k,
    lookup-put i.intent_id k s.next s.instances,
    w.named k p,
    fresh_pointer s w k,
  );
  linked = λ k p e h. ground (
    arith,
    eq_iff i.intent_id k,
    lookup-put i.intent_id k s.next s.instances,
    w.linked k p,
    fresh_pointer s w k,
  );
  nonempty = w.nonempty;
  indexed = λ h p e. ground (arith, w.indexed h p, fresh_indexed s w h);
  tracked = λ h p e. ground (
    arith,
    eq_iff i.intent_id (s.cell p).intent_id,
    lookup-put i.intent_id (s.cell p).intent_id s.next s.instances,
    w.tracked h p,
    fresh_indexed s w h,
  );
}

-- A new instance found in vCD enters both maps under its HREF.
found-IsWellFormed :
    (s : Store) (href : String) (i : Instance)
    → IsWellFormed s
    → lookup href s.instances ≡ none
    → lookup href s.by_vapp_href ≡ none
    → href ≢ ""
    → i.id ≡ href
    → i.intent_id ≡ href
    → IsWellFormed (record (alloc s i) {
      instances = put href s.next s.instances;
      by_vapp_href = put href s.next s.by_vapp_href;
    })
found-IsWellFormed s href i w new unknown named_href at_id at_intent = record {
  keys = put-IsMap href s.next s.instances w.keys;
  allocated = λ k p e. ground (arith, lookup-put href k s.next s.instances, w.allocated k p);
  named = λ k p e. ground (
    arith,
    eq_iff href k,
    lookup-put href k s.next s.instances,
    w.named k p,
    fresh_pointer s w k,
  );
  linked = λ k p e h. ground (
    arith,
    eq_iff href k,
    eq_iff href (s.cell p).id,
    eq_iff href i.id,
    lookup-put href k s.next s.instances,
    lookup-put href (s.cell p).id s.next s.by_vapp_href,
    lookup-put href i.id s.next s.by_vapp_href,
    w.linked k p,
    fresh_pointer s w k,
  );
  nonempty = ground (arith, eq_iff href "", lookup-put href "" s.next s.by_vapp_href, w.nonempty);
  indexed = λ h p e. ground (
    arith,
    eq_iff href h,
    lookup-put href h s.next s.by_vapp_href,
    w.indexed h p,
    fresh_indexed s w h,
  );
  tracked = λ h p e. ground (
    arith,
    eq_iff href h,
    eq_iff href (s.cell p).intent_id,
    eq_iff href i.intent_id,
    lookup-put href h s.next s.by_vapp_href,
    lookup-put href (s.cell p).intent_id s.next s.instances,
    lookup-put href i.intent_id s.next s.instances,
    w.tracked h p,
    fresh_indexed s w h,
  );
}

pub add_create_intent-IsWellFormed :
    (id : String) (now : ℕ) (s : Store)
    → IsWellFormed s
    → lookup id s.instances ≡ none
    → IsWellFormed (add_create_intent id now s)
unfolding add_create_intent
add_create_intent-IsWellFormed id now s w new = intent-IsWellFormed s _ w new refl

pub add_preexisting-IsWellFormed :
    (href : String) (o : Observation) (now : ℕ) (s : Store)
    → IsWellFormed s
    → href ≢ ""
    → (lookup href s.by_vapp_href ≡ none → lookup href s.instances ≡ none)
    → IsWellFormed (add_preexisting href o now s)
unfolding add_preexisting
add_preexisting-IsWellFormed href o now s w ne new =
    elim (Option-cases (lookup href s.by_vapp_href)) [
      | inl e ↦ rw (e, add_preexisting) (found-IsWellFormed s href _ w (new e) e ne refl refl)
      | inr (p, e) ↦ rw (e, add_preexisting) w
    ]

pub add_leftover-IsWellFormed :
    (href name : String) (now : ℕ) (s : Store)
    → IsWellFormed s
    → href ≢ ""
    → (lookup href s.by_vapp_href ≡ none → lookup href s.instances ≡ none)
    → IsWellFormed (add_leftover href name now s).0
unfolding add_leftover
add_leftover-IsWellFormed href name now s w ne new =
    elim (Option-cases (lookup href s.by_vapp_href)) [
      | inl e ↦ rw (e, add_leftover) (found-IsWellFormed s href _ w (new e) e ne refl refl)
      | inr (p, e) ↦ rw (e, add_leftover) w
    ]
