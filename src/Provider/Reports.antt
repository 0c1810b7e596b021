-- ===== src/Provider/Reports.antt =====
-- provider.go: GitLab Runner hears of the right instances.
use fleeting_plugin_vcd.Base.{
  ◌+◌, ◌≡◌, refl, sym, ap, ◌≢◌, ◌↔◌, inl, inr, Among, String, false, not, ◌&&◌, ◌||◌, Option, none,
  some, List, [], ◌∷◌, str_eq, eq_iff, arith, Option-cases, Bool-cases,
}
use fleeting_plugin_vcd.Instance.{deleted, phase_eq, Instance}
use fleeting_plugin_vcd.Provider.{State, state_of, report, update, with_address, connect_info}
use fleeting_plugin_vcd.Reconciler.Cycle.{instance_of}
use fleeting_plugin_vcd.Store.{Store, get_all}
use fleeting_plugin_vcd.Store.Query.{tally, leftover_count, size}

-- An instance that is reported, and how.
abbrev pub IsReported : List Instance → String → State → Type 0
IsReported is h st =
    (i : Instance) × Among i is
    × (i.id ≡ h)
    × (h ≢ "")
    × (st ≡ state_of i.phase)
    × (i.leftover ≡ false)
    × (phase_eq i.phase deleted ≡ false)

IsReported-later :
    (x : Instance) (is : List Instance) (h : String) (st : State)
    → IsReported is h st
    → IsReported (x ∷ is) h st
IsReported-later x is h st (i, a, b, c, d, e, f) = (i, inr a, b, c, d, e, f)

reported :
    (is : List Instance) (h : String) (st : State)
    → Among (h, st) (report is).0
    → IsReported is h st
unfolding report
reported [] h st = λ a. absurd a
reported (i ∷ is) h st = elim (Bool-cases (phase_eq i.phase deleted || i.leftover)) [
  | inl hidden ↦ rw hidden (λ a. IsReported-later i is h st (reported is h st a))
  | inr shown ↦ elim (Bool-cases (str_eq i.id "")) [
    | inl bare ↦ rw (shown, bare) (λ a. IsReported-later i is h st (reported is h st a))
    | inr named ↦
        rw (shown, named)
          (λ a. elim a [
            | inl own ↦ (
              i,
              inl refl,
              ap (λ c. c.0) own,
              (λ e. ground (arith, eq_iff i.id "", ap (λ c. c.0) own)),
              sym (ap (λ c. c.1) own),
              ground (arith, shown),
              ground (arith, shown),
            )
            | inr later ↦ IsReported-later i is h st (reported is h st later)
          ])
  ]
]

reports :
    (is : List Instance) (h : String) (st : State)
    → IsReported is h st
    → Among (h, st) (report is).0
unfolding report
reports [] h st (i, a, b, c, d, e, f) = absurd a
reports (x ∷ is) h st (i, inr a, b, c, d, e, f) =
    let later = reports is h st (i, a, b, c, d, e, f) in
    elim (Bool-cases (phase_eq x.phase deleted || x.leftover)) [
      | inl hidden ↦ rw hidden later
      | inr shown ↦ elim (Bool-cases (str_eq x.id "")) [
        | inl bare ↦ rw (shown, bare) later
        | inr named ↦ rw (shown, named) (inr later)
      ]
    ]
reports (x ∷ is) h st (i, inl same, at_h, ne, at_st, tracked, there) =
    let shown : (phase_eq x.phase deleted || x.leftover) ≡ false = rw (same, there, tracked) refl in
    let named : str_eq x.id "" ≡ false = rw same (ground (arith, ne, at_h, eq_iff i.id "")) in
    rw (shown, named) (inl (rw (same, at_h, sym at_st) refl))

report-size :
    (is : List Instance)
    → (report is).1 + tally (λ i. i.leftover && not (phase_eq i.phase deleted)) is
      ≡ tally (λ i. not (phase_eq i.phase deleted)) is
unfolding report tally
report-size [] = refl
report-size (i ∷ is) = ground (arith, report-size is)

-- `Update` reports an HREF with a state exactly if the store has an instance with that HREF that is
-- neither deleted nor a leftover and whose phase has that state. The size that it counts,
-- which includes instances with no HREF yet, leaves out of the store's size just the leftovers.
pub update-exact :
    (s : Store) (h : String) (st : State)
    → (Among (h, st) (update s).0 ↔ IsReported (get_all s) h st)
      × ((update s).1 + leftover_count s ≡ size s)
unfolding update leftover_count size
update-exact s h st =
    ((reported (get_all s) h st, reports (get_all s) h st), report-size (get_all s))

-- `ConnectInfo` gives no error only for an ID that the store has, and then both addresses are the
-- IP address of that instance, which is not empty.
pub connect_info-address :
    (get_vm : String → Option String) (s : Store) (id : String)
    → (connect_info get_vm s id).1 ≡ none
    → (i : Instance) × (instance_of s id ≡ some i)
      × (i.ip_address ≢ "")
      × ((connect_info get_vm s id).0.internal_addr ≡ i.ip_address)
      × ((connect_info get_vm s id).0.external_addr ≡ i.ip_address)
unfolding connect_info with_address
connect_info-address get_vm s id e = elim (Option-cases (instance_of s id)) [
  | inl missing ↦ absurd (ground (arith, missing, e))
  | inr (i, held) ↦ (
    i,
    held,
    ground (arith, held, e, eq_iff i.ip_address ""),
    ground (arith, held, e),
    ground (arith, held, e),
  )
]
