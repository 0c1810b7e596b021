-- ===== src/Debug/Counts.antt =====
-- debug.go, `summary`: the rows account for every instance.
use fleeting_plugin_vcd.Base.{
  inl, inr, ap, ltb, ltb→lt, Bool-cases, ℕ, ◌+◌, ◌<◌, ◌≡◌, refl, ◌∙◌, List, [], ◌∷◌, length, arith,
}
use fleeting_plugin_vcd.Debug.{phase_order, count_of, PhaseCount, phase_rows, summary}
use fleeting_plugin_vcd.Instance.{Phase, Instance}
use fleeting_plugin_vcd.Store.{Store, get_all}
use fleeting_plugin_vcd.Store.Query.{tally}

abbrev pub sum_of : List PhaseCount → ℕ
sum_of [] = 0
sum_of (row ∷ rows) = row.count + sum_of rows

abbrev pub AreCounted : List PhaseCount → Type 0
AreCounted [] = Unit
AreCounted (row ∷ rows) = (0 < row.count) × AreCounted rows

abbrev sum_counts : List Instance → List Phase → ℕ
sum_counts all [] = 0
sum_counts all (p ∷ ps) = count_of all p + sum_counts all ps

phase_rows-sum :
    (all : List Instance) (ps : List Phase)
    → (sum_of (phase_rows all ps) ≡ sum_counts all ps) × AreCounted (phase_rows all ps)
unfolding phase_rows
phase_rows-sum all [] = (refl, tt)
phase_rows-sum all (p ∷ ps) =
    let (total, rows) = phase_rows-sum all ps in
    elim (Bool-cases (ltb 0 (count_of all p))) [
      | inl some_counted ↦
          rw some_counted (ap (λ n. count_of all p + n) total, (ltb→lt _ _ some_counted, rows))
      | inr no_row ↦ rw no_row (ground (arith, total, no_row), rows)
    ]

-- Each instance is in one phase.
sum_counts-length : (all : List Instance) → sum_counts all phase_order ≡ length all
unfolding count_of tally
sum_counts-length [] = refl
sum_counts-length (i ∷ is) = ground (arith, sum_counts-length is)

-- The rows of the summary add up to its total, so that every instance of the store is counted in
-- exactly one of them, and no row is empty.
pub summary-total : (s : Store) → (sum_of (summary s).0 ≡ (summary s).1) × AreCounted (summary s).0
unfolding summary
summary-total s =
    let (total, rows) = phase_rows-sum (get_all s) phase_order in
    (total ∙ sum_counts-length (get_all s), rows)
