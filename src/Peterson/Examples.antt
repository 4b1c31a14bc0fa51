-- ===== src/Peterson/Examples.antt =====
-- Runs of the two processes.
use semestre.Base.{◌≡◌, ◌⊎◌, refl, true, List, [], ◌∷◌, arith, ◌++◌}
use semestre.Peterson.{critical, Who, child_moves, parent_moves, forked, run, child_at, parent_at}
use semestre.Peterson.Exclusion.{run-exclusion}
use semestre.Peterson.Entry.{past, run-enters}

-- Both write their flag and the turn, the parent last.
abbrev both_wait : List Who
both_wait = child_moves ∷ parent_moves ∷ child_moves ∷ parent_moves ∷ []

abbrev two_each : List Who
two_each = child_moves ∷ parent_moves ∷ parent_moves ∷ child_moves ∷ []

run-exclusion_example : ¬ (
    ((run (both_wait ++ two_each) forked).child ≡ critical)
    × ((run (both_wait ++ two_each) forked).parent ≡ critical))
run-exclusion_example = run-exclusion (both_wait ++ two_each)

run-enters_example :
    (past (run two_each (run both_wait forked)).child ≡ true)
    ⊎ (past (run two_each (run both_wait forked)).parent ≡ true)
unfolding run child_at parent_at
run-enters_example = run-enters both_wait two_each refl refl (omega arith) (omega arith)
