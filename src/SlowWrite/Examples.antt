-- ===== src/SlowWrite/Examples.antt =====
-- The two programs with short texts.
use semestre.Base.{◌≡◌, List, [], ◌∷◌, ◌++◌, Bytes, codes, arith}
use semestre.TellWait.{Turn, parent_acts, child_acts, run}
use semestre.SlowWrite.{forked}
use semestre.SlowWrite.Order.{run-in_order, run-prints_all}

-- The child is first, and waits.
abbrev child_first : List Turn
child_first = child_acts ∷ parent_acts ∷ child_acts ∷ parent_acts ∷ parent_acts ∷ []

abbrev child_last : List Turn
child_last = child_acts ∷ parent_acts ∷ child_acts ∷ child_acts ∷ []

run-in_order_example :
    (rest : Bytes) × ((run child_first (forked (codes "ab") (codes "c"))).output ++ rest
      ≡ codes "ab" ++ codes "c")
run-in_order_example = run-in_order (codes "ab") (codes "c") child_first

run-prints_all_example :
    (run child_last (run child_first (forked (codes "ab") (codes "c")))).output
    ≡ codes "ab" ++ codes "c"
run-prints_all_example =
    run-prints_all (codes "ab") (codes "c") child_first child_last (omega arith) (omega arith)
