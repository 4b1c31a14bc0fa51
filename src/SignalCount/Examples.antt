-- ===== src/SignalCount/Examples.antt =====
-- Three signals of five are counted.
use semestre.Base.{◌≤◌, ◌≡◌, some, List}
use semestre.SignalCount.{forked, Turn, run}
use semestre.SignalCount.Counts.{run-prints_iff}

run-prints_iff_example :
    ((ts : List Turn) → (run ts forked).printed ≡ some 3 → (1 ≤ 3) × (3 ≤ 5))
    × (1 ≤ 3 → 3 ≤ 5 → (ts : List Turn) × ((run ts forked).printed ≡ some 3))
run-prints_iff_example = run-prints_iff 3
