-- ===== src/PipeCopy/Examples.antt =====
-- Four bytes through a pipe of two, in rounds of three turns.
use semestre.Base.{ℕ, suc, zero, ◌≡◌, refl, List, [], ◌∷◌, ◌++◌, Bytes, codes, arith}
use semestre.PipeCopy.{forked, Turn, father_acts, child_acts, run, done, gone}
use semestre.PipeCopy.Order.{run-in_order_of_input}
use semestre.PipeCopy.Ends.{Fair, all_turns, run-ends}

abbrev rounds : ℕ → List (List Turn)
rounds zero = []
rounds (suc n) = (father_acts 9 ∷ (child_acts 0 ∷ (father_acts 1 ∷ []))) ∷ rounds n

rounds-Fair : (n : ℕ) → Fair (rounds n)
rounds-Fair zero = tt
rounds-Fair (suc n) = (refl, refl, rounds-Fair n)

run-in_order_of_input_example :
    ((rest : Bytes) × ((run 2 (all_turns (rounds 4)) (forked (codes "text"))).output ++ rest
        ≡ codes "text"))
    × ((run 2 (all_turns (rounds 4)) (forked (codes "text"))).child ≡ done
        → (run 2 (all_turns (rounds 4)) (forked (codes "text"))).output ≡ codes "text")
    × ((run 2 (all_turns (rounds 4)) (forked (codes "text"))).father ≡ gone
        → (run 2 (all_turns (rounds 4)) (forked (codes "text"))).child ≡ done)
run-in_order_of_input_example = run-in_order_of_input 2 (codes "text") (all_turns (rounds 4))

run-ends_example :
    ((run 2 (all_turns (rounds 33)) (forked (codes "text"))).father ≡ gone)
    × ((run 2 (all_turns (rounds 33)) (forked (codes "text"))).child ≡ done)
    × ((run 2 (all_turns (rounds 33)) (forked (codes "text"))).output ≡ codes "text")
run-ends_example =
    run-ends 2 (codes "text") (rounds 33) (omega arith) (rounds-Fair 33) (omega arith)
