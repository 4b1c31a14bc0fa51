-- ===== src/SharedText/Examples.antt =====
-- A server and a client in two orders.
use semestre.Base.{ℕ, zero, suc, ◌≡◌, ◌≢◌, refl, inl, inr, List, [], ◌∷◌, suc}
use semestre.SharedText.{
  gone, over, State, attached, Turn, server_acts, client_acts, run, step, client_step, read_next,
}
use semestre.SharedText.Segment.{Segment, Printed}
use semestre.SharedText.Letters.{run-Printed}
use semestre.SharedText.Missed.{run-misses}

-- The client reads behind the first letter, and ends behind the second one.
abbrev mixed : List Turn
mixed =
    server_acts ∷ client_acts ∷ client_acts ∷ server_acts ∷ client_acts ∷ client_acts ∷ client_acts
    ∷ client_acts ∷ []

-- An earlier client has been there before its server.
abbrev used : ℕ → ℕ
used zero = 42
used (suc k) = 0

used-Segment : Segment used
used-Segment = record { first = inr (inr refl); cells = λ k lt. inl refl; last = refl }

run-Printed_example :
    Printed used (run mixed (attached used)).client (run mixed (attached used)).output
    × ((run mixed (attached used)).server ≡ over → (run mixed (attached used)).client ≡ gone)
run-Printed_example = run-Printed used mixed used-Segment

-- On a new segment, the client has had all its turns before the server.
abbrev early : State
early = run (client_acts ∷ client_acts ∷ []) (attached (λ k. 0))

early_gone : early.client ≡ gone
unfolding run step client_step read_next attached
early_gone = refl

run-misses_example : (run mixed early).server ≢ over
unfolding run step client_step read_next attached
run-misses_example = run-misses early mixed early_gone refl
