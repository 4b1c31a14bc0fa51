-- ===== src/PipeCopy/Ends.antt =====
-- Both processes come to their ends.
use mathlib.Core.Path.{subst}
use semestre.Base.{
  sym, ◌||◌, false, ℕ, ◌+◌, ◌*◌, ◌<◌, ◌≤◌, ◌≡◌, refl, ap, ◌∙◌, ◌⊎◌, inl, inr, Bool, true, [], ◌∷◌,
  ◌++◌, Bytes, length, arith, List,
}
use semestre.PipeCopy.{
  Father, opening, reading, waiting, gone, writing, Child, beginning, taking, done, showing, State,
  father_step, child_step, run, Turn, step, father_acts, child_acts, forked,
}
use semestre.PipeCopy.Way.{Ordered}
use semestre.PipeCopy.Order.{run-Ordered, forked-Ordered, run-in_order_of_input}
use semestre.PipeCopy.Progress.{
  calls, calls_left, FatherStuck, ChildStuck, father_goes_on, child_goes_on, not_both,
}

abbrev pub has_father : List Turn → Bool
has_father [] = false
has_father (father_acts k ∷ ts) = true
has_father (child_acts k ∷ ts) = has_father ts

abbrev pub has_child : List Turn → Bool
has_child [] = false
has_child (father_acts k ∷ ts) = has_child ts
has_child (child_acts k ∷ ts) = true

module _ (size : ℕ) where
  -- The father cannot go on in `s`; the child cannot.
  abbrev FatherRests : State → Type 0
  FatherRests s = FatherStuck size s.father s.child s.pipe

  abbrev ChildRests : State → Type 0
  ChildRests s = ChildStuck s.child (s.father_end || s.child_end) s.pipe

  -- After some turns there are fewer calls left, or nothing has changed and whoever had a turn rests.
  run-rests :
      (ts : List Turn) (s : State)
      → (calls_left (run size ts s) < calls_left s)
        ⊎ ((run size ts s ≡ s)
            × (has_father ts ≡ true → FatherRests s)
            × (has_child ts ≡ true → ChildRests s))
  unfolding run step
  run-rests [] s = inr (refl, λ e. cc, λ e. cc)
  run-rests (father_acts k ∷ ts) s =
      elim (father_goes_on size k s.father s.child s.father_end s.child_end s.input s.pipe
        s.output) [
          | inl less ↦ elim (run-rests ts (step size (father_acts k) s)) [
            | inl more ↦ inl (omega arith)
            | inr (same, r, c) ↦ inl (omega (arith, ap calls_left same))
          ]
          | inr (same, rests) ↦ elim (run-rests ts s) [
            | inl less ↦ inl (omega (arith, ap (λ u. calls_left (run size ts u)) same))
            | inr (still, r, c) ↦ inr (ap (run size ts) same ∙ still, λ e. rests, c)
          ]
        ]
  run-rests (child_acts k ∷ ts) s =
      elim (child_goes_on size k s.father s.child s.father_end s.child_end s.input s.pipe
        s.output) [
          | inl less ↦ elim (run-rests ts (step size (child_acts k) s)) [
            | inl more ↦ inl (omega arith)
            | inr (same, r, c) ↦ inl (omega (arith, ap calls_left same))
          ]
          | inr (same, rests) ↦ elim (run-rests ts s) [
            | inl less ↦ inl (omega (arith, ap (λ u. calls_left (run size ts u)) same))
            | inr (still, r, c) ↦ inr (ap (run size ts) same ∙ still, r, λ e. rests)
          ]
        ]

-- Turns one after another in rounds, in each of which both have a turn at least.
abbrev pub all_turns : List (List Turn) → List Turn
all_turns [] = []
all_turns (ts ∷ tss) = ts ++ all_turns tss

abbrev pub Fair : List (List Turn) → Type 0
Fair [] = Unit {0}
Fair (ts ∷ tss) = (has_father ts ≡ true) × (has_child ts ≡ true) × Fair tss

run-append :
    (size : ℕ) (xs ys : List Turn) (s : State) → run size (xs ++ ys) s ≡ run size ys (run size xs s)
unfolding run
run-append size [] ys s = refl
run-append size (t ∷ xs) ys s = run-append size xs ys (step size t s)

abbrev Over : State → Type 0
Over s = (s.father ≡ gone) × (s.child ≡ done)

run-Over : (size : ℕ) (ts : List Turn) (s : State) → Over s → Over (run size ts s)
unfolding run step father_step child_step
run-Over size [] s h = h
run-Over size (father_acts k ∷ ts) s h =
    subst (λ u. Over (run size ts u)) (sym (ap (λ f. father_step size k f s) h.0))
      (run-Over size ts s h)
run-Over size (child_acts k ∷ ts) s h =
    subst (λ u. Over (run size ts u)) (sym (ap (λ c. child_step k c s) h.1)) (run-Over size ts s h)

calls-zero : (f : Father) (c : Child) (i p : Bytes) → calls f c i p ≤ 0 → (f ≡ gone) × (c ≡ done)
calls-zero gone done i p h = (refl, refl)
calls-zero gone beginning i p h = absurd (omega arith)
calls-zero gone taking i p h = absurd (omega arith)
calls-zero gone (showing bs) i p h = absurd (omega arith)
calls-zero opening c i p h = absurd (omega arith)
calls-zero reading c i p h = absurd (omega arith)
calls-zero waiting c i p h = absurd (omega arith)
calls-zero (writing bs) c i p h = absurd (omega arith)

rounds-Over :
    (size : ℕ) (text : Bytes) (tss : List (List Turn)) (s : State)
    → 0 < size
    → Ordered text s
    → Fair tss
    → calls_left s ≤ length tss
    → Over (run size (all_turns tss) s)
unfolding run
rounds-Over size text [] s some h fair enough = calls-zero s.father s.child s.input s.pipe enough
rounds-Over size text (ts ∷ tss) s some h fair enough =
    rw (run-append size ts (all_turns tss) s) (elim (run-rests size ts s) [
      | inl less ↦
          rounds-Over size text tss (run size ts s) some (run-Ordered text size ts s h) fair.2
            (omega arith)
      | inr (same, father, child) ↦ run-Over size (all_turns tss) (run size ts s) (
          rw same (
            not_both size text s.father s.child s.father_end s.child_end s.input s.pipe s.output
              some h (father fair.0) (child fair.1)))
    ])

-- With a pipe that has room for a byte at least, and seven rounds for each byte of the input and
-- five more, where both have a turn in every round and the turns come in any order, however many
-- bytes each call moves: both processes have ended, and the whole input is on the screen.
pub run-ends :
    (size : ℕ) (text : Bytes) (tss : List (List Turn))
    → 0 < size
    → Fair tss
    → 7 * length text + 5 ≤ length tss
    → ((run size (all_turns tss) (forked text)).father ≡ gone)
      × ((run size (all_turns tss) (forked text)).child ≡ done)
      × ((run size (all_turns tss) (forked text)).output ≡ text)
run-ends size text tss some fair enough =
    let (father, child) =
      rounds-Over size text tss (forked text) some (forked-Ordered text size) fair
        (unfold forked in omega arith) in
    (father, child, (run-in_order_of_input size text (all_turns tss)).1 child)
