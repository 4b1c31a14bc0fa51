-- ===== src/PipeCopy/Order.antt =====
-- What is on the screen at any time.
use semestre.Base.{ℕ, ◌≡◌, refl, sym, ◌∙◌, Bool, [], ◌∷◌, ◌++◌, Bytes, List, append-nil}
use semestre.PipeCopy.{
  Father, opening, reading, waiting, gone, writing, Child, beginning, taking, done, showing, State,
  step, run, forked, Turn, father_acts, child_acts,
}
use semestre.PipeCopy.Way.{Ordered, at, nothing_left, of_father}
use semestre.PipeCopy.Steps.{father_at-Ordered, child_at-Ordered}

module _ (text : Bytes) (size : ℕ) where
  Ordered-done :
      (f : Father) (c : Child) (fe ce : Bool) (i p o : Bytes)
      → Ordered text (at f c fe ce i p o)
      → c ≡ done
      → o ≡ text
  Ordered-done f beginning fe ce i p o h e = cc
  Ordered-done f taking fe ce i p o h e = cc
  Ordered-done f (showing bs) fe ce i p o h e = cc
  Ordered-done f done fe ce i p o h e =
      let (over, empty) = h.all_taken in
      let none_left : p ++ (of_father f ++ i) ≡ [] = rw empty (nothing_left f i over h.all_read) in
      sym (append-nil o) ∙ (rw none_left at h.all)

  Ordered-gone :
      (f : Father) (c : Child) (fe ce : Bool) (i p o : Bytes)
      → Ordered text (at f c fe ce i p o)
      → f ≡ gone
      → c ≡ done
  Ordered-gone opening c fe ce i p o h e = cc
  Ordered-gone reading c fe ce i p o h e = cc
  Ordered-gone waiting c fe ce i p o h e = cc
  Ordered-gone (writing bs) c fe ce i p o h e = cc
  Ordered-gone gone c fe ce i p o h e = h.ends_last

  step-Ordered : (t : Turn) (s : State) → Ordered text s → Ordered text (step size t s)
  unfolding step
  step-Ordered (father_acts k) s h =
      father_at-Ordered text size k s.father s.child s.father_end s.child_end s.input s.pipe
        s.output h
  step-Ordered (child_acts k) s h =
      child_at-Ordered text size k s.father s.child s.father_end s.child_end s.input s.pipe s.output
        h

  pub run-Ordered : (ts : List Turn) (s : State) → Ordered text s → Ordered text (run size ts s)
  unfolding run
  run-Ordered [] s h = h
  run-Ordered (t ∷ ts) s h = run-Ordered ts (step size t s) (step-Ordered t s h)

  pub forked-Ordered : Ordered text (forked text)
  unfolding forked
  forked-Ordered = record {
    all = refl;
    father_open = refl;
    child_open = refl;
    all_read = tt;
    all_taken = tt;
    ends_last = tt;
  }

-- In whatever order the two are run, however many bytes each call moves and whatever the size of the
-- pipe: what is on the screen is a beginning of the input; once the child has ended it is the whole
-- input; and the father ends behind the child.
pub run-in_order_of_input :
    (size : ℕ) (text : Bytes) (ts : List Turn)
    → ((rest : Bytes) × ((run size ts (forked text)).output ++ rest ≡ text))
      × ((run size ts (forked text)).child ≡ done → (run size ts (forked text)).output ≡ text)
      × ((run size ts (forked text)).father ≡ gone → (run size ts (forked text)).child ≡ done)
run-in_order_of_input size text ts =
    let s = run size ts (forked text) in
    let h = run-Ordered text size ts (forked text) (forked-Ordered text size) in
    (
      (_, h.all),
      Ordered-done text size s.father s.child s.father_end s.child_end s.input s.pipe s.output h,
      Ordered-gone text size s.father s.child s.father_end s.child_end s.input s.pipe s.output h,
    )
