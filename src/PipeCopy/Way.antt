-- ===== src/PipeCopy/Way.antt =====
-- What is on its way from the input to the screen.
use semestre.Base.{
  ℕ, suc, ◌≡◌, ◌≢◌, refl, sym, ap, ◌∙◌, min, Bool, true, false, [], ◌∷◌, ◌++◌, Bytes, take,
  append_assoc, arith,
}
use semestre.PipeCopy.{
  Father, opening, reading, waiting, gone, writing, Child, beginning, taking, done, showing, State,
  maxline,
}

-- What the father has read and not written, and the child likewise.
abbrev pub of_father : Father → Bytes
of_father opening = []
of_father reading = []
of_father waiting = []
of_father gone = []
of_father (writing bs) = bs

abbrev pub of_child : Child → Bytes
of_child beginning = []
of_child taking = []
of_child done = []
of_child (showing bs) = bs

-- The father has not closed the end that he writes to.
abbrev pub in_loop : Father → Bool
in_loop opening = true
in_loop reading = true
in_loop waiting = false
in_loop gone = false
in_loop (writing bs) = true

abbrev pub at_start : Child → Bool
at_start beginning = true
at_start taking = false
at_start done = false
at_start (showing bs) = false

-- Behind the father's loop no input is left.
abbrev pub AllRead : Father → Bytes → Type 0
AllRead opening input = Unit {0}
AllRead reading input = Unit {0}
AllRead waiting input = input ≡ []
AllRead gone input = input ≡ []
AllRead (writing bs) input = Unit {0}

-- Behind the child's loop the pipe is empty, and the father is behind his.
abbrev pub AllTaken : Child → Bool → Bytes → Type 0
AllTaken beginning more pipe = Unit {0}
AllTaken taking more pipe = Unit {0}
AllTaken done more pipe = (more ≡ false) × (pipe ≡ [])
AllTaken (showing bs) more pipe = Unit {0}

-- The father ends behind the child.
abbrev pub EndsLast : Father → Child → Type 0
EndsLast opening c = Unit {0}
EndsLast reading c = Unit {0}
EndsLast waiting c = Unit {0}
EndsLast gone c = c ≡ done
EndsLast (writing bs) c = Unit {0}

pub record Ordered (text : Bytes) (s : State) : Type 0 where
  pub all : s.output ++ (of_child s.child ++ (s.pipe ++ (of_father s.father ++ s.input))) ≡ text
  pub father_open : s.father_end ≡ in_loop s.father
  pub child_open : s.child_end ≡ at_start s.child
  pub all_read : AllRead s.father s.input
  pub all_taken : AllTaken s.child (in_loop s.father) s.pipe
  pub ends_last : EndsLast s.father s.child

abbrev pub at : Father → Child → Bool → Bool → Bytes → Bytes → Bytes → State
at f c fe ce i p o = record {
  father = f;
  child = c;
  father_end = fe;
  child_end = ce;
  input = i;
  pipe = p;
  output = o;
}

pub some_taken : (k : ℕ) (bs : Bytes) → take (min (suc k) maxline) bs ≡ [] → bs ≡ []
unfolding take
some_taken k [] e = refl
some_taken k (b ∷ bs) e =
    let one : min (suc k) maxline ≡ suc (min k 8191) = omega arith in
    let e' : b ∷ take (min k 8191) bs ≡ [] = rw one at e in cc

-- The child is not behind its loop while the father is in his.
pub still_going : (c : Child) (more : Bool) (p p' : Bytes) → AllTaken c true p → AllTaken c more p'
still_going beginning more p p' h = tt
still_going taking more p p' h = tt
still_going done more p p' h = let e = h.0 in cc
still_going (showing bs) more p p' h = tt

-- The father is not at his end while the child is not.
pub not_gone : (f : Father) (c c' : Child) → (c ≢ done) → EndsLast f c → EndsLast f c'
not_gone opening c c' n h = tt
not_gone reading c c' n h = tt
not_gone waiting c c' n h = tt
not_gone gone c c' n h = absurd (n h)
not_gone (writing bs) c c' n h = tt

pub nothing_left :
    (f : Father) (i : Bytes) → in_loop f ≡ false → AllRead f i → of_father f ++ i ≡ []
nothing_left opening i over h = cc
nothing_left reading i over h = cc
nothing_left waiting i over h = h
nothing_left gone i over h = h
nothing_left (writing bs) i over h = cc

pub regroup : (p moved rest i : Bytes) → (p ++ moved) ++ (rest ++ i) ≡ p ++ ((moved ++ rest) ++ i)
regroup p moved rest i =
    append_assoc p moved (rest ++ i) ∙ ap (◌++◌ p) (sym (append_assoc moved rest i))
