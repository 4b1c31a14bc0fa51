-- ===== src/PipeCopy/Progress.antt =====
-- As long as a call is left, one of the two processes can go on.
use semestre.Base.{
  ◌-◌, ◌||◌, false, ℕ, ◌+◌, ◌*◌, ◌<◌, ◌≤◌, ◌≡◌, ◌≢◌, refl, ap, ◌⊎◌, inl, inr, Bool, true, [], ◌∷◌,
  ◌++◌, Bytes, length, length-append, append-nil, arith, take, min, suc, drop, take-append-drop,
  drop_all, length-take,
}
use semestre.PipeCopy.{
  Father, opening, reading, waiting, gone, writing, Child, beginning, taking, done, showing, State,
  father_has, father_left, father_step, child_has, child_step, father_write, father_wait, maxline,
}
use semestre.PipeCopy.Way.{of_father, of_child, at, Ordered, some_taken}

abbrev father_calls : Father → ℕ
father_calls opening = 3
father_calls reading = 2
father_calls waiting = 1
father_calls gone = 0
father_calls (writing bs) = 3

abbrev child_calls : Child → ℕ
child_calls beginning = 2
child_calls taking = 1
child_calls done = 0
child_calls (showing bs) = 2

-- A bound on the calls that are left, which each call that moves something takes one from at least.
abbrev pub calls : Father → Child → Bytes → Bytes → ℕ
calls f c i p =
    7 * length i
    + 5 * length (of_father f)
    + 4 * length p
    + 2 * length (of_child c)
    + father_calls f
    + child_calls c

abbrev pub calls_left : State → ℕ
calls_left s = calls s.father s.child s.input s.pipe

-- Where a call waits.
abbrev pub FatherStuck : ℕ → Father → Child → Bytes → Type 0
FatherStuck size opening c p = ⊥
FatherStuck size reading c p = ⊥
FatherStuck size waiting c p = c ≢ done
FatherStuck size gone c p = Unit {0}
FatherStuck size (writing bs) c p = size ≤ length p

abbrev pub ChildStuck : Child → Bool → Bytes → Type 0
ChildStuck beginning more p = ⊥
ChildStuck taking more p = (more ≡ true) × (p ≡ [])
ChildStuck done more p = Unit {0}
ChildStuck (showing bs) more p = ⊥

all_of : (k : ℕ) (p : Bytes) → take (min (suc k) maxline) p ≡ [] → drop (min (suc k) maxline) p ≡ []
all_of k p e = rw (some_taken k p e) (drop_all (min (suc k) maxline) [] (omega arith))

module _ (size : ℕ) where
  father_has-moves :
      (bs rest : Bytes) (c : Child) (fe ce : Bool) (p o : Bytes)
      → calls_left (father_has bs (at reading c fe ce rest p o)) < calls reading c (bs ++ rest) p
  unfolding father_has
  father_has-moves [] rest c fe ce p o = omega arith
  father_has-moves (b ∷ bs) rest c fe ce p o = omega (arith, length-append bs rest)

  father_left-moves :
      (moved rest bs : Bytes) (c : Child) (fe ce : Bool) (i p o : Bytes)
      → moved ++ rest ≡ bs
      → (moved ≡ [] → 0 < length bs → size ≤ length p)
      → (calls_left (father_left rest (at (writing bs) c fe ce i (p ++ moved) o))
          < calls (writing bs) c i p)
        ⊎ ((father_left rest (at (writing bs) c fe ce i (p ++ moved) o)
              ≡ at (writing bs) c fe ce i p o)
            × (size ≤ length p))
  unfolding father_left
  father_left-moves moved [] bs c fe ce i p o e full =
      inl (omega (arith, length-append moved [], length-append p moved, ap length e))
  father_left-moves [] (b ∷ rest) bs c fe ce i p o e full =
      inr (rw (e, append-nil p) refl, full refl (omega (arith, ap length e)))
  father_left-moves (m ∷ moved) (b ∷ rest) bs c fe ce i p o e full =
      inl (omega (arith, length-append moved (b ∷ rest), length-append p (m ∷ moved), ap length e))

  some_written :
      (k : ℕ) (bs p : Bytes)
      → take (min (suc k) (size - length p)) bs ≡ []
      → 0 < length bs
      → size ≤ length p
  some_written k bs p e some =
      omega (arith, ap length e, length-take (min (suc k) (size - length p)) bs)

  pub father_goes_on :
      (k : ℕ) (f : Father) (c : Child) (fe ce : Bool) (i p o : Bytes)
      → (calls_left (father_step size k f (at f c fe ce i p o)) < calls f c i p)
        ⊎ ((father_step size k f (at f c fe ce i p o) ≡ at f c fe ce i p o)
            × FatherStuck size f c p)
  unfolding father_step father_write father_wait
  father_goes_on k opening c fe ce i p o = inl (omega arith)
  father_goes_on k reading c fe ce i p o =
      let n = min (suc k) maxline in
      inl (rw (take-append-drop n i) at (father_has-moves (take n i) (drop n i) c fe ce p o))
  father_goes_on k (writing bs) c fe ce i p o =
      let n = min (suc k) (size - length p) in
      father_left-moves (take n bs) (drop n bs) bs c fe ce i p o (take-append-drop n bs)
        (λ e. some_written k bs p e)
  father_goes_on k waiting beginning fe ce i p o = inr (refl, λ e. cc)
  father_goes_on k waiting taking fe ce i p o = inr (refl, λ e. cc)
  father_goes_on k waiting (showing bs) fe ce i p o = inr (refl, λ e. cc)
  father_goes_on k waiting done fe ce i p o = inl (omega arith)
  father_goes_on k gone c fe ce i p o = inr (refl, tt)

  child_has-moves :
      (f : Father) (bs rest : Bytes) (fe ce : Bool) (i o : Bytes)
      → (bs ≡ [] → rest ≡ [])
      → (calls_left (child_has (fe || ce) bs (at f taking fe ce i rest o))
          < calls f taking i (bs ++ rest))
        ⊎ ((child_has (fe || ce) bs (at f taking fe ce i rest o)
              ≡ at f taking fe ce i (bs ++ rest) o)
            × ChildStuck taking (fe || ce) (bs ++ rest))
  unfolding child_has
  child_has-moves f [] rest true ce i o none_left = inr (refl, (refl, none_left refl))
  child_has-moves f [] rest false true i o none_left = inr (refl, (refl, none_left refl))
  child_has-moves f [] rest false false i o none_left = inl (omega arith)
  child_has-moves f (b ∷ bs) rest fe ce i o none_left = inl (omega (arith, length-append bs rest))

  pub child_goes_on :
      (k : ℕ) (f : Father) (c : Child) (fe ce : Bool) (i p o : Bytes)
      → (calls_left (child_step k c (at f c fe ce i p o)) < calls f c i p)
        ⊎ ((child_step k c (at f c fe ce i p o) ≡ at f c fe ce i p o) × ChildStuck c (fe || ce) p)
  unfolding child_step
  child_goes_on k f beginning fe ce i p o = inl (omega arith)
  child_goes_on k f taking fe ce i p o =
      let n = min (suc k) maxline in
      rw (take-append-drop n p) at (child_has-moves f (take n p) (drop n p) fe ce i o (all_of k p))
  child_goes_on k f (showing bs) fe ce i p o = inl (omega arith)
  child_goes_on k f done fe ce i p o = inr (refl, tt)

-- While a byte or a call is left, one of the two can go on.
pub not_both :
    (size : ℕ) (text : Bytes) (f : Father) (c : Child) (fe ce : Bool) (i p o : Bytes)
    → 0 < size
    → Ordered text (at f c fe ce i p o)
    → FatherStuck size f c p
    → ChildStuck c (fe || ce) p
    → (f ≡ gone) × (c ≡ done)
not_both size text f beginning fe ce i p o some h a b = absurd b
not_both size text f (showing bs) fe ce i p o some h a b = absurd b
not_both size text opening c fe ce i p o some h a b = absurd a
not_both size text reading c fe ce i p o some h a b = absurd a
not_both size text (writing bs) taking fe ce i p o some h a b =
    absurd (omega (arith, ap length b.1))
not_both size text (writing bs) done fe ce i p o some h a b = let e = h.all_taken.0 in cc
not_both size text waiting taking fe ce i p o some h a b =
    let closed = (rw (h.father_open, h.child_open) at b.0) in cc
not_both size text waiting done fe ce i p o some h a b = absurd (a refl)
not_both size text gone taking fe ce i p o some h a b = (refl, h.ends_last)
not_both size text gone done fe ce i p o some h a b = (refl, refl)
