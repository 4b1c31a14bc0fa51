-- ===== src/Posix/Keeps.antt =====
-- Invariants of programs: rules for the ways to build one, for `search` to walk a `do` block.
use semestre.Base.{◌≡◌, Bool, true, false, if◌then◌else◌, arith}
use mathlib.Core.Path.{subst}
use semestre.Posix.Run.{
  Run, ok, exited, fault, out_of_fuel, Prog, and_then, ◌>>=◌, pure, exit, crash, gets, modify,
}

-- The state after a return, if there is one.
pub data Returns {S A : Type 0} (P : S → Type 0) : Run S A → Type 0 where
  returned : {a : A} {s : S} → P s → Returns P (ok a s)
  ended : {s : S} → Returns P (exited s)
  faulted : Returns P fault
  spent : {s : S} → Returns P (out_of_fuel s)

-- From a state with `P`, each return of `m` is in a state with `P`.
pub record Keeps {S A : Type 0} (P : S → Type 0) (m : Prog S A) : Type 0 where
  pub at : (s : S) → P s → Returns P (m s)

module _ {S A : Type 0} {P : S → Type 0} where
  -- A call that is known to return.
  pub Returns-ok : (r : Run S A) {a : A} {s : S} → Returns P r → r ≡ ok a s → P s
  Returns-ok (ok a s) (returned h) e = let e' : s ≡ _ = ground arith in subst P e' h
  Returns-ok (exited s) h e = cc
  Returns-ok fault h e = cc
  Returns-ok (out_of_fuel s) h e = cc

  pub Keeps-pure : (a : A) → Keeps P (pure a)
  Keeps-pure a = record { at = λ s h. returned h }

  pub Keeps-exit : Keeps P (exit {A = A})
  Keeps-exit = record { at = λ s h. ended }

  pub Keeps-crash : Keeps P (crash {A = A})
  Keeps-crash = record { at = λ s h. faulted }

  pub Keeps-spent : Keeps {A = A} P (λ s. out_of_fuel s)
  Keeps-spent = record { at = λ s h. spent }

  pub Keeps-gets : (f : S → A) → Keeps P (gets f)
  Keeps-gets f = record { at = λ s h. returned h }

  pub Keeps-if : (b : Bool) (m n : Prog S A) → Keeps P m → Keeps P n → Keeps P (if b then m else n)
  Keeps-if true m n km kn = km
  Keeps-if false m n km kn = kn

module _ {S A B : Type 0} {P : S → Type 0} where
  pub Returns-and_then :
      {r : Run S A} (f : A → Prog S B)
      → Returns P r
      → ((a : A) → Keeps P (f a))
      → Returns P (and_then r f)
  Returns-and_then f (returned h) kf = (kf _).at _ h
  Returns-and_then f ended kf = ended
  Returns-and_then f faulted kf = faulted
  Returns-and_then f spent kf = spent

  pub Keeps-bind :
      (m : Prog S A) (f : A → Prog S B) → Keeps P m → ((a : A) → Keeps P (f a)) → Keeps P (m >>= f)
  Keeps-bind m f km kf = record { at = λ s h. Returns-and_then f (km.at s h) kf }

module _ {S : Type 0} {P : S → Type 0} where
  pub Keeps-modify : (f : S → S) → ((s : S) → P s → P (f s)) → Keeps P (modify f)
  Keeps-modify f h = record { at = λ s p. returned (h s p) }

pub ruleset keeps_rules =
    (Keeps-pure, Keeps-exit, Keeps-crash, Keeps-spent, Keeps-gets, Keeps-if, Keeps-bind)
