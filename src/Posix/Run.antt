-- ===== src/Posix/Run.antt =====
-- A C program as a function of its state: it returns, calls `exit`, faults (undefined behaviour,
-- such as an access out of bounds) or uses up the rounds given to a loop.

pub data Run (S A : Type 0) : Type 0 where
  ok : A → S → Run S A
  exited : S → Run S A
  fault : Run S A
  out_of_fuel : S → Run S A

abbrev pub Prog : Type 0 → Type 0 → Type 0
Prog S A = S → Run S A

module _ {S A B : Type 0} where
  abbrev pub and_then : Run S A → (A → Prog S B) → Run S B
  and_then (ok a s) k = k a s
  and_then (exited s) k = exited s
  and_then fault k = fault
  and_then (out_of_fuel s) k = out_of_fuel s

  infixl 5 ◌>>=◌
  abbrev pub ◌>>=◌ : Prog S A → (A → Prog S B) → Prog S B
  m >>= k = λ s. and_then (m s) k

module _ {S B : Type 0} where
  infixl 5 ◌>>◌
  abbrev pub ◌>>◌ : Prog S (Unit {0}) → Prog S B → Prog S B
  m >> n = m >>= λ _. n

module _ {S A : Type 0} where
  abbrev pub pure : A → Prog S A
  pure a = λ s. ok a s

  -- `exit(0)`
  abbrev pub exit : Prog S A
  exit = λ s. exited s

  abbrev pub crash : Prog S A
  crash = λ s. fault

  abbrev pub gets : (S → A) → Prog S A
  gets f = λ s. ok (f s) s

abbrev pub modify : {S : Type 0} → (S → S) → Prog S (Unit {0})
modify f = λ s. ok tt (f s)

-- Partial correctness: what holds of the state after a return, and after `exit`.
pub data Holds {S A : Type 0} (Q : A → S → Type 0) (E : S → Type 0) : Run S A → Type 0 where
  held : {a : A} {s : S} → Q a s → Holds Q E (ok a s)
  left : {s : S} → E s → Holds Q E (exited s)
  faulted : Holds Q E fault
  spent : {s : S} → Holds Q E (out_of_fuel s)
