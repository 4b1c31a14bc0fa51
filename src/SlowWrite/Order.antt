-- ===== src/SlowWrite/Order.antt =====
-- The order of the two texts.
use semestre.Base.{
  arith, ◌-◌, ℕ, ◌+◌, ◌≤◌, length, ◌≡◌, refl, sym, ap, ◌∙◌, append_assoc, append-nil, true, List,
  [], ◌∷◌, ◌++◌, Bytes,
}
use semestre.TellWait.{
  wait_parent, tell_child, Pair, init_synchro, act, step, run, Turn, parent_acts, child_acts,
  wait_parent_at, sigsuspend,
}
use semestre.SlowWrite.{slow_write, child_main, parent_main, forked, Bytes, ◌++◌, ◌∷◌}

abbrev pub turns_of_parent : List Turn → ℕ
turns_of_parent [] = 0
turns_of_parent (parent_acts ∷ ts) = 1 + turns_of_parent ts
turns_of_parent (child_acts ∷ ts) = turns_of_parent ts

abbrev pub turns_of_child : List Turn → ℕ
turns_of_child [] = 0
turns_of_child (parent_acts ∷ ts) = turns_of_child ts
turns_of_child (child_acts ∷ ts) = 1 + turns_of_child ts

-- How far the two are: the parent still has `p'` to print; the signal is pending; its handler has
-- run; or the child still has `c'` to print. The numbers are the steps left to the parent, and those
-- left to the child once it is told.
module _ (p c : Bytes) where
  data Reached : ℕ → ℕ → Pair → Type 0 where
    printing :
        (p' out : Bytes)
        → out ++ p' ≡ p
        → Reached (length p' + 1) (length c + 2) (record {
          parent = record { todo = slow_write p' ++ (tell_child ∷ []); signals = init_synchro };
          child = record { todo = wait_parent ∷ slow_write c; signals = init_synchro };
          output = out;
        })
    told :
        (out : Bytes)
        → out ≡ p
        → Reached 0 (length c + 2) (record {
          parent = record { todo = []; signals = init_synchro };
          child = record {
            todo = wait_parent ∷ slow_write c;
            signals = record init_synchro { pending_usr2 = true };
          };
          output = out;
        })
    flagged :
        (out : Bytes)
        → out ≡ p
        → Reached 0 (length c + 1) (record {
          parent = record { todo = []; signals = init_synchro };
          child = record {
            todo = wait_parent ∷ slow_write c;
            signals = record init_synchro { sigflag_parent = true };
          };
          output = out;
        })
    going :
        (c' out : Bytes)
        → out ++ c' ≡ p ++ c
        → Reached 0 (length c') (record {
          parent = record { todo = []; signals = init_synchro };
          child = record { todo = slow_write c'; signals = init_synchro };
          output = out;
        })

  -- A step of the parent takes one from its own, one of the child from its own once it is told.
  parent_acts-Reached :
      {n m : ℕ} {s : Pair} → Reached n m s → Reached (n - 1) m (step parent_acts s)
  unfolding step act slow_write
  parent_acts-Reached (printing [] out e) = told out (sym (append-nil out) ∙ e)
  parent_acts-Reached (printing (x ∷ p') out e) =
      let left : length (x ∷ p') + 1 - 1 ≡ length p' + 1 = omega arith in
      rw left (printing p' (out ++ x ∷ []) (append_assoc out (x ∷ []) p' ∙ e))
  parent_acts-Reached (told out e) = told out e
  parent_acts-Reached (flagged out e) = flagged out e
  parent_acts-Reached (going c' out e) = going c' out e

  child_acts-Reached :
      {n m : ℕ} {s : Pair}
      → Reached n m s
      → (m' : ℕ) × (m' ≤ m) × (n ≡ 0 → m' ≤ m - 1) × Reached n m' (step child_acts s)
  unfolding step act wait_parent_at sigsuspend slow_write
  child_acts-Reached (printing p' out e) =
      (length c + 2, omega arith, λ z. absurd (omega arith), printing p' out e)
  child_acts-Reached (told out e) = (length c + 1, omega arith, λ z. omega arith, flagged out e)
  child_acts-Reached (flagged out e) =
      (length c, omega arith, λ z. omega arith, going c out (ap (λ o. o ++ c) e))
  child_acts-Reached (going [] out e) = (0, omega arith, λ z. omega arith, going [] out e)
  child_acts-Reached (going (x ∷ c') out e) = (
    length c',
    omega arith,
    λ z. omega arith,
    going c' (out ++ x ∷ []) (append_assoc out (x ∷ []) c' ∙ e),
  )

  run-Reached :
      (ts : List Turn) {n m : ℕ} (s : Pair)
      → Reached n m s
      → (m' : ℕ) × (m' ≤ m)
        × (n ≡ 0 → m' ≤ m - turns_of_child ts)
        × Reached (n - turns_of_parent ts) m' (run ts s)
  unfolding run
  run-Reached [] {n = n} {m = m} s h =
      (m, omega arith, λ z. omega arith, (let all : n - 0 ≡ n = omega arith in rw all h))
  run-Reached (parent_acts ∷ ts) {n = n} {m = m} s h =
      let (m', le, goes, k) = run-Reached ts _ (parent_acts-Reached h) in
      (
        m',
        le,
        λ z. goes (omega (arith, z)),
        (let one : n - (1 + turns_of_parent ts) ≡ n - 1 - turns_of_parent ts = omega arith in
            rw one k),
      )
  run-Reached (child_acts ∷ ts) {n = n} {m = m} s h =
      let (m1, le1, goes1, k1) = child_acts-Reached h in
      let (m', le, goes, k) = run-Reached ts _ k1 in
      (m', omega arith, λ z. omega (arith, goes1 z, goes z), k)

  forked-Reached : Reached (length p + 1) (length c + 2) (forked p c)
  unfolding forked parent_main child_main
  forked-Reached = printing p [] refl

  Reached-output :
      {n m : ℕ} {s : Pair} → Reached n m s → (rest : Bytes) × (s.output ++ rest ≡ p ++ c)
  Reached-output (printing p' out e) = (p' ++ c, sym (append_assoc out p' c) ∙ ap (λ o. o ++ c) e)
  Reached-output (told out e) = (c, ap (λ o. o ++ c) e)
  Reached-output (flagged out e) = (c, ap (λ o. o ++ c) e)
  Reached-output (going c' out e) = (c', e)

  Reached-ended : {n m : ℕ} {s : Pair} → Reached n m s → n ≡ 0 → m ≡ 0 → s.output ≡ p ++ c
  Reached-ended (printing p' out e) y z = absurd (omega arith)
  Reached-ended (told out e) y z = absurd (omega arith)
  Reached-ended (flagged out e) y z = absurd (omega arith)
  Reached-ended (going [] out e) y z = sym (append-nil out) ∙ e
  Reached-ended (going (x ∷ c') out e) y z = absurd (omega arith)

-- In whatever order parent and child are run, what has been printed is a beginning of the parent's
-- text followed by the child's.
pub run-in_order :
    (p c : Bytes) (ts : List Turn)
    → (rest : Bytes) × ((run ts (forked p c)).output ++ rest ≡ p ++ c)
run-in_order p c ts =
    let (m, le, goes, k) = run-Reached p c ts (forked p c) (forked-Reached p c) in
    Reached-output p c k

-- When the parent gets a turn for each byte of its text and one more, and then the child one for
-- each byte of its own and two more, the whole of both texts has been printed, the parent's first,
-- whatever turns the other one gets in between.
pub run-prints_all :
    (p c : Bytes) (ts us : List Turn)
    → length p + 1 ≤ turns_of_parent ts
    → length c + 2 ≤ turns_of_child us
    → (run us (run ts (forked p c))).output ≡ p ++ c
run-prints_all p c ts us h k =
    let (m, le, _, between) = run-Reached p c ts (forked p c) (forked-Reached p c) in
    let (m', le', goes, done) = run-Reached p c us _ between in
    let none_left : length p + 1 - turns_of_parent ts ≡ 0 = omega arith in
    Reached-ended p c done (omega (arith, none_left)) (omega (arith, goes none_left))
