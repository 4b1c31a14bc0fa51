-- ===== src/SignalCount/Counts.antt =====
-- The numbers that the parent can print.
use semestre.Base.{
  ◌-◌, ℕ, zero, suc, ◌+◌, ◌≤◌, ◌<◌, ◌≡◌, refl, ap, ◌∙◌, Bool, true, false, Option, none, some, List,
  [], ◌∷◌, arith,
}
use semestre.SignalCount.{
  State, forked, child_step, wait_step, parent_step, Turn, parent_acts, child_acts, step, run,
}

abbrev one_if : Bool → ℕ
one_if true = 1
one_if false = 0

abbrev Printed : Option ℕ → Type 0
Printed none = Unit {0}
Printed (some c) = (1 ≤ c) × (c ≤ 5)

-- Each signal that was sent has been counted, is pending or was lost to one that was pending; and
-- one at least was not lost.
record Counted (s : State) : Type 0 where
  pub at_most : s.counter + one_if s.pending + s.to_send ≤ 5
  pub at_least : s.to_send < 5 → 1 ≤ s.counter + one_if s.pending
  pub sent_all : s.child_over ≡ true → s.to_send ≡ 0
  pub prints : Printed s.printed

abbrev at : ℕ → Bool → Bool → Bool → ℕ → Option ℕ → State
at n over pending inside c o = record {
  to_send = n;
  child_over = over;
  pending = pending;
  in_handler = inside;
  counter = c;
  printed = o;
}

child_step-Counted :
    (n : ℕ) (over pending inside : Bool) (c : ℕ) (o : Option ℕ)
    → Counted (at n over pending inside c o)
    → Counted (child_step n (at n over pending inside c o))
unfolding child_step
child_step-Counted zero over pending inside c o h = record {
  at_most = h.at_most;
  at_least = h.at_least;
  sent_all = λ e. refl;
  prints = h.prints;
}
child_step-Counted (suc n) over true inside c o h = record {
  at_most = omega (arith, h.at_most);
  at_least = λ e. omega arith;
  sent_all = λ e. absurd (omega (arith, h.sent_all e));
  prints = h.prints;
}
child_step-Counted (suc n) over false inside c o h = record {
  at_most = omega (arith, h.at_most);
  at_least = λ e. omega arith;
  sent_all = λ e. absurd (omega (arith, h.sent_all e));
  prints = h.prints;
}

parent_step-Counted :
    (n : ℕ) (over pending inside : Bool) (c : ℕ) (o : Option ℕ)
    → Counted (at n over pending inside c o)
    → Counted (parent_step inside pending (at n over pending inside c o))
unfolding parent_step wait_step
parent_step-Counted n over pending true c o h = record {
  at_most = h.at_most;
  at_least = h.at_least;
  sent_all = h.sent_all;
  prints = h.prints;
}
parent_step-Counted n over true false c o h = record {
  at_most = omega (arith, h.at_most);
  at_least = λ e. omega arith;
  sent_all = h.sent_all;
  prints = h.prints;
}
parent_step-Counted n false false false c o h = h
parent_step-Counted n true false false c o h = record {
  at_most = h.at_most;
  at_least = h.at_least;
  sent_all = h.sent_all;
  prints = (omega (arith, h.at_least (omega (arith, h.sent_all refl))), omega (arith, h.at_most));
}

step-Counted : (t : Turn) (s : State) → Counted s → Counted (step t s)
unfolding step
step-Counted parent_acts s h =
    parent_step-Counted s.to_send s.child_over s.pending s.in_handler s.counter s.printed h
step-Counted child_acts s h =
    child_step-Counted s.to_send s.child_over s.pending s.in_handler s.counter s.printed h

run-Counted : (ts : List Turn) (s : State) → Counted s → Counted (run ts s)
unfolding run
run-Counted [] s h = h
run-Counted (t ∷ ts) s h = run-Counted ts (step t s) (step-Counted t s h)

forked-Counted : Counted forked
unfolding forked
forked-Counted = record {
  at_most = omega arith;
  at_least = λ e. absurd (omega arith);
  sent_all = λ e. cc;
  prints = tt;
}

bounded : (c : ℕ) (ts : List Turn) → (run ts forked).printed ≡ some c → (1 ≤ c) × (c ≤ 5)
bounded c ts e = rw e at (run-Counted ts forked forked-Counted).prints

-- The orders that print a given number: a signal at a time is handled, the last ones are sent
-- together.
sends : ℕ → List Turn
sends zero = parent_acts ∷ parent_acts ∷ child_acts ∷ parent_acts ∷ []
sends (suc n) = child_acts ∷ sends n

order_for : ℕ → ℕ → List Turn
unfolding sends
order_for zero last = sends last
order_for (suc c) last = child_acts ∷ parent_acts ∷ parent_acts ∷ order_for c last

run-sends : (n c : ℕ) → (run (sends n) (at n false true false c none)).printed ≡ some (c + 1)
unfolding sends run step child_step parent_step wait_step
run-sends zero c = refl
run-sends (suc n) c = run-sends n c

run-order_for :
    (k n m c : ℕ)
    → m ≡ k + suc n
    → (run (order_for k (suc n)) (at m false false false c none)).printed ≡ some (c + k + 1)
unfolding order_for sends run step child_step parent_step wait_step
run-order_for zero n zero c e = absurd (omega arith)
run-order_for (suc k) n zero c e = absurd (omega arith)
run-order_for zero n (suc m) c e =
    let last : m ≡ n = omega arith in
    ap (λ l. (run (sends n) (at l false true false c none)).printed) last
    ∙ run-sends n c
    ∙ ap some (omega arith)
run-order_for (suc k) n (suc m) c e =
    run-order_for k n m (c + 1) (omega arith) ∙ ap some (omega arith)

-- The parent never prints another number than 1, 2, 3, 4 or 5, in whatever order the two are run;
-- and each of these is printed in some order.
pub run-prints_iff :
    (c : ℕ)
    → ((ts : List Turn) → (run ts forked).printed ≡ some c → (1 ≤ c) × (c ≤ 5))
      × (1 ≤ c → c ≤ 5 → (ts : List Turn) × ((run ts forked).printed ≡ some c))
unfolding forked
run-prints_iff zero = (bounded zero, λ low high. absurd (omega arith))
run-prints_iff (suc c) = (
  bounded (suc c),
  λ low high. (
    order_for c (suc (4 - c)),
    run-order_for c (4 - c) 5 0 (omega arith) ∙ ap some (omega arith),
  ),
)
