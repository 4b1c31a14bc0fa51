-- ===== src/Peterson/Entry.antt =====
-- The loops on the tests: one of two waiting processes gets out.
use semestre.Base.{ℕ, ◌+◌, ◌≤◌, ◌≡◌, ◌⊎◌, inl, inr, Bool, true, false, List, [], ◌∷◌, arith}
use semestre.Peterson.{
  Shm, Pc, test_flag, test_turn, critical, left, Processes, child_at, parent_at, Who, child_moves,
  parent_moves, forked, run, Bool, List, ℕ, true, false,
}
use semestre.Peterson.Exclusion.{inside, reached}

-- In the loop of tests.
abbrev pub testing : Pc → Bool
testing test_flag = true
testing test_turn = true
testing _ = false

-- Behind the loop.
abbrev pub past : Pc → Bool
past critical = true
past left = true
past _ = false

abbrev pub child_turns : List Who → ℕ
child_turns [] = 0
child_turns (child_moves ∷ ws) = 1 + child_turns ws
child_turns (parent_moves ∷ ws) = child_turns ws

abbrev pub parent_turns : List Who → ℕ
parent_turns [] = 0
parent_turns (child_moves ∷ ws) = parent_turns ws
parent_turns (parent_moves ∷ ws) = 1 + parent_turns ws

-- The tests that may be left to a process whose turn it is.
abbrev tests : Pc → ℕ
tests test_flag = 2
tests test_turn = 1
tests _ = 0

child_at-past : (c : Pc) (m : Shm) → past c ≡ true → past (child_at c m).1 ≡ true
unfolding child_at
child_at-past c m h = ground arith

parent_at-past : (c : Pc) (m : Shm) → past c ≡ true → past (parent_at c m).1 ≡ true
unfolding parent_at
parent_at-past c m h = ground arith

child-past : (ws : List Who) (s : Processes) → past s.child ≡ true → past (run ws s).child ≡ true
unfolding run
child-past [] s h = h
child-past (child_moves ∷ ws) s h = child-past ws _ (child_at-past s.child s.mem h)
child-past (parent_moves ∷ ws) s h = child-past ws _ h

-- What stays so while the child has the turn: it is behind the loop, or both are in it and the
-- child has at most `n` tests left.
abbrev ChildGoes : Shm → Pc → Pc → ℕ → Type 0
ChildGoes m c p n =
    (past c ≡ true)
    ⊎ ((testing c ≡ true) × (testing p ≡ true) × (m.turn ≡ 1) × (m.c1 ≡ 1) × (tests c ≤ n))

child_at-goes :
    (c p : Pc) (m : Shm) (n : ℕ)
    → ChildGoes m c p (1 + n)
    → ChildGoes (child_at c m).0 (child_at c m).1 p n
unfolding child_at
child_at-goes c p m n (inl h) = inl (child_at-past c m h)
child_at-goes test_flag p m n (inr h) = ground arith
child_at-goes test_turn p m n (inr h) = ground arith
child_at-goes c p m n (inr h) = ground arith

parent_at-ChildGoes :
    (c p : Pc) (m : Shm) (n : ℕ)
    → ChildGoes m c p n
    → ChildGoes (parent_at p m).0 c (parent_at p m).1 n
unfolding parent_at
parent_at-ChildGoes c p m n (inl h) = inl h
parent_at-ChildGoes c test_flag m n (inr h) = ground arith
parent_at-ChildGoes c test_turn m n (inr h) = ground arith
parent_at-ChildGoes c p m n (inr h) = ground arith

-- The same of the parent.
abbrev ParentGoes : Shm → Pc → Pc → ℕ → Type 0
ParentGoes m c p n =
    (past p ≡ true)
    ⊎ ((testing p ≡ true) × (testing c ≡ true) × (m.turn ≡ 2) × (m.c2 ≡ 1) × (tests p ≤ n))

parent_at-goes :
    (c p : Pc) (m : Shm) (n : ℕ)
    → ParentGoes m c p (1 + n)
    → ParentGoes (parent_at p m).0 c (parent_at p m).1 n
unfolding parent_at
parent_at-goes c p m n (inl h) = inl (parent_at-past p m h)
parent_at-goes c test_flag m n (inr h) = ground arith
parent_at-goes c test_turn m n (inr h) = ground arith
parent_at-goes c p m n (inr h) = ground arith

child_at-ParentGoes :
    (c p : Pc) (m : Shm) (n : ℕ)
    → ParentGoes m c p n
    → ParentGoes (child_at c m).0 (child_at c m).1 p n
unfolding child_at
child_at-ParentGoes c p m n (inl h) = inl h
child_at-ParentGoes test_flag p m n (inr h) = ground arith
child_at-ParentGoes test_turn p m n (inr h) = ground arith
child_at-ParentGoes c p m n (inr h) = ground arith

child-goes :
    (ws : List Who) (s : Processes)
    → ChildGoes s.mem s.child s.parent (child_turns ws)
    → past (run ws s).child ≡ true
unfolding run
child-goes [] s h = elim h [ inl d ↦ d | inr w ↦ ground arith ]
child-goes (child_moves ∷ ws) s h =
    child-goes ws _ (child_at-goes s.child s.parent s.mem (child_turns ws) h)
child-goes (parent_moves ∷ ws) s h =
    child-goes ws _ (parent_at-ChildGoes s.child s.parent s.mem (child_turns ws) h)

parent-goes :
    (ws : List Who) (s : Processes)
    → ParentGoes s.mem s.child s.parent (parent_turns ws)
    → past (run ws s).parent ≡ true
unfolding run
parent-goes [] s h = elim h [ inl d ↦ d | inr w ↦ ground arith ]
parent-goes (child_moves ∷ ws) s h =
    parent-goes ws _ (child_at-ParentGoes s.child s.parent s.mem (parent_turns ws) h)
parent-goes (parent_moves ∷ ws) s h =
    parent-goes ws _ (parent_at-goes s.child s.parent s.mem (parent_turns ws) h)

testing-inside : (c : Pc) → testing c ≡ true → (inside c ≡ true) × (tests c ≤ 2)
testing-inside c h = ground arith

-- When both processes are in their loops after some steps, then in every further order of steps in
-- which each of them has two at least, one of them gets behind its loop.
pub run-enters :
    (ws vs : List Who)
    → testing (run ws forked).child ≡ true
    → testing (run ws forked).parent ≡ true
    → 2 ≤ child_turns vs
    → 2 ≤ parent_turns vs
    → (past (run vs (run ws forked)).child ≡ true) ⊎ (past (run vs (run ws forked)).parent ≡ true)
run-enters ws vs c p n k =
    let h = reached ws in
    let s = run ws forked in
    let (ci, ct) = testing-inside s.child c in
    let (pi, pt) = testing-inside s.parent p in
    elim h.one_or_two [
      | inl e ↦ inl (child-goes vs s (inr (c, p, e, h.child_flag ci, omega arith)))
      | inr e ↦ inr (parent-goes vs s (inr (p, c, e, h.parent_flag pi, omega arith)))
    ]
