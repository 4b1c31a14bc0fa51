-- ===== src/Peterson/Exclusion.antt =====
-- What holds in every order of the steps.
use semestre.Base.{◌≡◌, ◌⊎◌, Bool, true, false, List, [], ◌∷◌, arith}
use semestre.Peterson.{
  Shm, Pc, start, flagged, test_flag, test_turn, critical, left, Processes, child_at, parent_at,
  Who, child_moves, parent_moves, forked, run,
}

-- Between the two writes of its flag.
abbrev pub inside : Pc → Bool
inside start = false
inside left = false
inside _ = true

-- Behind its write of the turn.
abbrev pub waiting : Pc → Bool
waiting test_flag = true
waiting test_turn = true
waiting critical = true
waiting _ = false

pub record Inv (m : Shm) (child parent : Pc) : Type 0 where
  pub one_or_two : (m.turn ≡ 1) ⊎ (m.turn ≡ 2)
  pub child_flag : inside child ≡ true → m.c1 ≡ 1
  pub parent_flag : inside parent ≡ true → m.c2 ≡ 1
  pub child_first : child ≡ critical → waiting parent ≡ true → m.turn ≡ 1
  pub parent_first : parent ≡ critical → waiting child ≡ true → m.turn ≡ 2

child-Inv : (c p : Pc) (m : Shm) → Inv m c p → Inv (child_at c m).0 (child_at c m).1 p
unfolding child_at
child-Inv start p m h = ground (arith, h.one_or_two)
child-Inv flagged p m h = ground (arith, h.one_or_two)
child-Inv test_flag p m h = ground (arith, h.one_or_two)
child-Inv test_turn p m h = ground (arith, h.one_or_two)
child-Inv critical p m h = ground (arith, h.one_or_two)
child-Inv left p m h = h

parent-Inv : (c p : Pc) (m : Shm) → Inv m c p → Inv (parent_at p m).0 c (parent_at p m).1
unfolding parent_at
parent-Inv c start m h = ground (arith, h.one_or_two)
parent-Inv c flagged m h = ground (arith, h.one_or_two)
parent-Inv c test_flag m h = ground (arith, h.one_or_two)
parent-Inv c test_turn m h = ground (arith, h.one_or_two)
parent-Inv c critical m h = ground (arith, h.one_or_two)
parent-Inv c left m h = h

run-Inv :
    (ws : List Who) (s : Processes)
    → Inv s.mem s.child s.parent
    → Inv (run ws s).mem (run ws s).child (run ws s).parent
unfolding run
run-Inv [] s h = h
run-Inv (child_moves ∷ ws) s h = run-Inv ws _ (child-Inv s.child s.parent s.mem h)
run-Inv (parent_moves ∷ ws) s h = run-Inv ws _ (parent-Inv s.child s.parent s.mem h)

pub reached : (ws : List Who) → Inv (run ws forked).mem (run ws forked).child (run ws forked).parent
reached ws = run-Inv ws forked (ground arith)

-- In whatever order the two processes take their steps, they are never both in their sections.
pub run-exclusion :
    (ws : List Who) → ¬ (((run ws forked).child ≡ critical) × ((run ws forked).parent ≡ critical))
run-exclusion ws (c, p) = let h = reached ws in ground arith
