-- ===== src/Peterson.antt =====
-- SR/TP5/peterson.c: two processes that take turns by three bytes of shared memory. Each access to
-- the memory is a step of its own, and the steps of the two processes come in any order; accesses
-- are taken to happen in the order of the program.
pub mod Exclusion
pub mod Entry
mod Examples
use semestre.Base.{ℕ, Bool, true, false, List, [], ◌∷◌, ◌==◌, if◌then◌else◌}

-- The bytes that the program uses: the two flags and the turn, `T_pet`.
pub record Shm : Type 0 where
  pub c1 : ℕ
  pub c2 : ℕ
  pub turn : ℕ

-- Where a process stands: before its write of its flag, of the turn, before its read of the other
-- flag and of the turn in the test of `while`, in its section, and behind it.
pub data Pc : Type 0 where
  start flagged test_flag test_turn critical left : Pc

pub record Processes : Type 0 where
  pub mem : Shm
  pub child : Pc
  pub parent : Pc

-- The child, process 1.
unfoldable pub child_at : Pc → Shm → Shm × Pc
child_at start m = (record m { c1 = 1 }, flagged)
child_at flagged m = (record m { turn = 2 }, test_flag)
child_at test_flag m = (m, if m.c2 == 1 then test_turn else critical)
child_at test_turn m = (m, if m.turn == 2 then test_flag else critical)
child_at critical m = (record m { c1 = 0 }, left)
child_at left m = (m, left)

-- The parent, process 2.
unfoldable pub parent_at : Pc → Shm → Shm × Pc
parent_at start m = (record m { c2 = 1 }, flagged)
parent_at flagged m = (record m { turn = 1 }, test_flag)
parent_at test_flag m = (m, if m.c1 == 1 then test_turn else critical)
parent_at test_turn m = (m, if m.turn == 1 then test_flag else critical)
parent_at critical m = (record m { c2 = 0 }, left)
parent_at left m = (m, left)

pub data Who : Type 0 where
  child_moves parent_moves : Who

unfoldable pub step : Who → Processes → Processes
unfolding child_at parent_at
step child_moves s =
    let (m, pc) = child_at s.child s.mem in record { mem = m; child = pc; parent = s.parent }
step parent_moves s =
    let (m, pc) = parent_at s.parent s.mem in record { mem = m; child = s.child; parent = pc }

-- The state behind `fork`.
abbrev pub forked : Processes
forked = record { mem = record { c1 = 0; c2 = 0; turn = 1 }; child = start; parent = start }

unfoldable pub run : List Who → Processes → Processes
unfolding step
run [] s = s
run (w ∷ ws) s = run ws (step w s)
