-- ===== src/SlowWrite.antt =====
-- SR/TD4/slow_write.c: parent and child print a text each, the child behind the parent.
pub mod Order
mod Examples
use semestre.Base.{List, [], ◌∷◌, ◌++◌, Bytes, map}
use semestre.TellWait.{Action, putc, wait_parent, tell_child, Pair, init_synchro}

-- The output is unbuffered, so each `putc` writes.
unfoldable pub slow_write : Bytes → List Action
slow_write [] = []
slow_write (c ∷ str) = putc c ∷ slow_write str

unfoldable pub child_main : Bytes → List Action
child_main str = wait_parent ∷ slow_write str

unfoldable pub parent_main : Bytes → List Action
parent_main str = slow_write str ++ (tell_child ∷ [])

-- Behind `fork`, with the texts of the parent and of the child.
unfoldable pub forked : Bytes → Bytes → Pair
forked p c = record {
  parent = record { todo = parent_main p; signals = init_synchro };
  child = record { todo = child_main c; signals = init_synchro };
  output = [];
}
