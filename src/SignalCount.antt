-- ===== src/SignalCount.antt =====
-- SR/TP2/counterprob.c: the child sends five signals, and the parent counts the runs of its handler.
-- A signal that is pending already is not kept twice, and during the handler it stays pending.
pub mod Counts
mod Examples
use semestre.Base.{ℕ, zero, suc, ◌+◌, Bool, true, false, Option, none, some, List, [], ◌∷◌}

-- `to_send` is what is left of the child's loop, `printed` what the parent has printed.
pub record State : Type 0 where
  pub to_send : ℕ
  pub child_over : Bool
  pub pending : Bool
  pub in_handler : Bool
  pub counter : ℕ
  pub printed : Option ℕ

-- Behind `Fork`.
unfoldable pub forked : State
forked = record {
  to_send = 5;
  child_over = false;
  pending = false;
  in_handler = false;
  counter = 0;
  printed = none;
}

-- `Kill(getppid(), SIGUSR2)`, and `exit` behind the loop.
unfoldable pub child_step : ℕ → State → State
child_step zero s = record s { child_over = true }
child_step (suc n) s = record s { to_send = n; pending = true }

-- `Wait(NULL)`, which the handlers have come before, and `printf`.
unfoldable pub wait_step : Bool → State → State
wait_step false s = s
wait_step true s = record s { printed = some s.counter }

-- The end of the handler; its start, with `counter++`; or `Wait`.
unfoldable pub parent_step : Bool → Bool → State → State
unfolding wait_step
parent_step true pending s = record s { in_handler = false }
parent_step false true s = record s { pending = false; in_handler = true; counter = s.counter + 1 }
parent_step false false s = wait_step s.child_over s

pub data Turn : Type 0 where
  parent_acts child_acts : Turn

unfoldable pub step : Turn → State → State
unfolding parent_step child_step
step parent_acts s = parent_step s.in_handler s.pending s
step child_acts s = child_step s.to_send s

unfoldable pub run : List Turn → State → State
unfolding step
run [] s = s
run (t ∷ ts) s = run ts (step t s)
