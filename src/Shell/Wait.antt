-- ===== src/Shell/Wait.antt =====
-- SR/Projet/shell.c: the wait for the processes of a line, and the handler of SIGCHLD. The signals
-- that arrive during the wait are a list, each with `WIFSTOPPED` of the status that `waitpid` gives
-- in the handler; what happens to the rest of a line does not depend on which process it is.
pub mod OneEnds
use semestre.Base.{Bool, true, false, not, ◌||◌, Option, none, some, List, [], ◌∷◌, if◌then◌else◌}
use semestre.Posix.Run.{pure, crash, gets, modify, out_of_fuel, ◌>>=◌, ◌>>◌}
use semestre.Readcmd.{Cmdline}
use semestre.Shell.{Job, Vars, Shell, shell_head, run_line}

-- `Tab_Jobs[indice_jobs].finished = 1`, and `stopped` for a process that was stopped; outside the
-- array for an `indice_jobs` of -1.
unfoldable pub mark_ended : Bool → List Job → Shell (Unit {0})
mark_ended stopped [] = crash
mark_ended stopped (j ∷ js) =
    modify
      λ v. record v { jobs = record j { finished = true; stopped = j.stopped || stopped } ∷ js }

unfoldable pub handler_child : Bool → Shell (Unit {0})
handler_child stopped = do jobs ← gets (λ v. v.jobs); mark_ended stopped jobs

-- The test of the loop, on the entry at `indice_jobs`.
unfoldable pub waits : List Job → Shell Bool
waits [] = crash
waits (j ∷ js) = pure (not (j.finished || (j.stopped || j.background)))

-- `while (…) sleep(1)`; the result are the signals that are still to come behind the loop. Without
-- a further signal the loop never ends.
unfoldable pub wait_loop : List Bool → Shell (List Bool)
wait_loop [] = do
  jobs ← gets (λ v. v.jobs)
  on ← waits jobs
  if on then (λ v. out_of_fuel v) else pure []
wait_loop (stopped ∷ signals) =
    let rest = handler_child stopped >> wait_loop signals in
    do jobs ← gets (λ v. v.jobs); on ← waits jobs; if on then rest else pure (stopped ∷ signals)

-- The body of the shell's loop; a line with a syntax error is left at once.
unfoldable pub run_checked : Option Cmdline → List Bool → Shell (List Bool)
run_checked none signals = pure signals
run_checked (some l) signals = run_line (some l) >> wait_loop signals

unfoldable pub on_line : Option Cmdline → List Bool → Shell (List Bool)
on_line l signals = do checked ← shell_head l; run_checked checked signals
