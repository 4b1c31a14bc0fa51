-- ===== src/FirstShell.antt =====
-- SR/Projet/tst.c: the first version of the shell, without the table of jobs. `child_of`, `is_exit`
-- and `length_seq` are the same text as in SR/Projet/shell.c and jobs.c.
pub mod Agrees
pub mod Pipe
mod Examples
use semestre.Base.{ℕ, ◌+◌, ◌++◌, Option, none, some, List, [], ◌∷◌, Bytes, ltb, if◌then◌else◌}
use semestre.Posix.Run.{Prog, pure, crash, exit, modify, ◌>>=◌, ◌>>◌}
use semestre.Readcmd.{Cmdline}
use semestre.Shell.{Child, child_of, is_exit, length_seq}

-- The number of entries of the array `tubes`.
abbrev pub max_tubes : ℕ
max_tubes = 10

-- The processes started, in order, what `fork` returns next, and how often `waitpid` has been
-- called.
pub record Vars : Type 0 where
  pub children : List Child
  pub next_pid : ℕ
  pub waits : ℕ

abbrev pub FirstShell : Type 0 → Type 0
FirstShell A = Prog Vars A

-- The tests of `l` and `l->err`; `none` goes on with the next line.
unfoldable pub check_line : Option Cmdline → FirstShell (Option Cmdline)
check_line none = exit
check_line (some l) = elim l.err [ none ↦ pure (some l) | some e ↦ pure none ]

unfoldable pub start_child : Child → FirstShell (Unit {0})
start_child c =
    modify λ v. record v { children = v.children ++ (c ∷ []); next_pid = v.next_pid + 1 }

-- One round of the loop over `l->seq`.
unfoldable pub start_command : Cmdline → ℕ → ℕ → List Bytes → FirstShell (Unit {0})
start_command l length i cmd =
    if is_exit cmd then exit else start_child (child_of l.input l.output length i cmd)

unfoldable pub start_commands : Cmdline → ℕ → ℕ → List (List Bytes) → FirstShell (Unit {0})
start_commands l length i [] = pure tt
start_commands l length i (cmd ∷ seq) =
    start_command l length i cmd >> start_commands l length (i + 1) seq

unfoldable pub run_seq : Cmdline → List (List Bytes) → FirstShell (Unit {0})
run_seq l seq =
    if ltb max_tubes (length_seq seq) then crash else start_commands l (length_seq seq) 0 seq

-- A process for each command.
unfoldable pub run_line : Option Cmdline → FirstShell (Unit {0})
run_line none = pure tt
run_line (some l) = elim l.seq [ none ↦ crash | some seq ↦ run_seq l seq ]

-- One `waitpid` for each command, unless they are in the background.
unfoldable pub wait_line : Option Cmdline → FirstShell (Unit {0})
wait_line none = pure tt
wait_line (some l) = if l.background then pure tt else elim l.seq [
  | none ↦ crash
  | some seq ↦ modify (λ v. record v { waits = v.waits + length_seq seq })
]

-- One line, up to the wait.
unfoldable pub start_line : Option Cmdline → FirstShell (Unit {0})
start_line l = check_line l >>= run_line

-- One line.
unfoldable pub on_cmdline : Option Cmdline → FirstShell (Unit {0})
on_cmdline l = do checked ← check_line l; run_line checked; wait_line checked
