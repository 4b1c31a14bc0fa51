-- ===== src/Shell.antt =====
-- SR/Projet/shell.c and jobs.c: what the shell does with a line that `readcmd` returns, up to the
-- wait for its processes, which is in Wait. The handlers of SIGINT and SIGTSTP return at once.
pub mod Text
pub mod Pipe
pub mod Overflow
pub mod Head
pub mod Wait
mod Examples
use semestre.Base.{
  ℕ, zero, suc, ◌+◌, ◌-◌, Bool, true, false, Option, none, some, List, [], ◌∷◌, ◌++◌, ltb, leb,
  ◌==◌, if◌then◌else◌, Bytes, codes, length, set, same_bytes,
}
use semestre.Posix.Run.{Run, Prog, ok, fault, pure, crash, exit, gets, modify, ◌>>=◌, ◌>>◌}
use semestre.Readcmd.{Cmdline}

-- MAX_CMD, and the size of the array `tubes`.
abbrev pub max_cmd : ℕ
max_cmd = 10

-- MAX_CHAR_CMD_LINE, the size of the array at `cmd`.
abbrev pub max_char_cmd_line : ℕ
max_char_cmd_line = 500

-- `struct Jobs`; `cmd` is what the array holds before its NUL.
pub record Job : Type 0 where
  pub cmd : Bytes
  pub tab_pid : List ℕ
  pub background : Bool
  pub stopped : Bool
  pub finished : Bool

-- Where a process reads from and writes to: as the shell itself, the descriptor that `open` has
-- returned for a name, or an end of a pipe of the array `tubes`.
pub data Source : Type 0 where
  own_input : Source
  from_file : Bytes → Source
  from_tube : ℕ → Source

pub data Sink : Type 0 where
  own_output : Sink
  to_file : Bytes → Sink
  to_tube : ℕ → Sink

pub record Child : Type 0 where
  pub argv : List Bytes
  pub input : Source
  pub output : Sink

-- `jobs` is `Tab_Jobs` with the entry at `indice_jobs` first, so it is empty when that is -1.
-- `children` are the processes that were started, in order, and `next_pid` what `fork` returns.
-- `junk` is what an array that `malloc` returns holds before its first NUL.
pub record Vars : Type 0 where
  pub junk : Bytes
  pub jobs : List Job
  pub children : List Child
  pub next_pid : ℕ

abbrev pub Shell : Type 0 → Type 0
Shell A = Prog Vars A

-- An entry that `realloc` has added; all of it is set before it is read.
abbrev pub new_job : Job
new_job = record {
  cmd = [];
  tab_pid = 0 ∷ 0 ∷ 0 ∷ 0 ∷ 0 ∷ 0 ∷ 0 ∷ 0 ∷ 0 ∷ 0 ∷ [];
  background = false;
  stopped = false;
  finished = false;
}

unfoldable pub count_job : Option (List (List Bytes)) → Shell (Unit {0})
count_job none = crash
count_job (some []) = pure tt
count_job (some (c ∷ cs)) = modify λ v. record v { jobs = new_job ∷ v.jobs }

-- `if (l->seq[0] != 0)`
unfoldable pub add_job : Option Cmdline → Shell (Unit {0})
add_job none = crash
add_job (some l) = count_job l.seq

-- The tests of `l` and `l->err` behind it; `none` goes on with the next line.
unfoldable pub check_line : Option Cmdline → Shell (Option Cmdline)
check_line none = exit
check_line (some l) = elim l.err [ none ↦ pure (some l) | some e ↦ pure none ]

unfoldable pub shell_head : Option Cmdline → Shell (Option Cmdline)
shell_head l = do add_job l; check_line l

unfoldable pub length_seq : List (List Bytes) → ℕ
length_seq [] = 0
length_seq (c ∷ seq) = suc (length_seq seq)

-- `dup2(in, STDIN_FILENO)` and `dup2(out, STDOUT_FILENO)`, if there is a redirection.
abbrev pub redirected_in : Option Bytes → Source
redirected_in none = own_input
redirected_in (some f) = from_file f

abbrev pub redirected_out : Option Bytes → Sink
redirected_out none = own_output
redirected_out (some f) = to_file f

-- The child of index `i`: the four cases of the source.
unfoldable pub child_of : Option Bytes → Option Bytes → ℕ → ℕ → List Bytes → Child
child_of input output length i cmd =
    if ltb 1 length
    then (if i == 0
        then record { argv = cmd; input = redirected_in input; output = to_tube i }
        else if i == length - 1
        then record { argv = cmd; input = from_tube (i - 1); output = redirected_out output }
        else record { argv = cmd; input = from_tube (i - 1); output = to_tube i })
    else record { argv = cmd; input = redirected_in input; output = redirected_out output }

-- `strcmp(cmd[0], "exit")`; `readcmd` gives no empty command.
unfoldable pub is_exit : List Bytes → Bool
is_exit [] = false
is_exit (w ∷ ws) = same_bytes w (codes "exit")

-- `Tab_Jobs[indice_jobs].Tab_pid[i] = pid`, which is outside the arrays for an `indice_jobs` of -1
-- and for an `i` of MAX_CMD and more.
unfoldable pub set_pid : ℕ → ℕ → List Job → Shell (Unit {0})
set_pid i pid [] = crash
set_pid i pid (j ∷ js) =
    if ltb i max_cmd
    then modify (λ v. record v { jobs = record j { tab_pid = set j.tab_pid i pid } ∷ js })
    else crash

-- `strcat(Tab_Jobs[indice_jobs].cmd, s)`, which writes outside the array when the text and its NUL
-- have no room.
unfoldable pub strcat : Bytes → List Job → Shell (Unit {0})
strcat s [] = crash
strcat s (j ∷ js) =
    if ltb (length (j.cmd ++ s)) max_char_cmd_line
    then modify (λ v. record v { jobs = record j { cmd = j.cmd ++ s } ∷ js })
    else crash

unfoldable pub add_text : Bytes → Shell (Unit {0})
add_text s = do jobs ← gets (λ v. v.jobs); strcat s jobs

-- The words of one command, each with a space behind it.
unfoldable pub add_words : List Bytes → Shell (Unit {0})
add_words [] = pure tt
add_words (w ∷ ws) = do add_text w; add_text (b' ' ∷ []); add_words ws

unfoldable pub set_job : Bool → List Job → Shell (Unit {0})
set_job background [] = crash
set_job background (j ∷ js) = modify λ v. record v {
  jobs = record j { cmd = v.junk; background = background; stopped = false; finished = false } ∷ js;
}

-- `if (i != 0) … else …`: the first command gets a new array for the text and sets the flags of the
-- job.
unfoldable pub open_job : Bool → ℕ → Shell (Unit {0})
open_job background zero = do jobs ← gets (λ v. v.jobs); set_job background jobs
open_job background (suc i) = add_text (codes " | ")

unfoldable pub start_child : Child → Shell ℕ
start_child c = do
  pid ← gets (λ v. v.next_pid)
  modify (λ v. record v { children = v.children ++ (c ∷ []); next_pid = v.next_pid + 1 })
  pure pid

-- One round of the loop over `l->seq`.
unfoldable pub start_command : Cmdline → ℕ → ℕ → List Bytes → Shell (Unit {0})
start_command l length i cmd = if is_exit cmd then exit else do
  open_job l.background i
  add_words cmd
  pid ← start_child (child_of l.input l.output length i cmd)
  jobs ← gets (λ v. v.jobs)
  set_pid i pid jobs

unfoldable pub start_commands : Cmdline → ℕ → ℕ → List (List Bytes) → Shell (Unit {0})
start_commands l length i [] = pure tt
start_commands l length i (cmd ∷ seq) =
    start_command l length i cmd >> start_commands l length (i + 1) seq

unfoldable pub run_seq : Cmdline → List (List Bytes) → Shell (Unit {0})
run_seq l seq = if ltb max_cmd (length_seq seq) then crash else do
  start_commands l (length_seq seq) 0 seq
  jobs ← gets (λ v. v.jobs)
  set_pid (length_seq seq) 0 jobs

unfoldable pub run_line : Option Cmdline → Shell (Unit {0})
run_line none = pure tt
run_line (some l) = elim l.seq [ none ↦ crash | some seq ↦ run_seq l seq ]

-- One line, up to the wait.
unfoldable pub on_cmdline : Option Cmdline → Shell (Unit {0})
on_cmdline l = shell_head l >>= run_line
