-- ===== src/FirstShell/Examples.antt =====
-- `ls -l | wc > n &` and an input that has ended, given to both versions of the shell.
use semestre.Base.{
  ℕ, ◌≡◌, refl, ◌⊎◌, true, false, none, some, List, [], ◌∷◌, ◌++◌, Bytes, codes, arith,
}
use semestre.Posix.Run.{ok, fault}
use semestre.Readcmd.{parse_line, kind_of}
use semestre.Readcmd.Grammar.{AllCommands, pipe_words, tail_words}
use semestre.Shell
use semestre.Shell.{is_exit, length_seq, redirected_in, redirected_out}
use semestre.Shell.Pipe.{NoExit, pipeline}
use semestre.FirstShell
use semestre.FirstShell.Agrees.{without_jobs, run_without_jobs, start_line-agrees}
use semestre.FirstShell.Pipe.{on_cmdline-waits}

abbrev list_files : List Bytes
list_files = codes "ls" ∷ (codes "-l" ∷ [])

abbrev count_words : List Bytes
count_words = codes "wc" ∷ []

abbrev no_jobs : Shell.Vars
no_jobs = record { junk = []; jobs = []; children = []; next_pid = 100 }

both_commands : AllCommands (list_files ∷ (count_words ∷ []))
unfolding kind_of
both_commands = ((refl, (refl, tt)), ((refl, tt), tt))

neither_exit : NoExit (list_files ∷ (count_words ∷ []))
unfolding is_exit
neither_exit = (refl, (refl, tt))

on_cmdline-waits_example :
    (pid' : ℕ) × (FirstShell.on_cmdline
        (parse_line
          (pipe_words list_files (count_words ∷ []) ++ tail_words none (some (codes "n")) false))
        (record { children = []; next_pid = 100; waits = 3 })
      ≡ ok tt (record {
        children =
            pipeline
              (redirected_in none)
              (redirected_out (some (codes "n")))
              0
              (list_files ∷ (count_words ∷ []));
        next_pid = pid';
        waits = 5;
      }))
unfolding length_seq
on_cmdline-waits_example =
    on_cmdline-waits list_files (count_words ∷ []) none (some (codes "n")) false 100 3 both_commands
      neither_exit (omega arith)

start_line-agrees_example :
    (Shell.on_cmdline (parse_line (pipe_words list_files [] ++ tail_words none none true)) no_jobs
      ≡ fault)
    ⊎ (FirstShell.start_line
          (parse_line (pipe_words list_files [] ++ tail_words none none true))
          (without_jobs 0 no_jobs)
        ≡ run_without_jobs 0 (
            Shell.on_cmdline
              (parse_line (pipe_words list_files [] ++ tail_words none none true))
              no_jobs))
start_line-agrees_example =
    start_line-agrees (parse_line (pipe_words list_files [] ++ tail_words none none true)) no_jobs 0
