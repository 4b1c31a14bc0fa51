-- ===== src/Shell/Examples.antt =====
-- A shell without jobs, and the theorems at some lines.
use semestre.Base.{◌≡◌, refl, true, false, none, some, List, [], ◌∷◌, ◌++◌, Bytes, codes, ℕ, arith}
use semestre.Posix.Run.{fault, ok}
use semestre.Readcmd.{
  readline, Cmdline, misplaced_pipe, parse_line, parse_words, kind_of, last_command, to_cmdline,
  may_free, may_free_rest,
}
use semestre.Readcmd.Grammar.{AllCommands, pipe_words, tail_words}
use semestre.Readcmd.Line.{readline-first_line}
use semestre.Readcmd.Result.{Described, parse_line-Described}
use semestre.Shell.{Job, on_cmdline, redirected_in, redirected_out, is_exit, length_seq}
use semestre.Shell.Head.{on_cmdline-fault}
use semestre.Shell.Wait.{on_line}
use semestre.Shell.Wait.OneEnds.{on_line-one_ends}
use semestre.Shell.Overflow.{on_cmdline-overflows}
use semestre.Base.{zero, suc}
use semestre.Shell.Pipe.{Fresh, NoExit, pipeline, on_cmdline-pipeline}

-- `ls -l | wc > n &`
abbrev list_files : List Bytes
list_files = codes "ls" ∷ (codes "-l" ∷ [])

abbrev count_words : List Bytes
count_words = codes "wc" ∷ []

both_commands : AllCommands (list_files ∷ (count_words ∷ []))
unfolding kind_of
both_commands = ((refl, (refl, tt)), ((refl, tt), tt))

neither_exit : NoExit (list_files ∷ (count_words ∷ []))
unfolding is_exit
neither_exit = (refl, (refl, tt))

-- The same as text, with a second line behind it.
abbrev typed : Bytes
typed = codes "ls -l | wc > n & "

readline-first_line_example :
    readline 7 (record { stdin = codes "ls -l" ++ b'\n' ∷ codes "wc"; static_cmdline = none })
    ≡ ok (some (codes "ls -l")) (record { stdin = codes "wc"; static_cmdline = none })
readline-first_line_example =
    readline-first_line 7 (codes "ls -l") (codes "wc") none (ground arith) (omega arith)
      (omega arith)

on_cmdline-pipeline_example :
    (j : Job) × (pid' : ℕ) × Fresh true (codes "?ls -l  | wc ") j
    × (on_cmdline
          (parse_line
            (pipe_words list_files (count_words ∷ []) ++ tail_words none (some (codes "n")) true))
          (record { junk = codes "?"; jobs = []; children = []; next_pid = 100 })
        ≡ ok tt (record {
          junk = codes "?";
          jobs = j ∷ [];
          children =
              pipeline
                (redirected_in none)
                (redirected_out (some (codes "n")))
                0
                (list_files ∷ (count_words ∷ []));
          next_pid = pid';
        }))
unfolding length_seq
on_cmdline-pipeline_example =
    on_cmdline-pipeline list_files (count_words ∷ []) none (some (codes "n")) true (codes "?") []
      100 both_commands neither_exit (omega arith) (omega arith)

-- `| wc`
abbrev wrong_line : List Bytes
wrong_line = codes "|" ∷ count_words

abbrev wrong : Cmdline
wrong = record {
  err = some misplaced_pipe;
  input = none;
  output = none;
  seq = none;
  background = false;
}

wrong_parsed : parse_line wrong_line ≡ some wrong
unfolding parse_line parse_words kind_of last_command to_cmdline may_free may_free_rest
wrong_parsed = refl

parse_line-Described_example : Described wrong
parse_line-Described_example = parse_line-Described wrong_line wrong wrong_parsed

on_cmdline-fault_example :
    (on_cmdline none (record { junk = codes "?"; jobs = []; children = []; next_pid = 100 })
      ≡ fault)
    × (on_cmdline
          (some wrong)
          (record { junk = codes "?"; jobs = []; children = []; next_pid = 100 })
        ≡ fault)
on_cmdline-fault_example =
    on_cmdline-fault wrong_line wrong misplaced_pipe
      (record { junk = codes "?"; jobs = []; children = []; next_pid = 100 }) wrong_parsed refl

-- In the foreground, with the signals of both processes.
on_line-one_ends_example :
    (j : Job) × (pid' : ℕ) × (j.finished ≡ true)
    × (on_line
          (parse_line
            (pipe_words list_files (count_words ∷ []) ++ tail_words none (some (codes "n")) false))
          (false ∷ (false ∷ []))
          (record { junk = codes "?"; jobs = []; children = []; next_pid = 100 })
        ≡ ok (false ∷ []) (record {
          junk = codes "?";
          jobs = j ∷ [];
          children =
              pipeline
                (redirected_in none)
                (redirected_out (some (codes "n")))
                0
                (list_files ∷ (count_words ∷ []));
          next_pid = pid';
        }))
unfolding length_seq
on_line-one_ends_example =
    on_line-one_ends list_files (count_words ∷ []) none (some (codes "n")) false (codes "?") [] 100
      false (false ∷ []) both_commands neither_exit (omega arith) (omega arith)

-- `echo xxx…`, with a word of 600 bytes.
abbrev xs : ℕ → Bytes
xs zero = []
xs (suc n) = b'x' ∷ xs n

abbrev long_echo : List Bytes
long_echo = codes "echo" ∷ (xs 600 ∷ [])

long_echo-AllCommands : AllCommands (long_echo ∷ [])
unfolding kind_of
long_echo-AllCommands = ((refl, (refl, tt)), tt)

long_echo-NoExit : NoExit (long_echo ∷ [])
unfolding is_exit
long_echo-NoExit = (refl, tt)

on_cmdline-overflows_example :
    on_cmdline
      (parse_line (pipe_words long_echo [] ++ tail_words none none false))
      (record { junk = codes "?"; jobs = []; children = []; next_pid = 100 })
    ≡ fault
on_cmdline-overflows_example =
    on_cmdline-overflows long_echo [] none none false (codes "?") [] 100 long_echo-AllCommands
      long_echo-NoExit (omega arith)
