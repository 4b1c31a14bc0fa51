-- ===== src/Shell/Pipe.antt =====
-- The processes that the shell starts for a pipe of commands.
use semestre.Readcmd.{parse_line}
use semestre.Readcmd.Grammar.{AllCommands, pipe_words, tail_words, parse_line-pipe}
use semestre.Base.{
  refl, ap, set, ◌++◌, append_assoc, lt→ltb, ℕ, zero, suc, ◌+◌, ◌<◌, ◌≡◌, false, Option, List, [],
  ◌∷◌, Bytes, arith, ◌≤◌, ◌∙◌, le→ltb, Bool, none, some, codes, sym, append-nil,
}
use semestre.Shell.Text.{
  Fits, Fits-append, words_text, rest_text, pipe_text, with_text, add_text-adds, add_words-adds,
}
use semestre.Shell.{
  Child, Source, Sink, from_tube, to_tube, redirected_in, redirected_out, child_of, is_exit, Job,
  Cmdline, Vars, start_command, start_commands, open_job, length_seq, start_child, set_pid, max_cmd,
  ok, run_seq, on_cmdline, shell_head, add_job, count_job, check_line, run_line, new_job, set_job,
  add_text,
}

abbrev pub NoExit : List (List Bytes) → Type 0
NoExit [] = Unit {0}
NoExit (c ∷ cs) = (is_exit c ≡ false) × NoExit cs

-- A pipe as it should be: each process writes to the tube that the next one reads, the first reads
-- `src` and the last writes `out`; `k` is the number of the first tube.
abbrev pub pipeline : Source → Sink → ℕ → List (List Bytes) → List Child
pipeline src out k [] = []
pipeline src out k (c ∷ []) = record { argv = c; input = src; output = out } ∷ []
pipeline src out k (c ∷ (d ∷ ds)) =
    record { argv = c; input = src; output = to_tube k }
    ∷ pipeline (from_tube k) out (suc k) (d ∷ ds)

unfoldable pub source : Option Bytes → ℕ → Source
source input zero = redirected_in input
source input (suc k) = from_tube k

module _ (input output : Option Bytes) (c : List Bytes) where
  pub child_of-last :
      (n i : ℕ)
      → i + 1 ≡ n
      → child_of input output n i c
        ≡ record { argv = c; input = source input i; output = redirected_out output }
  unfolding child_of source
  child_of-last n zero e = ground arith
  child_of-last n (suc k) e = ground arith

  pub child_of-inner :
      (n i : ℕ)
      → i + 1 < n
      → child_of input output n i c
        ≡ record { argv = c; input = source input i; output = to_tube i }
  unfolding child_of source
  child_of-inner n zero e = ground arith
  child_of-inner n (suc k) e = ground arith

abbrev pub shell : Bytes → Job → List Job → List Child → ℕ → Vars
shell g j js children pid = record { junk = g; jobs = j ∷ js; children = children; next_pid = pid }

-- A job that runs, in the background or not, with its text.
pub record Fresh (b : Bool) (text : Bytes) (j : Job) : Type 0 where
  pub in_background : j.background ≡ b
  pub not_stopped : j.stopped ≡ false
  pub not_finished : j.finished ≡ false
  pub shows : j.cmd ≡ text

module _ (l : Cmdline) (js : List Job) (g : Bytes) where
  -- The job in front of the command of index `i`, when its text is `t`.
  abbrev pub Before : ℕ → Bytes → Job → Type 0
  Before zero t j = t ≡ g
  Before (suc i) t j = (s : Bytes) × (t ≡ s ++ codes " | ") × Fresh l.background s j

  pub start_command-starts :
      (n i : ℕ) (cmd : List Bytes) (t : Bytes) (j : Job) (done : List Child) (pid : ℕ)
      → is_exit cmd ≡ false
      → i < max_cmd
      → Before i t j
      → Fits (t ++ words_text cmd)
      → (j' : Job) × Fresh l.background (t ++ words_text cmd) j'
        × (start_command l n i cmd (shell g j js done pid)
            ≡ ok tt (shell g j' js (done ++ (child_of l.input l.output n i cmd ∷ [])) (pid + 1)))
  unfolding start_command open_job set_job start_child set_pid
  start_command-starts n zero cmd t j done pid stays h f fits =
      let opened : Job = record j {
        background = l.background;
        stopped = false;
        finished = false;
      } in
      let v = shell g j js done pid in
      let room : Fits (g ++ words_text cmd) = rw (sym f) fits in
      (
        record opened { cmd = g ++ words_text cmd; tab_pid = set j.tab_pid 0 pid },
        record {
          in_background = refl;
          not_stopped = refl;
          not_finished = refl;
          shows = ap (λ x. x ++ words_text cmd) (sym f);
        },
        rw (stays, add_words-adds v opened js g cmd room) refl,
      )
  start_command-starts n (suc i) cmd t j done pid stays h (s, is_t, fresh) fits =
      let v = shell g j js done pid in
      let room = Fits-append t (words_text cmd) fits in
      let opened : add_text (codes " | ") v ≡ ok tt (with_text v j js t) =
        rw (is_t, sym fresh.shows)
          (add_text-adds v j js j.cmd (codes " | ") (rw (fresh.shows, sym is_t) room)) in
      (
        record j { cmd = t ++ words_text cmd; tab_pid = set j.tab_pid (suc i) pid },
        record {
          in_background = fresh.in_background;
          not_stopped = fresh.not_stopped;
          not_finished = fresh.not_finished;
          shows = refl;
        },
        rw (stays, opened, add_words-adds v j js t cmd fits, lt→ltb (suc i) max_cmd h) refl,
      )

  start_commands-pipeline :
      (n i : ℕ) (c : List Bytes) (ds : List (List Bytes)) (t : Bytes) (j : Job) (done : List Child)
      (pid : ℕ)
      → NoExit (c ∷ ds)
      → i + length_seq (c ∷ ds) ≡ n
      → n ≤ max_cmd
      → Before i t j
      → Fits (t ++ pipe_text c ds)
      → (j' : Job) × (pid' : ℕ) × Fresh l.background (t ++ pipe_text c ds) j'
        × (start_commands l n i (c ∷ ds) (shell g j js done pid)
            ≡ ok tt (
                shell g j' js
                  (done ++ pipeline (source l.input i) (redirected_out l.output) i (c ∷ ds))
                  pid'))
  unfolding start_commands length_seq source
  start_commands-pipeline n i c [] t j done pid stay e h f fits =
      let only : t ++ words_text c ≡ t ++ pipe_text c [] =
        ap (λ x. t ++ x) (sym (append-nil (words_text c))) in
      let (j', fresh, run) =
        start_command-starts n i c t j done pid stay.0 (omega arith) f (rw only fits) in
      (
        j',
        pid + 1,
        rw (sym only) fresh,
        rw (run, child_of-last l.input l.output c n i (omega arith)) refl,
      )
  start_commands-pipeline n i c (d ∷ ds) t j done pid stay e h f fits =
      let s = t ++ words_text c in
      let all : t ++ pipe_text c (d ∷ ds) ≡ (s ++ codes " | ") ++ pipe_text d ds =
        sym (append_assoc t (words_text c) _) ∙ sym (append_assoc s (codes " | ") _) in
      let more_fits : Fits ((s ++ codes " | ") ++ pipe_text d ds) = rw (sym all) fits in
      let fits' : Fits s =
        Fits-append s (rest_text (d ∷ ds))
          (rw (append_assoc t (words_text c) (rest_text (d ∷ ds))) fits) in
      let (j', fresh, run) = start_command-starts n i c t j done pid stay.0 (omega arith) f fits' in
      let here : Child = record { argv = c; input = source l.input i; output = to_tube i } in
      let next : i + 1 ≡ suc i = omega arith in
      let (j'', pid', fresh', more) =
        start_commands-pipeline n (suc i) d ds (s ++ codes " | ") j' (done ++ (here ∷ [])) (pid + 1)
          stay.1 (omega arith) h (s, refl, fresh) more_fits in
      (
        j'',
        pid',
        rw all fresh',
        rw (run, child_of-inner l.input l.output c n i (omega arith), next) more
            ∙ ap (λ cs. ok tt (shell g j'' js cs pid')) (append_assoc done (here ∷ []) _),
      )

run_seq-pipeline :
    (l : Cmdline) (c : List Bytes) (ds : List (List Bytes)) (g : Bytes) (j : Job) (js : List Job)
    (pid : ℕ)
    → NoExit (c ∷ ds)
    → length_seq (c ∷ ds) < max_cmd
    → Fits (g ++ pipe_text c ds)
    → (j' : Job) × (pid' : ℕ) × Fresh l.background (g ++ pipe_text c ds) j'
      × (run_seq l (c ∷ ds) (shell g j js [] pid)
          ≡ ok tt (
              shell g j' js
                (pipeline (redirected_in l.input) (redirected_out l.output) 0 (c ∷ ds))
                pid'))
unfolding run_seq set_pid source
run_seq-pipeline l c ds g j js pid stay h fits =
    let n = length_seq (c ∷ ds) in
    let (j', pid', fresh, run) =
      start_commands-pipeline l js g n 0 c ds g j [] pid stay (omega arith) (omega arith) refl
        fits in
    (
      record j' { tab_pid = set j'.tab_pid n 0 },
      pid',
      record {
        in_background = fresh.in_background;
        not_stopped = fresh.not_stopped;
        not_finished = fresh.not_finished;
        shows = fresh.shows;
      },
      rw (le→ltb max_cmd n (omega arith), run, lt→ltb n max_cmd h) refl,
    )

-- A typed pipe of fewer than MAX_CMD commands, none of them `exit`, with a file for the input or
-- none, one for the output or none, and `&` or not, whose text (each word with a space behind it,
-- ` | ` between the commands) has room with its NUL in the 500 bytes for it, behind the `junk` that
-- this array from `malloc` holds before its first NUL: the shell adds one job, in the background or
-- not as typed and neither stopped nor finished, whose text is that junk and the text of the pipe,
-- and starts exactly the processes of that pipe, in order, each writing to the tube that the next
-- one reads.
pub on_cmdline-pipeline :
    (c : List Bytes) (ds : List (List Bytes)) (i o : Option Bytes) (b : Bool) (junk : Bytes)
    (js : List Job) (pid : ℕ)
    → AllCommands (c ∷ ds)
    → NoExit (c ∷ ds)
    → length_seq (c ∷ ds) < max_cmd
    → Fits (junk ++ pipe_text c ds)
    → (j : Job) × (pid' : ℕ) × Fresh b (junk ++ pipe_text c ds) j
      × (on_cmdline
            (parse_line (pipe_words c ds ++ tail_words i o b))
            (record { junk = junk; jobs = js; children = []; next_pid = pid })
          ≡ ok tt (record {
            junk = junk;
            jobs = j ∷ js;
            children = pipeline (redirected_in i) (redirected_out o) 0 (c ∷ ds);
            next_pid = pid';
          }))
unfolding on_cmdline shell_head add_job count_job check_line run_line
on_cmdline-pipeline c ds i o b junk js pid commands stay h fits =
    let (j, pid', fresh, run) =
      run_seq-pipeline
        (record { err = none; input = i; output = o; seq = some (c ∷ ds); background = b }) c ds
        junk new_job js pid stay h fits in
    (j, pid', fresh, rw (parse_line-pipe c ds i o b commands) run)
