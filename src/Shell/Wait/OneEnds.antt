-- ===== src/Shell/Wait/OneEnds.antt =====
-- How many processes the shell waits for.
use semestre.Base.{
  ℕ, ◌<◌, ◌≡◌, refl, sym, ap, ◌∙◌, Bool, true, false, not, ◌||◌, Option, none, some, List, [], ◌∷◌,
  ◌++◌, Bytes,
}
use semestre.Posix.Run.{ok}
use semestre.Readcmd.{Cmdline, parse_line}
use semestre.Readcmd.Grammar.{AllCommands, pipe_words, tail_words, parse_line-pipe}
use semestre.Shell.{
  shell_head, add_job, count_job, check_line, run_line, new_job, on_cmdline, Job, Vars, length_seq,
  max_cmd, redirected_in, redirected_out, Bool, List,
}
use semestre.Shell.Text.{Fits, pipe_text}
use semestre.Shell.Pipe.{NoExit, Fresh, pipeline, on_cmdline-pipeline}
use semestre.Shell.Wait.{mark_ended, handler_child, waits, wait_loop, run_checked, on_line}

-- The signals that are left when the wait is over.
abbrev pub left_of : Bool → Bool → List Bool → List Bool
left_of true stopped signals = stopped ∷ signals
left_of false stopped signals = signals

wait_loop-one :
    (b stopped : Bool) (signals : List Bool) (text : Bytes) (j : Job) (v : Vars) (js : List Job)
    → Fresh b text j
    → (j' : Job) × (j'.finished ≡ not b)
      × (wait_loop (stopped ∷ signals) (record v { jobs = j ∷ js })
          ≡ ok (left_of b stopped signals) (record v { jobs = j' ∷ js }))
unfolding wait_loop waits handler_child mark_ended
wait_loop-one true stopped signals text j v js f =
    (j, f.not_finished, rw (f.not_finished, f.not_stopped, f.in_background) refl)
wait_loop-one false stopped [] text j v js f = (
  record j { finished = true; stopped = j.stopped || stopped },
  refl,
  rw (f.not_finished, f.not_stopped, f.in_background) refl,
)
wait_loop-one false stopped (s ∷ signals) text j v js f = (
  record j { finished = true; stopped = j.stopped || stopped },
  refl,
  rw (f.not_finished, f.not_stopped, f.in_background) refl,
)

shell_head-adds :
    (l : Cmdline) (c : List Bytes) (ds : List (List Bytes)) (v : Vars)
    → l.err ≡ none
    → l.seq ≡ some (c ∷ ds)
    → shell_head (some l) v ≡ ok (some l) (record v { jobs = new_job ∷ v.jobs })
unfolding shell_head add_job count_job check_line
shell_head-adds l c ds v h k = simp (h, k) refl

-- A line whose processes are started.
on_line-started :
    (l : Cmdline) (c : List Bytes) (ds : List (List Bytes)) (signals : List Bool) (v v' : Vars)
    → l.err ≡ none
    → l.seq ≡ some (c ∷ ds)
    → on_cmdline (some l) v ≡ ok tt v'
    → on_line (some l) signals v ≡ wait_loop signals v'
unfolding on_line run_checked on_cmdline
on_line-started l c ds signals v v' h k run =
    let head = shell_head-adds l c ds v h k in
    let ran : on_cmdline (some l) v ≡ run_line (some l) (record v { jobs = new_job ∷ v.jobs }) =
      rw head refl in
    rw (head, sym ran ∙ run) refl

-- Behind a typed pipe of fewer than MAX_CMD commands, none of them `exit`, whose text has room with
-- its NUL in the 500 bytes for it behind the `junk` that this array from `malloc` holds before its
-- first NUL, the shell goes on after the first signal of a process that has ended or stopped, however
-- many the pipe has, and with `&` without any; all later signals are still to come.
pub on_line-one_ends :
    (c : List Bytes) (ds : List (List Bytes)) (i o : Option Bytes) (b : Bool) (junk : Bytes)
    (js : List Job) (pid : ℕ) (stopped : Bool) (signals : List Bool)
    → AllCommands (c ∷ ds)
    → NoExit (c ∷ ds)
    → length_seq (c ∷ ds) < max_cmd
    → Fits (junk ++ pipe_text c ds)
    → (j : Job) × (pid' : ℕ) × (j.finished ≡ not b)
      × (on_line
            (parse_line (pipe_words c ds ++ tail_words i o b))
            (stopped ∷ signals)
            (record { junk = junk; jobs = js; children = []; next_pid = pid })
          ≡ ok (left_of b stopped signals) (record {
            junk = junk;
            jobs = j ∷ js;
            children = pipeline (redirected_in i) (redirected_out o) 0 (c ∷ ds);
            next_pid = pid';
          }))
on_line-one_ends c ds i o b junk js pid stopped signals commands stay h fits =
    let (j, pid', fresh, run) = on_cmdline-pipeline c ds i o b junk js pid commands stay h fits in
    let l : Cmdline = record {
      err = none;
      input = i;
      output = o;
      seq = some (c ∷ ds);
      background = b;
    } in
    let v : Vars = record { junk = junk; jobs = js; children = []; next_pid = pid } in
    let typed = parse_line-pipe c ds i o b commands in
    let (j', done, waited) =
      wait_loop-one b stopped signals (junk ++ pipe_text c ds) j
        (record {
          junk = junk;
          jobs = j ∷ js;
          children = pipeline (redirected_in i) (redirected_out o) 0 (c ∷ ds);
          next_pid = pid';
        })
        js fresh in
    (
      j',
      pid',
      done,
      rw typed (
          on_line-started l c ds (stopped ∷ signals) v _ refl refl
            (ap (λ x. on_cmdline x v) (sym typed) ∙ run)
          ∙ waited),
    )
