-- ===== src/FirstShell/Pipe.antt =====
-- The processes of a pipe, and the wait for them.
use semestre.Base.{
  ◌∙◌, sym, ap, ℕ, ◌+◌, ◌<◌, ◌≡◌, refl, inl, inr, Bool, true, false, Option, none, some, List, [],
  ◌∷◌, ◌++◌, Bytes, Bool-cases, ◌∙◌, sym, ap, arith, suc, le→ltb, append_assoc,
}
use semestre.Posix.Run.{ok}
use semestre.Readcmd.{Cmdline, parse_line}
use semestre.Readcmd.Grammar.{AllCommands, pipe_words, tail_words, parse_line-pipe}
use semestre.Shell.{Child, to_tube, length_seq, max_cmd, redirected_in, redirected_out}
use semestre.Shell.Pipe.{NoExit, pipeline, source, child_of-last, child_of-inner}
use semestre.FirstShell.{
  max_tubes, start_commands, start_command, start_child, run_seq, Vars, check_line, run_line,
  wait_line, start_line, on_cmdline,
}

-- The number of calls of `waitpid` behind a line of `n` commands.
abbrev pub waited : Bool → ℕ → ℕ → ℕ
waited true w n = w
waited false w n = w + n

wait_line-waits :
    (l : Cmdline) (seq : List (List Bytes)) (v : Vars)
    → l.seq ≡ some seq
    → wait_line (some l) v
      ≡ ok tt (record v { waits = waited l.background v.waits (length_seq seq) })
unfolding wait_line
wait_line-waits l seq v h = elim (Bool-cases l.background) [
  | inl e ↦ rw e refl
  | inr e ↦ rw (e, h) refl
]

on_cmdline-started :
    (l : Cmdline) (v v' : Vars)
    → l.err ≡ none
    → start_line (some l) v ≡ ok tt v'
    → on_cmdline (some l) v ≡ wait_line (some l) v'
unfolding on_cmdline start_line check_line
on_cmdline-started l v v' h run =
    let ran : start_line (some l) v ≡ run_line (some l) v = simp h refl in
    simp (h, sym ran ∙ run) refl

abbrev started : List Child → ℕ → ℕ → Vars
started children pid w = record { children = children; next_pid = pid; waits = w }

start_commands-pipeline :
    (l : Cmdline) (w n i : ℕ) (c : List Bytes) (ds : List (List Bytes)) (done : List Child)
    (pid : ℕ)
    → NoExit (c ∷ ds)
    → i + length_seq (c ∷ ds) ≡ n
    → (pid' : ℕ) × (start_commands l n i (c ∷ ds) (started done pid w)
        ≡ ok tt (
            started
              (done ++ pipeline (source l.input i) (redirected_out l.output) i (c ∷ ds))
              pid'
              w))
unfolding start_commands start_command start_child length_seq source
start_commands-pipeline l w n i c [] done pid stay e =
    (pid + 1, rw (stay.0, child_of-last l.input l.output c n i (omega arith)) refl)
start_commands-pipeline l w n i c (d ∷ ds) done pid stay e =
    let here : Child = record { argv = c; input = source l.input i; output = to_tube i } in
    let next : i + 1 ≡ suc i = omega arith in
    let (pid', more) =
      start_commands-pipeline l w n (suc i) d ds (done ++ (here ∷ [])) (pid + 1) stay.1
        (omega arith) in
    (
      pid',
      rw (stay.0, child_of-inner l.input l.output c n i (omega arith), next) more
          ∙ ap (λ cs. ok tt (started cs pid' w)) (append_assoc done (here ∷ []) _),
    )

start_line-pipeline :
    (c : List Bytes) (ds : List (List Bytes)) (i o : Option Bytes) (b : Bool) (pid w : ℕ)
    → AllCommands (c ∷ ds)
    → NoExit (c ∷ ds)
    → length_seq (c ∷ ds) < max_cmd
    → (pid' : ℕ) × (start_line (parse_line (pipe_words c ds ++ tail_words i o b)) (started [] pid w)
        ≡ ok tt (started (pipeline (redirected_in i) (redirected_out o) 0 (c ∷ ds)) pid' w))
unfolding start_line check_line run_line run_seq source
start_line-pipeline c ds i o b pid w commands stay h =
    let l : Cmdline = record {
      err = none;
      input = i;
      output = o;
      seq = some (c ∷ ds);
      background = b;
    } in
    let n = length_seq (c ∷ ds) in
    let (pid', run) = start_commands-pipeline l w n 0 c ds [] pid stay (omega arith) in
    (pid', rw (parse_line-pipe c ds i o b commands, le→ltb max_tubes n (omega arith)) run)

-- A typed pipe of fewer than MAX_CMD commands, none of them `exit`, with a file for the input or
-- none, one for the output or none, and `&` or not: the first version starts exactly the processes
-- of that pipe, in order, and then calls `waitpid` once for each of them, or never with `&`.
pub on_cmdline-waits :
    (c : List Bytes) (ds : List (List Bytes)) (i o : Option Bytes) (b : Bool) (pid w : ℕ)
    → AllCommands (c ∷ ds)
    → NoExit (c ∷ ds)
    → length_seq (c ∷ ds) < max_cmd
    → (pid' : ℕ) × (on_cmdline
          (parse_line (pipe_words c ds ++ tail_words i o b))
          (record { children = []; next_pid = pid; waits = w })
        ≡ ok tt (record {
          children = pipeline (redirected_in i) (redirected_out o) 0 (c ∷ ds);
          next_pid = pid';
          waits = waited b w (length_seq (c ∷ ds));
        }))
on_cmdline-waits c ds i o b pid w commands stay h =
    let (pid', run) = start_line-pipeline c ds i o b pid w commands stay h in
    let l : Cmdline = record {
      err = none;
      input = i;
      output = o;
      seq = some (c ∷ ds);
      background = b;
    } in
    let typed = parse_line-pipe c ds i o b commands in
    let v : Vars = record { children = []; next_pid = pid; waits = w } in
    (
      pid',
      rw typed (
          on_cmdline-started l v _ refl (ap (λ x. start_line x v) (sym typed) ∙ run)
          ∙ wait_line-waits l (c ∷ ds) _ refl),
    )
