-- ===== src/Shell/Overflow.antt =====
-- A text that has no room in the array of the job.
use semestre.Base.{
  ℕ, zero, suc, ◌+◌, ◌≤◌, ◌≡◌, ◌∙◌, sym, refl, ap, false, Bool, inl, inr, Option, none, some, List,
  [], ◌∷◌, ◌++◌, Bytes, codes, arith, length, ltb, append-nil, append_assoc, Bool-cases, le→ltb,
}
use semestre.Posix.Run.{fault}
use semestre.Readcmd.{Cmdline, parse_line}
use semestre.Readcmd.Grammar.{IsCommand, AllCommands, pipe_words, tail_words, parse_line-pipe}
use semestre.Shell.{
  Job, Child, Vars, max_char_cmd_line, max_cmd, strcat, add_text, add_words, set_job, open_job,
  is_exit, start_command, start_commands, length_seq, run_seq, on_cmdline, shell_head, add_job,
  count_job, check_line, run_line, new_job,
}
use semestre.Shell.Text.{Fits, words_text, pipe_text, with_text, add_text-adds}
use semestre.Shell.Pipe.{NoExit, Before, shell, start_command-starts}

module _ (v : Vars) (j : Job) (js : List Job) where
  add_text-overflows :
      (t s : Bytes) → max_char_cmd_line ≤ length (t ++ s) → add_text s (with_text v j js t) ≡ fault
  unfolding add_text strcat
  add_text-overflows t s h = rw (le→ltb (length (t ++ s)) max_char_cmd_line h) refl

  add_words-overflows :
      (t : Bytes) (ws : List Bytes)
      → (ws ≡ [] → Fits t)
      → max_char_cmd_line ≤ length (t ++ words_text ws)
      → add_words ws (with_text v j js t) ≡ fault
  unfolding add_words
  add_words-overflows t [] fits h = absurd (omega (arith, fits refl, rw (append-nil t) at h))
  add_words-overflows t (w ∷ ws) fits h =
      let u = (t ++ w) ++ (b' ' ∷ []) in
      let e : t ++ words_text (w ∷ ws) ≡ u ++ words_text ws =
        sym (append_assoc t w _) ∙ sym (append_assoc (t ++ w) (b' ' ∷ []) _) in
      elim (Bool-cases (ltb (length (t ++ w)) max_char_cmd_line)) [
        | inr full ↦ rw (add_text-overflows t w (ground arith)) refl
        | inl room ↦
            rw (add_text-adds v j js t w (ground arith))
              (elim (Bool-cases (ltb (length u) max_char_cmd_line)) [
                | inr full ↦ rw (add_text-overflows (t ++ w) (b' ' ∷ []) (ground arith)) refl
                | inl room' ↦
                    rw (add_text-adds v j js (t ++ w) (b' ' ∷ []) (ground arith))
                      (add_words-overflows u ws (λ z. ground arith) (rw e at h))
              ])
      ]

module _ (l : Cmdline) (js : List Job) (g : Bytes) where
  start_command-overflows :
      (n i : ℕ) (cmd : List Bytes) (t : Bytes) (j : Job) (done : List Child) (pid : ℕ)
      → is_exit cmd ≡ false
      → IsCommand cmd
      → Before l js g i t j
      → max_char_cmd_line ≤ length (t ++ words_text cmd)
      → start_command l n i cmd (shell g j js done pid) ≡ fault
  unfolding start_command open_job set_job
  start_command-overflows n i [] t j done pid stays command f h = absurd command
  start_command-overflows n zero (w ∷ ws) t j done pid stays command f h =
      let opened : Job = record j {
        background = l.background;
        stopped = false;
        finished = false;
      } in
      rw
        (
          stays,
          add_words-overflows (shell g j js done pid) opened js g (w ∷ ws) (λ z. cc) (rw f at h),
        )
        refl
  start_command-overflows n (suc i) (w ∷ ws) t j done pid stays command (s, is_t, fresh) h =
      let v = shell g j js done pid in
      let shown : t ≡ j.cmd ++ codes " | " = is_t ∙ ap (λ x. x ++ codes " | ") (sym fresh.shows) in
      elim (Bool-cases (ltb (length t) max_char_cmd_line)) [
        | inr full ↦
            let over : max_char_cmd_line ≤ length (j.cmd ++ codes " | ") =
              rw (sym shown) (ground arith) in
            rw (stays, add_text-overflows v j js j.cmd (codes " | ") over) refl
        | inl room ↦
            let fits : Fits (j.cmd ++ codes " | ") = rw (sym shown) (ground arith) in
            rw
              (
                stays,
                add_text-adds v j js j.cmd (codes " | ") fits,
                add_words-overflows v j js (j.cmd ++ codes " | ") (w ∷ ws) (λ z. cc)
                    (rw shown at h),
              )
              refl
      ]

  start_commands-overflows :
      (n i : ℕ) (c : List Bytes) (ds : List (List Bytes)) (t : Bytes) (j : Job) (done : List Child)
      (pid : ℕ)
      → NoExit (c ∷ ds)
      → AllCommands (c ∷ ds)
      → i + length_seq (c ∷ ds) ≤ max_cmd
      → Before l js g i t j
      → max_char_cmd_line ≤ length (t ++ pipe_text c ds)
      → start_commands l n i (c ∷ ds) (shell g j js done pid) ≡ fault
  unfolding start_commands length_seq
  start_commands-overflows n i c [] t j done pid stay commands e f h =
      let all = ap (λ x. t ++ x) (append-nil (words_text c)) in
      rw (start_command-overflows n i c t j done pid stay.0 commands.0 f (rw all at h)) refl
  start_commands-overflows n i c (d ∷ ds) t j done pid stay commands e f h =
      let s = t ++ words_text c in
      elim (Bool-cases (ltb (length s) max_char_cmd_line)) [
        | inr full ↦
            rw (start_command-overflows n i c t j done pid stay.0 commands.0 f (ground arith)) refl
        | inl room ↦
            let all : t ++ pipe_text c (d ∷ ds) ≡ (s ++ codes " | ") ++ pipe_text d ds =
              sym (append_assoc t (words_text c) _) ∙ sym (append_assoc s (codes " | ") _) in
            let (j', fresh, run) =
              start_command-starts l js g n i c t j done pid stay.0 (omega arith) f
                (ground arith) in
            let next : i + 1 ≡ suc i = omega arith in
            rw (run, next)
              (start_commands-overflows n (suc i) d ds (s ++ codes " | ") j' _ (pid + 1) stay.1
                commands.1 (omega arith) (s, refl, fresh) (rw all at h))
      ]

run_seq-overflows :
    (l : Cmdline) (c : List Bytes) (ds : List (List Bytes)) (g : Bytes) (j : Job) (js : List Job)
    (pid : ℕ)
    → NoExit (c ∷ ds)
    → AllCommands (c ∷ ds)
    → max_char_cmd_line ≤ length (g ++ pipe_text c ds)
    → run_seq l (c ∷ ds) (shell g j js [] pid) ≡ fault
unfolding run_seq
run_seq-overflows l c ds g j js pid stay commands h =
    let n = length_seq (c ∷ ds) in
    elim (Bool-cases (ltb max_cmd n)) [
      | inl many ↦ rw many refl
      | inr few ↦
          rw
            (
              few,
              start_commands-overflows l js g n 0 c ds g j [] pid stay commands (ground arith) refl
                  h,
            )
            refl
    ]

-- A typed pipe, however many commands it has, none of them `exit`, with a file for the input or none,
-- one for the output or none, and `&` or not, whose text (each word with a space behind it, ` | `
-- between the commands), behind the `junk` that the array from `malloc` holds before its first NUL,
-- is 500 bytes or more: the shell accesses memory out of bounds.
pub on_cmdline-overflows :
    (c : List Bytes) (ds : List (List Bytes)) (i o : Option Bytes) (b : Bool) (junk : Bytes)
    (js : List Job) (pid : ℕ)
    → AllCommands (c ∷ ds)
    → NoExit (c ∷ ds)
    → max_char_cmd_line ≤ length (junk ++ pipe_text c ds)
    → on_cmdline
        (parse_line (pipe_words c ds ++ tail_words i o b))
        (record { junk = junk; jobs = js; children = []; next_pid = pid })
      ≡ fault
unfolding on_cmdline shell_head add_job count_job check_line run_line
on_cmdline-overflows c ds i o b junk js pid commands stay h =
    rw
      (
        parse_line-pipe c ds i o b commands,
        run_seq-overflows
            (record { err = none; input = i; output = o; seq = some (c ∷ ds); background = b }) c ds
            junk new_job js pid stay commands h,
      )
      refl
