-- ===== src/FirstShell/Agrees.antt =====
-- The two versions of the shell start the same processes.
use semestre.FirstShell.{ℕ}
use semestre.Base.{
  ◌≡◌, refl, ap, sym, ◌⊎◌, inl, inr, ℕ, zero, suc, ◌+◌, List, [], ◌∷◌, ◌++◌, Bool, Bytes,
  Bool-cases, ltb, Option, none, some, Option-cases, length, codes, ◌∙◌,
}
use semestre.Posix.Run.{◌>>◌, Run, Prog, ok, exited, fault, out_of_fuel, and_then, crash}
use semestre.Readcmd.{Cmdline}
use semestre.Shell
use semestre.Shell.{
  strcat, add_text, add_words, set_job, max_char_cmd_line, shell_head, add_job, count_job,
  length_seq, max_cmd, is_exit, start_command, open_job, set_pid, start_child,
}
use semestre.FirstShell

-- A state of shell.c, and a result, less the table of jobs.
abbrev pub without_jobs : ℕ → Shell.Vars → FirstShell.Vars
without_jobs w v = record { children = v.children; next_pid = v.next_pid; waits = w }

abbrev pub run_without_jobs : {A : Type 0} → ℕ → Run Shell.Vars A → Run FirstShell.Vars A
run_without_jobs w (ok a v) = ok a (without_jobs w v)
run_without_jobs w (exited v) = exited (without_jobs w v)
run_without_jobs w fault = fault
run_without_jobs w (out_of_fuel v) = out_of_fuel (without_jobs w v)

-- The second run does what the first one does, unless the first one is a fault.
abbrev pub Agree : {A : Type 0} → ℕ → Run Shell.Vars A → Run FirstShell.Vars A → Type 0
Agree w r r' = (r ≡ fault) ⊎ (r' ≡ run_without_jobs w r)

abbrev pub Agrees : {A : Type 0} → Prog Shell.Vars A → Prog FirstShell.Vars A → Type 0
Agrees m m' = (w : ℕ) (v : Shell.Vars) → Agree w (m v) (m' (without_jobs w v))

and_then-Agree :
    {A B : Type 0} (w : ℕ) (r : Run Shell.Vars A) (r' : Run FirstShell.Vars A)
    (k : A → Prog Shell.Vars B) (k' : A → Prog FirstShell.Vars B)
    → Agree w r r'
    → ((a : A) → Agrees (k a) (k' a))
    → Agree w (and_then r k) (and_then r' k')
and_then-Agree w (ok a v) r' k k' h n = elim h [ inl e ↦ cc | inr e ↦ rw e (n a w v) ]
and_then-Agree w (exited v) r' k k' h n = elim h [ inl e ↦ cc | inr e ↦ rw e (inr refl) ]
and_then-Agree w fault r' k k' h n = inl refl
and_then-Agree w (out_of_fuel v) r' k k' h n = elim h [ inl e ↦ cc | inr e ↦ rw e (inr refl) ]

-- What only writes the table of jobs.
abbrev Quiet : Prog Shell.Vars (Unit {0}) → Type 0
Quiet m =
    (w : ℕ) (v : Shell.Vars)
    → (m v ≡ fault)
      ⊎ ((v' : Shell.Vars) × (m v ≡ ok tt v') × (without_jobs w v' ≡ without_jobs w v))

Quiet-then : (m m' : Prog Shell.Vars (Unit {0})) → Quiet m → Quiet m' → Quiet (m >> m')
Quiet-then m m' h h' w v = elim (h w v) [
  | inl e ↦ inl (rw e refl)
  | inr (v', run, same) ↦ rw (run, sym same) (h' w v')
]

strcat-Quiet : (s : Bytes) (js : List Shell.Job) → Quiet (strcat s js)
unfolding strcat
strcat-Quiet s [] w v = inl refl
strcat-Quiet s (j ∷ js) w v = elim (Bool-cases (ltb (length (j.cmd ++ s)) max_char_cmd_line)) [
  | inl e ↦ rw e (inr (_, refl, refl))
  | inr e ↦ rw e (inl refl)
]

add_text-Quiet : (s : Bytes) → Quiet (add_text s)
unfolding add_text
add_text-Quiet s w v = strcat-Quiet s v.jobs w v

add_words-Quiet : (ws : List Bytes) → Quiet (add_words ws)
unfolding add_words
add_words-Quiet [] w v = inr (v, refl, refl)
add_words-Quiet (x ∷ ws) w v =
    Quiet-then (add_text x) _ (add_text-Quiet x)
      (Quiet-then (add_text (b' ' ∷ [])) _ (add_text-Quiet (b' ' ∷ [])) (add_words-Quiet ws)) w v

set_job-Quiet : (b : Bool) (js : List Shell.Job) → Quiet (set_job b js)
unfolding set_job
set_job-Quiet b [] w v = inl refl
set_job-Quiet b (j ∷ js) w v = inr (_, refl, refl)

open_job-Quiet : (b : Bool) (i : ℕ) → Quiet (open_job b i)
unfolding open_job
open_job-Quiet b zero w v = set_job-Quiet b v.jobs w v
open_job-Quiet b (suc i) w v = add_text-Quiet (codes " | ") w v

set_pid-Quiet : (i pid : ℕ) (js : List Shell.Job) → Quiet (set_pid i pid js)
unfolding set_pid
set_pid-Quiet i pid [] w v = inl refl
set_pid-Quiet i pid (j ∷ js) w v = elim (Bool-cases (ltb i max_cmd)) [
  | inl e ↦ rw e (inr (_, refl, refl))
  | inr e ↦ rw e (inl refl)
]

start_command-Agrees :
    (l : Cmdline) (length i : ℕ) (cmd : List Bytes)
    → Agrees (Shell.start_command l length i cmd) (FirstShell.start_command l length i cmd)
unfolding Shell.start_command FirstShell.start_command Shell.start_child FirstShell.start_child
start_command-Agrees l length i cmd w v = elim (Bool-cases (is_exit cmd)) [
  | inl e ↦ rw e (inr refl)
  | inr e ↦ elim (open_job-Quiet l.background i w v) [
    | inl f ↦ rw (e, f) (inl refl)
    | inr (v0, run0, same0) ↦ elim (add_words-Quiet cmd w v0) [
      | inl f ↦ rw (e, run0, f) (inl refl)
      | inr (v1, run1, same1) ↦
          let c = Shell.child_of l.input l.output length i cmd in
          let started = record v1 {
            children = v1.children ++ (c ∷ []);
            next_pid = v1.next_pid + 1;
          } in
          elim (set_pid-Quiet i v1.next_pid v1.jobs w started) [
            | inl f ↦ rw (e, run0, run1, f) (inl refl)
            | inr (v2, run2, same2) ↦
                rw (e, run0, run1, run2, same2)
                  (inr (ap (FirstShell.start_child c) (sym (same1 ∙ same0))))
          ]
    ]
  ]
]

start_commands-Agrees :
    (l : Cmdline) (length i : ℕ) (seq : List (List Bytes))
    → Agrees (Shell.start_commands l length i seq) (FirstShell.start_commands l length i seq)
unfolding Shell.start_commands FirstShell.start_commands
start_commands-Agrees l length i [] w v = inr refl
start_commands-Agrees l length i (cmd ∷ seq) w v =
    and_then-Agree w _ _ _ _ (start_command-Agrees l length i cmd w v)
      (λ a. start_commands-Agrees l length (i + 1) seq)

quiet_end-Agree :
    (w n : ℕ) (r : Run Shell.Vars (Unit {0})) (r' : Run FirstShell.Vars (Unit {0}))
    → Agree w r r'
    → Agree w (and_then r (λ _ v. set_pid n 0 v.jobs v)) r'
quiet_end-Agree w n (ok tt v) r' (inl e) = cc
quiet_end-Agree w n (ok tt v) r' (inr e) = elim (set_pid-Quiet n 0 v.jobs w v) [
  | inl f ↦ inl f
  | inr (v', run, same) ↦ rw (run, same) (inr e)
]
quiet_end-Agree w n (exited v) r' h = h
quiet_end-Agree w n fault r' h = inl refl
quiet_end-Agree w n (out_of_fuel v) r' h = h

run_seq-Agrees :
    (l : Cmdline) (seq : List (List Bytes))
    → Agrees (Shell.run_seq l seq) (FirstShell.run_seq l seq)
unfolding Shell.run_seq FirstShell.run_seq
run_seq-Agrees l seq w v = elim (Bool-cases (ltb max_cmd (length_seq seq))) [
  | inl e ↦ rw e (inl refl)
  | inr e ↦
      rw e (
        quiet_end-Agree w (length_seq seq) _ _ (start_commands-Agrees l (length_seq seq) 0 seq w v))
]

run_line-Agrees : (l : Option Cmdline) → Agrees (Shell.run_line l) (FirstShell.run_line l)
unfolding Shell.run_line FirstShell.run_line
run_line-Agrees none w v = inr refl
run_line-Agrees (some l) w v = elim (Option-cases l.seq) [
  | inl e ↦ rw e (inl refl)
  | inr (seq, e) ↦ rw e (run_seq-Agrees l seq w v)
]

checked_line-Agrees :
    (l : Cmdline) → Agrees (Shell.check_line (some l)) (FirstShell.check_line (some l))
unfolding Shell.check_line FirstShell.check_line
checked_line-Agrees l w v = elim (Option-cases l.err) [
  | inl e ↦ rw e (inr refl)
  | inr (m, e) ↦ rw e (inr refl)
]

count_job-Cases : (o : Option (List (List Bytes))) → (count_job o ≡ crash) ⊎ Quiet (count_job o)
unfolding count_job
count_job-Cases none = inl refl
count_job-Cases (some []) = inr (λ w v. inr (v, refl, refl))
count_job-Cases (some (c ∷ cs)) = inr (λ w v. inr (_, refl, refl))

head-Agrees : (l : Option Cmdline) → Agrees (shell_head l) (FirstShell.check_line l)
unfolding shell_head add_job
head-Agrees none w v = inl refl
head-Agrees (some l) w v = elim (count_job-Cases l.seq) [
  | inl e ↦ rw e (inl refl)
  | inr q ↦ elim (q w v) [
    | inl f ↦ rw f (inl refl)
    | inr (v', run, same) ↦ rw (run, sym same) (checked_line-Agrees l w v')
  ]
]

-- On every line, whatever `readcmd` returns: unless shell.c accesses memory out of bounds, tst.c
-- starts the same processes in the same order, and leaves off or ends where shell.c does.
pub start_line-agrees :
    (l : Option Cmdline) (v : Shell.Vars) (w : ℕ)
    → (Shell.on_cmdline l v ≡ fault)
      ⊎ (FirstShell.start_line l (without_jobs w v) ≡ run_without_jobs w (Shell.on_cmdline l v))
unfolding Shell.on_cmdline FirstShell.start_line
start_line-agrees l v w = and_then-Agree w _ _ _ _ (head-Agrees l w v) run_line-Agrees
