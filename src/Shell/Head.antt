-- ===== src/Shell/Head.antt =====
-- The first lines of the shell's loop: `l->seq[0]` is read before `l` and `l->err` are tested.
use semestre.Base.{◌≡◌, refl, inl, inr, none, some, List, Bytes}
use semestre.Posix.Run.{fault}
use semestre.Readcmd.{Cmdline, SyntaxError, parse_line}
use semestre.Readcmd.Result.{parse_line-Described}
use semestre.Shell.{Vars, add_job, count_job, shell_head, on_cmdline}

on_cmdline-no_seq : (l : Cmdline) (v : Vars) → l.seq ≡ none → on_cmdline (some l) v ≡ fault
unfolding on_cmdline shell_head add_job count_job
on_cmdline-no_seq l v e = rw e refl

-- At the end of the input, and on every line with a syntax error, the shell reads through a null
-- pointer before it comes to the test for that case.
pub on_cmdline-fault :
    (words : List Bytes) (l : Cmdline) (e : SyntaxError) (v : Vars)
    → parse_line words ≡ some l
    → l.err ≡ some e
    → (on_cmdline none v ≡ fault) × (on_cmdline (some l) v ≡ fault)
unfolding on_cmdline shell_head add_job
on_cmdline-fault words l e v parsed bad = (
  refl,
  elim (parse_line-Described words l parsed) [
    | inl (good, cs, s, all) ↦ cc
    | inr (e', same, nothing, i, o) ↦ on_cmdline-no_seq l v nothing
  ],
)
