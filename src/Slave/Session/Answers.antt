-- ===== src/Slave/Session/Answers.antt =====
-- One round of a session with a client that asks for the files or for the directory.
use semestre.Base.{
  none, some, Option, ℕ, ◌<◌, ◌≡◌, refl, false, [], ◌∷◌, ◌++◌, arith, Bytes, length, leb, List,
  Option, Option-cases, some, inl, inr,
}
use semestre.Posix.Int.{encode_int, Fits}
use semestre.Posix.Run.{ok}
use semestre.Posix.Kernel.{Arrival, queue, wrote, System, Disk}
use semestre.Posix.Calls.{send}
use semestre.Posix.Files.{list_directory}
use semestre.Posix.Log.{messages}
use semestre.Posix.Script.{left, logged, select-chunk, recv-chunk}
use semestre.Protocol.{max_line, attente_reponse}
use semestre.Protocol.Blocks.{blocks}
use semestre.Protocol.Questions.{Question, files, directory, question_code}
use semestre.Slave.{SlaveState, clientfd}
use semestre.Slave.Commands.{send_names, listing, do_ls, do_pwd}
use semestre.Slave.Session.{execute, session_round}
use semestre.Slave.Session.Get.{on_command-int}

-- The names in the directory, or its path; nothing for a directory that cannot be opened.
abbrev names_text : Option (List Bytes) → Bytes
names_text none = []
names_text (some names) = listing names

abbrev pub answer_to : Question → System → Bytes → Disk → Bytes
answer_to files y cwd d = names_text (y.names cwd d)
answer_to directory y cwd d = cwd

question_code-Fits : (u : Question) → Fits (question_code u)
question_code-Fits files = omega arith
question_code-Fits directory = omega arith

-- The case of the switch.
execute-answers :
    (fuel : ℕ) (u : Question) (s : SlaveState)
    → 0 < length (answer_to u s.os.system s.os.cwd s.os.disk)
    → leb max_line (length (answer_to u s.os.system s.os.cwd s.os.disk)) ≡ false
    → execute fuel (question_code u) s
      ≡ ok tt (logged (wrote clientfd (answer_to u s.os.system s.os.cwd s.os.disk)) s)
unfolding execute do_ls send_names do_pwd list_directory send
execute-answers fuel files s here small =
    elim (Option-cases (s.os.system.names s.os.cwd s.os.disk)) [
      | inl e ↦ absurd (omega (arith, rw e at here))
      | inr (names, e) ↦ let short = rw e at small in rw (e, short) refl
    ]
execute-answers fuel directory s here small = rw small refl

module _ (fuel : ℕ) (u : Question) (q : List Arrival) (s : SlaveState)
    (here : 0 < length (answer_to u s.os.system s.os.cwd s.os.disk))
    (short : length (answer_to u s.os.system s.os.cwd s.os.disk) < max_line)
    (come : s.os.sockets clientfd ≡ queue (blocks (encode_int (question_code u) ∷ []) q)) where
  commanded : SlaveState
  commanded =
      let s' = left clientfd q s in record s' { vars = record s.vars { int_cmd = question_code u } }

  answered : SlaveState
  unfolding commanded
  answered = logged (wrote clientfd (answer_to u s.os.system s.os.cwd s.os.disk)) commanded

  pub session_round-answers :
      (t : SlaveState) × (session_round fuel s ≡ ok tt t)
      × (messages clientfd t.os.log
          ≡ messages clientfd s.os.log ++ (answer_to u s.os.system s.os.cwd s.os.disk ∷ []))
      × (t.os.disk ≡ s.os.disk)
      × (t.os.cwd ≡ s.os.cwd)
      × (t.vars.connected ≡ s.vars.connected)
      × (t.os.sockets clientfd ≡ queue q)
  unfolding session_round attente_reponse answered messages
  session_round-answers = (
    answered,
    rw
        (
          select-chunk clientfd _ s (encode_int (question_code u)) come,
          recv-chunk clientfd _ s 4 (encode_int (question_code u)) come
              (unfold encode_int in omega arith),
          on_command-int fuel (question_code u) (left clientfd q s) (question_code-Fits u),
        )
        (execute-answers fuel u commanded here (ground arith)),
    refl,
    refl,
    refl,
    refl,
    refl,
  )
