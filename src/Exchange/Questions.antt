-- ===== src/Exchange/Questions.antt =====
-- `ls` and `pwd`, from the typed line to what the client shows.
use semestre.Base.{ℕ, ◌<◌, ◌≡◌, List, [], ◌∷◌, ◌++◌, Bytes, length, arith}
use semestre.Posix.Int.{encode_int}
use semestre.Posix.Run.{ok}
use semestre.Posix.Kernel.{Arrival, queue}
use semestre.Posix.Log.{messages}
use semestre.Parse.RoundTrip.{unwords}
use semestre.Protocol.{max_line}
use semestre.Protocol.Blocks.{blocks}
use semestre.Protocol.Questions.{Question, asked_by, question_code, shown_as}
use semestre.Slave.{SlaveState, clientfd}
use semestre.Slave.Session.{session_round}
use semestre.Slave.Session.Answers.{answer_to, session_round-answers}
use semestre.Client.{ClientState, slave, stdout}
use semestre.Client.Commands.{client_round}
use semestre.Client.Questions.{client_round-questions}

module _ (fuel : ℕ) (u : Question) (lines : List Bytes) (q q' : List Arrival) (s : SlaveState)
    (s' : ClientState) where
  abbrev pub answer : Bytes
  answer = answer_to u s.os.system s.os.cwd s.os.disk

  module _ (some_bytes : 0 < length answer) (short : length answer < max_line)
      (line : s'.vars.stdin ≡ (unwords (asked_by u) ++ b'\n' ∷ []) ∷ lines)
      (slave_reads : s.os.sockets clientfd ≡ queue (blocks (encode_int (question_code u) ∷ []) q))
      (client_reads : s'.os.sockets slave ≡ queue (blocks (answer ∷ []) q')) where
    -- The user of the client types `ls` or `pwd`, and the names in the slave's directory, or its
    -- path, have a byte at least and fewer than MAXLINE. Each of the two programs reads what the
    -- other one writes. Both rounds return, the messages are these indeed, and the client shows
    -- exactly the answer, with an end of line behind a path; the session goes on, and nothing has
    -- changed on the slave's disk, in its directory or on the client's disk.
    pub question-answered :
        (t : SlaveState) × (t' : ClientState) × (session_round fuel s ≡ ok tt t)
        × (client_round fuel s' ≡ ok tt t')
        × (messages clientfd t.os.log ≡ messages clientfd s.os.log ++ (answer ∷ []))
        × (messages slave t'.os.log
            ≡ messages slave s'.os.log ++ (encode_int (question_code u) ∷ []))
        × (messages stdout t'.os.log ≡ messages stdout s'.os.log ++ shown_as u answer)
        × (t.os.disk ≡ s.os.disk)
        × (t.os.cwd ≡ s.os.cwd)
        × (t.vars.connected ≡ s.vars.connected)
        × (t'.os.disk ≡ s'.os.disk)
        × (t'.vars.stdin ≡ lines)
    question-answered =
        let (t, run, said, disk, cwd, on, rest) =
          session_round-answers fuel u q s some_bytes short slave_reads in
        let (t', run', said', shows, disk', typed', rest') =
          client_round-questions fuel u answer lines q' s' line (omega arith) client_reads in
        (t, t', run, run', said, said', shows, disk, cwd, on, disk', typed')
