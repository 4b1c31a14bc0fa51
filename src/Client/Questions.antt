-- ===== src/Client/Questions.antt =====
-- A typed line of client.c that asks for the files or for the directory.
use semestre.Base.{ℕ, ◌≤◌, ◌≡◌, refl, some, List, [], ◌∷◌, ◌++◌, Bytes, length, append_assoc}
use semestre.Posix.Int.{encode_int}
use semestre.Posix.Run.{ok}
use semestre.Posix.Kernel.{Arrival, queue, wrote, chunk}
use semestre.Posix.Calls.{send}
use semestre.Posix.Log.{messages}
use semestre.Posix.Script.{left, logged, recv-chunk}
use semestre.Parse.{cmd_to_int, no_endofline}
use semestre.Parse.Shape.{AllWords}
use semestre.Parse.RoundTrip.{unwords, split_in_words-unwords}
use semestre.Protocol.{max_line}
use semestre.Protocol.Questions.{Question, files, directory, asked_by, question_code, shown_as}
use semestre.Client.{ClientState, slave, stdout}
use semestre.Client.Commands.{on_words, execute, do_ls, do_pwd, show, next_line, client_round}

asking : Question → ClientState → ClientState
asking u p =
    logged (wrote slave (encode_int (question_code u)))
      (record p { vars = record p.vars { int_cmd = question_code u } })

shown : Question → Bytes → List Arrival → ClientState → ClientState
unfolding asking
shown files text q p = logged (wrote stdout text) (left slave q (asking files p))
shown directory text q p =
    logged (wrote stdout (b'\n' ∷ []))
      (logged (wrote stdout text) (left slave q (asking directory p)))

shown-adds :
    (u : Question) (text : Bytes) (q : List Arrival) (p : ClientState)
    → let t = shown u text q p in
      (messages slave t.os.log ≡ messages slave p.os.log ++ (encode_int (question_code u) ∷ []))
      × (messages stdout t.os.log ≡ messages stdout p.os.log ++ shown_as u text)
      × (t.os.disk ≡ p.os.disk)
      × (t.vars.stdin ≡ p.vars.stdin)
      × (t.os.sockets slave ≡ queue q)
unfolding shown asking messages
shown-adds files text q p = (refl, refl, refl, refl, refl)
shown-adds directory text q p = (
  refl,
  append_assoc (messages stdout p.os.log) (text ∷ []) ((b'\n' ∷ []) ∷ []),
  refl,
  refl,
  refl,
)

on_words-questions :
    (fuel : ℕ) (u : Question) (text : Bytes) (q : List Arrival) (p : ClientState)
    → p.os.sockets slave ≡ queue (chunk text ∷ q)
    → length text ≤ max_line
    → on_words fuel (some (asked_by u)) p ≡ ok tt (shown u text q p)
unfolding on_words cmd_to_int execute do_ls do_pwd show send shown
on_words-questions fuel files text q p come short =
    rw (recv-chunk slave q (asking files p) max_line text come short) refl
on_words-questions fuel directory text q p come short =
    rw (recv-chunk slave q (asking directory p) max_line text come short) refl

asked_by-AllWords : (u : Question) → AllWords (asked_by u)
asked_by-AllWords files = ((refl, (refl, tt)), tt)
asked_by-AllWords directory = ((refl, (refl, (refl, tt))), tt)

module _ (fuel : ℕ) (u : Question) (text : Bytes) (lines : List Bytes) (q : List Arrival)
    (s : ClientState) (line : s.vars.stdin ≡ (unwords (asked_by u) ++ b'\n' ∷ []) ∷ lines)
    (short : length text ≤ max_line) (come : s.os.sockets slave ≡ queue (chunk text ∷ q)) where
  read_in : ClientState
  read_in = record s {
    vars = record s.vars { cmd = no_endofline (unwords (asked_by u) ++ b'\n' ∷ []); stdin = lines };
  }

  pub client_round-questions :
      (t : ClientState) × (client_round fuel s ≡ ok tt t)
      × (messages slave t.os.log ≡ messages slave s.os.log ++ (encode_int (question_code u) ∷ []))
      × (messages stdout t.os.log ≡ messages stdout s.os.log ++ shown_as u text)
      × (t.os.disk ≡ s.os.disk)
      × (t.vars.stdin ≡ lines)
      × (t.os.sockets slave ≡ queue q)
  unfolding client_round next_line read_in shown messages
  client_round-questions =
      let (said, shows, disk, typed, rest) = shown-adds u text q read_in in
      (
        shown u text q read_in,
        rw (line, split_in_words-unwords (asked_by u) (asked_by-AllWords u))
            (on_words-questions fuel u text q read_in come short),
        said,
        shows,
        disk,
        typed,
        rest,
      )
