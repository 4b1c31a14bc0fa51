-- ===== src/Protocol/Questions.antt =====
-- The commands that the client sends alone and the slave answers with a text.
use semestre.Base.{List, [], ◌∷◌, Bytes, codes}
use semestre.Posix.Int.{ℤ}
use semestre.Parse.{ls, pwd}

pub data Question : Type 0 where
  files directory : Question

abbrev pub asked_by : Question → List Bytes
asked_by files = codes "ls" ∷ []
asked_by directory = codes "pwd" ∷ []

-- What the client writes on its output for an answer: an end of line goes behind a path.
abbrev pub shown_as : Question → Bytes → List Bytes
shown_as files text = text ∷ []
shown_as directory text = text ∷ ((b'\n' ∷ []) ∷ [])

abbrev pub question_code : Question → ℤ
question_code files = ls
question_code directory = pwd
