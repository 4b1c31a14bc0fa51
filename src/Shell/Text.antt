-- ===== src/Shell/Text.antt =====
-- The text of the command line that a job keeps.
use semestre.Base.{
  ◌<◌, ◌≡◌, ◌∙◌, sym, refl, List, [], ◌∷◌, ◌++◌, Bytes, codes, arith, length, append-nil,
  append_assoc, length-append, lt→ltb,
}
use semestre.Posix.Run.{ok}
use semestre.Shell.{Job, Vars, max_char_cmd_line, strcat, add_text, add_words}

abbrev pub words_text : List Bytes → Bytes
words_text [] = []
words_text (w ∷ ws) = w ++ (b' ' ∷ words_text ws)

abbrev pub rest_text : List (List Bytes) → Bytes
rest_text [] = []
rest_text (d ∷ ds) = codes " | " ++ (words_text d ++ rest_text ds)

-- The commands with ` | ` between them, each word with a space behind it.
abbrev pub pipe_text : List Bytes → List (List Bytes) → Bytes
pipe_text c ds = words_text c ++ rest_text ds

-- What an array for the text has room for, with the NUL behind it.
abbrev pub Fits : Bytes → Type 0
Fits t = length t < max_char_cmd_line

abbrev pub with_text : Vars → Job → List Job → Bytes → Vars
with_text v j js t = record v { jobs = record j { cmd = t } ∷ js }

pub Fits-append : (s t : Bytes) → Fits (s ++ t) → Fits s
Fits-append s t h = omega (arith, length-append s t)

module _ (v : Vars) (j : Job) (js : List Job) where
  pub add_text-adds :
      (t s : Bytes)
      → Fits (t ++ s)
      → add_text s (with_text v j js t) ≡ ok tt (with_text v j js (t ++ s))
  unfolding add_text strcat
  add_text-adds t s h = rw (lt→ltb (length (t ++ s)) max_char_cmd_line h) refl

  pub add_words-adds :
      (t : Bytes) (ws : List Bytes)
      → Fits (t ++ words_text ws)
      → add_words ws (with_text v j js t) ≡ ok tt (with_text v j js (t ++ words_text ws))
  unfolding add_words
  add_words-adds t [] h = rw (append-nil t) refl
  add_words-adds t (w ∷ ws) h =
      let e1 : t ++ words_text (w ∷ ws) ≡ (t ++ w) ++ (b' ' ∷ words_text ws) =
        sym (append_assoc t w _) in
      let e2 : t ++ words_text (w ∷ ws) ≡ ((t ++ w) ++ (b' ' ∷ [])) ++ words_text ws =
        e1 ∙ sym (append_assoc (t ++ w) (b' ' ∷ []) _) in
      let all : Fits (((t ++ w) ++ (b' ' ∷ [])) ++ words_text ws) = rw (sym e2) h in
      let both = Fits-append ((t ++ w) ++ (b' ' ∷ [])) (words_text ws) all in
      rw
        (
          add_text-adds t w (Fits-append (t ++ w) (b' ' ∷ []) both),
          add_text-adds (t ++ w) (b' ' ∷ []) both,
          add_words-adds ((t ++ w) ++ (b' ' ∷ [])) ws all,
          e2,
        )
        refl
