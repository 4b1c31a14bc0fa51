-- ===== src/Readcmd/Grammar.antt =====
-- What `readcmd` makes of the words of a line.
use semestre.Base.{
  ◌≡◌, refl, ap, ◌∙◌, none, some, List, [], ◌∷◌, ◌++◌, Bytes, append_assoc, append-nil, true, codes,
  Option, false, Bool, sym,
}
use semestre.Readcmd.{
  kind_of, plain, less, greater, bar, ampersand, Partial, add_word, parse_words, finished,
  last_command, parse_line, to_cmdline,
}

-- Words that are not operators.
abbrev pub AllPlain : List Bytes → Type 0
AllPlain [] = Unit {0}
AllPlain (w ∷ ws) = (kind_of w ≡ plain) × AllPlain ws

-- A command has a word at least.
abbrev pub IsCommand : List Bytes → Type 0
IsCommand [] = ⊥
IsCommand (w ∷ ws) = AllPlain (w ∷ ws)

abbrev pub AllCommands : List (List Bytes) → Type 0
AllCommands [] = Unit {0}
AllCommands (c ∷ cs) = IsCommand c × AllCommands cs

pub AllPlain-snoc :
    (ws : List Bytes) (w : Bytes) → AllPlain ws → kind_of w ≡ plain → AllPlain (ws ++ (w ∷ []))
AllPlain-snoc [] w h e = (e, tt)
AllPlain-snoc (x ∷ ws) w h e = (h.0, AllPlain-snoc ws w h.1 e)

pub AllCommands-snoc :
    (cs : List (List Bytes)) (c : List Bytes)
    → AllCommands cs
    → IsCommand c
    → AllCommands (cs ++ (c ∷ []))
AllCommands-snoc [] c h e = (e, tt)
AllCommands-snoc (x ∷ cs) c h e = (h.0, AllCommands-snoc cs c h.1 e)

-- One round of the loop, by the kind of the word.
module _ (p : Partial) (w : Bytes) where
  parse_words-plain :
      (ws : List Bytes) → kind_of w ≡ plain → parse_words p (w ∷ ws) ≡ parse_words (add_word p w) ws
  unfolding parse_words
  parse_words-plain [] e = rw (e, parse_words) refl
  parse_words-plain (x ∷ ws) e = rw (e, parse_words) refl

  parse_words-ampersand :
      (ws : List Bytes)
      → kind_of w ≡ ampersand
      → parse_words p (w ∷ ws) ≡ parse_words (record p { background = true }) ws
  unfolding parse_words
  parse_words-ampersand [] e = rw (e, parse_words) refl
  parse_words-ampersand (x ∷ ws) e = rw (e, parse_words) refl

  parse_words-less :
      (x : Bytes) (ws : List Bytes)
      → kind_of w ≡ less
      → p.input ≡ none
      → parse_words p (w ∷ (x ∷ ws)) ≡ parse_words (record p { input = some x }) ws
  unfolding parse_words
  parse_words-less x ws e f = rw (e, f, parse_words) refl

  parse_words-greater :
      (x : Bytes) (ws : List Bytes)
      → kind_of w ≡ greater
      → p.output ≡ none
      → parse_words p (w ∷ (x ∷ ws)) ≡ parse_words (record p { output = some x }) ws
  unfolding parse_words
  parse_words-greater x ws e f = rw (e, f, parse_words) refl

-- A command has been read, with `i`, `o` and `b` as they are.
abbrev reading : Option Bytes → Option Bytes → Bool → List Bytes → List (List Bytes) → Partial
reading i o b c cs = record { input = i; output = o; background = b; cmd = c; seq = cs }

parse_words-bar :
    (w : Bytes) (c : List Bytes) (done : List (List Bytes)) (ws : List Bytes)
    → kind_of w ≡ bar
    → IsCommand c
    → parse_words (reading none none false c done) (w ∷ ws)
      ≡ parse_words (reading none none false [] (done ++ (c ∷ []))) ws
unfolding parse_words
parse_words-bar w [] done ws e h = absurd h
parse_words-bar w (x ∷ c) done [] e h = rw (e, parse_words) refl
parse_words-bar w (x ∷ c) done (y ∷ ws) e h = rw (e, parse_words) refl

-- A run of words that are not operators.
parse_words-run :
    (p : Partial) (c rest : List Bytes)
    → AllPlain c
    → parse_words p (c ++ rest) ≡ parse_words (record p { cmd = p.cmd ++ c }) rest
parse_words-run p [] rest h = rw (append-nil p.cmd) refl
parse_words-run p (w ∷ c) rest h =
    parse_words-plain p w (c ++ rest) h.0
    ∙ parse_words-run (add_word p w) c rest h.1
    ∙ ap (λ ws. parse_words (record p { cmd = ws }) rest) (append_assoc p.cmd (w ∷ []) c)

-- The commands of a pipe, with `|` between them, but the last one, and the last one.
abbrev pub pipe_words : List Bytes → List (List Bytes) → List Bytes
pipe_words c [] = c
pipe_words c (d ∷ ds) = c ++ (codes "|" ∷ pipe_words d ds)

fronts : List Bytes → List (List Bytes) → List (List Bytes)
fronts c [] = []
fronts c (d ∷ ds) = c ∷ fronts d ds

last_of : List Bytes → List (List Bytes) → List Bytes
last_of c [] = c
last_of c (d ∷ ds) = last_of d ds

fronts-last_of :
    (c : List Bytes) (ds : List (List Bytes)) → fronts c ds ++ (last_of c ds ∷ []) ≡ c ∷ ds
unfolding fronts last_of
fronts-last_of c [] = refl
fronts-last_of c (d ∷ ds) = ap (◌∷◌ c) (fronts-last_of d ds)

IsCommand-last_of :
    (c : List Bytes) (ds : List (List Bytes)) → AllCommands (c ∷ ds) → IsCommand (last_of c ds)
unfolding last_of
IsCommand-last_of c [] h = h.0
IsCommand-last_of c (d ∷ ds) h = IsCommand-last_of d ds h.1

parse_words-pipe :
    (done : List (List Bytes)) (c : List Bytes) (ds : List (List Bytes)) (rest : List Bytes)
    → AllCommands (c ∷ ds)
    → parse_words (reading none none false [] done) (pipe_words c ds ++ rest)
      ≡ parse_words (reading none none false (last_of c ds) (done ++ fronts c ds)) rest
unfolding fronts last_of
parse_words-pipe done [] ds rest h = absurd h.0
parse_words-pipe done (w ∷ c) [] rest h =
    parse_words-run (reading none none false [] done) (w ∷ c) rest h.0
    ∙ ap (λ cs. parse_words (reading none none false (w ∷ c) cs) rest) (sym (append-nil done))
parse_words-pipe done (w ∷ c) (d ∷ ds) rest h =
    ap (parse_words (reading none none false [] done))
      (append_assoc (w ∷ c) (codes "|" ∷ pipe_words d ds) rest)
    ∙ parse_words-run (reading none none false [] done) (w ∷ c) _ h.0
    ∙ parse_words-bar (codes "|") (w ∷ c) done _ (unfold kind_of in refl) h.0
    ∙ parse_words-pipe (done ++ ((w ∷ c) ∷ [])) d ds rest h.1
    ∙ ap (λ cs. parse_words (reading none none false (last_of d ds) cs) rest)
        (append_assoc done ((w ∷ c) ∷ []) (fronts d ds))

-- The words behind the commands.
abbrev pub input_words : Option Bytes → List Bytes
input_words none = []
input_words (some f) = codes "<" ∷ (f ∷ [])

abbrev pub output_words : Option Bytes → List Bytes
output_words none = []
output_words (some f) = codes ">" ∷ (f ∷ [])

abbrev pub background_words : Bool → List Bytes
background_words false = []
background_words true = codes "&" ∷ []

abbrev pub tail_words : Option Bytes → Option Bytes → Bool → List Bytes
tail_words i o b = input_words i ++ (output_words o ++ background_words b)

parse_words-tail :
    (i o : Option Bytes) (b : Bool) (c : List Bytes) (cs : List (List Bytes))
    → parse_words (reading none none false c cs) (tail_words i o b) ≡ finished (reading i o b c cs)
unfolding parse_words kind_of
parse_words-tail none none false c cs = refl
parse_words-tail none none true c cs = refl
parse_words-tail none (some g) false c cs = refl
parse_words-tail none (some g) true c cs = refl
parse_words-tail (some f) none false c cs = refl
parse_words-tail (some f) none true c cs = refl
parse_words-tail (some f) (some g) false c cs = refl
parse_words-tail (some f) (some g) true c cs = refl

last_command-reading :
    (i o : Option Bytes) (b : Bool) (c : List Bytes) (cs : List (List Bytes))
    → IsCommand c
    → last_command (finished (reading i o b c cs)) ≡ finished (reading i o b [] (cs ++ (c ∷ [])))
unfolding last_command
last_command-reading i o b [] cs h = absurd h
last_command-reading i o b (w ∷ c) cs h = refl

-- A pipe of commands without operators, a file for the input or none, one for the output or none,
-- and `&` or not: `readcmd` gives back each of them, without an error.
pub parse_line-pipe :
    (c : List Bytes) (ds : List (List Bytes)) (i o : Option Bytes) (b : Bool)
    → AllCommands (c ∷ ds)
    → parse_line (pipe_words c ds ++ tail_words i o b)
      ≡ some (record { err = none; input = i; output = o; seq = some (c ∷ ds); background = b })
unfolding parse_line to_cmdline
parse_line-pipe c ds i o b h =
    rw
      (
        parse_words-pipe [] c ds (tail_words i o b) h,
        parse_words-tail i o b (last_of c ds) (fronts c ds),
        last_command-reading i o b (last_of c ds) (fronts c ds) (IsCommand-last_of c ds h),
        fronts-last_of c ds,
      )
      refl
