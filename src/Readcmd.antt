-- ===== src/Readcmd.antt =====
-- SR/Projet/readcmd.c: a line of the standard input as a command line. `split_in_words` is the
-- same text as in SR/projet_ftp/parse.c. A string literal and a word from `malloc` are told apart by
-- their first byte, since only the four operators are literals; `free` of a literal is a fault.
pub mod Grammar
pub mod Result
pub mod Line
pub mod Typed
use semestre.Base.{
  ℕ, zero, suc, ◌+◌, ◌-◌, ◌*◌, ◌/◌, Bool, true, false, ◌&&◌, Option, none, some, List, [], ◌∷◌,
  ◌++◌, leb, ◌==◌, if◌then◌else◌, Bytes, length,
}
use semestre.Posix.Int.{int_max}
use semestre.Posix.Run.{Run, Prog, ok, out_of_fuel, pure, crash, exit, gets, modify, ◌>>=◌, ◌>>◌}
use semestre.Posix.Calls.{c_str}
use semestre.Parse.{split_in_words, no_endofline}

-- The five messages of `err`.
pub data SyntaxError : Type 0 where
  second_input input_missing second_output output_missing misplaced_pipe : SyntaxError

-- `struct cmdline`; a null pointer is `none`.
pub record Cmdline : Type 0 where
  pub err : Option SyntaxError
  pub input : Option Bytes
  pub output : Option Bytes
  pub seq : Option (List (List Bytes))
  pub background : Bool

-- What is still to come on the standard input, and what `readcmd` has returned last.
pub record Reader : Type 0 where
  pub stdin : Bytes
  pub static_cmdline : Option Cmdline

-- At most `n` bytes, up to the end of the line, and what is left.
unfoldable pub line_part : ℕ → Bytes → Bytes × Bytes
line_part n [] = ([], [])
line_part zero (c ∷ s) = ([], c ∷ s)
line_part (suc n) (c ∷ s) =
    let (taken, rest) = line_part n s in if c == b'\n' then (c ∷ [], s) else (c ∷ taken, rest)

-- `fgets(buf, size, stdin)`: `none` at the end of the input.
unfoldable pub fgets : ℕ → Prog Reader (Option Bytes)
unfolding line_part
fgets size st = elim st.stdin [
  | [] ↦ ok none st
  | c ∷ s ↦
      let (taken, rest) = line_part (size - 1) (c ∷ s) in
      ok (some taken) (record st { stdin = rest })
]

-- `(l > 0) && (buf[l-1] == '\n')`
unfoldable pub ends_line : Bytes → Bool
ends_line [] = false
ends_line (c ∷ []) = c == b'\n'
ends_line (c ∷ (d ∷ cs)) = ends_line (d ∷ cs)

-- The loop of `readline` on a buffer of `buf_len` bytes; `memory_error` ends the program.
unfoldable pub readline_loop : ℕ → Bytes → ℕ → Prog Reader Bytes
readline_loop zero buf buf_len = λ st. out_of_fuel st
readline_loop (suc fuel) buf buf_len =
    let str = c_str buf in
    let more = fgets (buf_len * 2 - length str) >>= λ got. elim got [
      | none ↦ pure str
      | some bs ↦ readline_loop fuel (str ++ bs) (buf_len * 2)
    ] in
    if ends_line str
    then pure (no_endofline str)
    else if leb (int_max / 2) buf_len
    then exit
    else more

unfoldable pub readline : ℕ → Prog Reader (Option Bytes)
readline fuel = do
  got ← fgets 16
  elim got [ none ↦ pure none | some bs ↦ (do line ← readline_loop fuel bs 16; pure (some line)) ]

-- `switch (w[0])`
pub data Kind : Type 0 where
  less greater bar ampersand plain : Kind

unfoldable pub kind_of : Bytes → Kind
kind_of [] = plain
kind_of (c ∷ cs) =
    if c == b'<'
    then less
    else if c == b'>'
    then greater
    else if c == b'|'
    then bar
    else if c == b'&'
    then ampersand
    else plain

-- The fields of `s` and the two arrays that grow.
pub record Partial : Type 0 where
  pub input : Option Bytes
  pub output : Option Bytes
  pub background : Bool
  pub cmd : List Bytes
  pub seq : List (List Bytes)

-- `goto error` with the words from `words[i]` on.
pub data Parsed : Type 0 where
  finished : Partial → Parsed
  failed_at : SyntaxError → Partial → List Bytes → Parsed

abbrev pub end_command : Partial → Partial
end_command p = record p { seq = p.seq ++ (p.cmd ∷ []); cmd = [] }

abbrev pub add_word : Partial → Bytes → Partial
add_word p w = record p { cmd = p.cmd ++ (w ∷ []) }

-- `while ((w = words[i++]) != 0)`
unfoldable pub parse_words : Partial → List Bytes → Parsed
parse_words p [] = finished p
parse_words p (w ∷ []) = elim (kind_of w) [
  | less ↦ elim p.input [
    | some f ↦ failed_at second_input p []
    | none ↦ failed_at input_missing p []
  ]
  | greater ↦ elim p.output [
    | some f ↦ failed_at second_output p []
    | none ↦ failed_at output_missing p []
  ]
  | bar ↦ elim p.cmd [ [] ↦ failed_at misplaced_pipe p [] | c ∷ cs ↦ finished (end_command p) ]
  | ampersand ↦ finished (record p { background = true })
  | plain ↦ finished (add_word p w)
]
parse_words p (w ∷ (x ∷ ws)) = elim (kind_of w) [
  | less ↦ elim p.input [
    | some f ↦ failed_at second_input p (x ∷ ws)
    | none ↦ parse_words (record p { input = some x }) ws
  ]
  | greater ↦ elim p.output [
    | some f ↦ failed_at second_output p (x ∷ ws)
    | none ↦ parse_words (record p { output = some x }) ws
  ]
  | bar ↦ elim p.cmd [
    | [] ↦ failed_at misplaced_pipe p (x ∷ ws)
    | c ∷ cs ↦ parse_words (end_command p) (x ∷ ws)
  ]
  | ampersand ↦ parse_words (record p { background = true }) (x ∷ ws)
  | plain ↦ parse_words (add_word p w) (x ∷ ws)
]

-- The `if (cmd_len != 0)` behind the loop.
unfoldable pub last_command : Parsed → Parsed
last_command (failed_at e p rest) = failed_at e p rest
last_command (finished p) = elim p.cmd [
  | c ∷ cs ↦ finished (end_command p)
  | [] ↦ elim p.seq [ [] ↦ finished p | s ∷ ss ↦ failed_at misplaced_pipe p [] ]
]

-- `free(w)`
unfoldable pub from_malloc : Bytes → Bool
from_malloc w = elim (kind_of w) [
  | less ↦ false
  | greater ↦ false
  | bar ↦ false
  | ampersand ↦ false
  | plain ↦ true
]

unfoldable pub may_free : Option Bytes → Bool
may_free none = true
may_free (some w) = from_malloc w

-- The loop behind `error:`, which frees all words but `<`, `>` and `|`.
unfoldable pub may_free_rest : List Bytes → Bool
may_free_rest [] = true
may_free_rest (w ∷ ws) = elim (kind_of w) [
  | less ↦ may_free_rest ws
  | greater ↦ may_free_rest ws
  | bar ↦ may_free_rest ws
  | ampersand ↦ false
  | plain ↦ may_free_rest ws
]

-- The structure that is returned; `none` is a fault.
unfoldable pub to_cmdline : Parsed → Option Cmdline
to_cmdline (finished p) = some (record {
  err = none;
  input = p.input;
  output = p.output;
  seq = some p.seq;
  background = p.background;
})
to_cmdline (failed_at e p rest) =
    if may_free_rest rest && (may_free p.input && may_free p.output)
    then some (record {
      err = some e;
      input = none;
      output = none;
      seq = none;
      background = p.background;
    })
    else none

abbrev pub nothing_yet : Partial
nothing_yet = record { input = none; output = none; background = false; cmd = []; seq = [] }

-- `readcmd` from the words on.
unfoldable pub parse_line : List Bytes → Option Cmdline
parse_line words = to_cmdline (last_command (parse_words nothing_yet words))

-- The words of `seq` are all from `malloc`, so only `in` and `out` matter.
unfoldable pub freecmd : Option Cmdline → Prog Reader (Unit {0})
freecmd none = pure tt
freecmd (some s) = if may_free s.input && may_free s.output then pure tt else crash

unfoldable pub return_cmdline : Option Cmdline → Prog Reader (Option Cmdline)
return_cmdline none = crash
return_cmdline (some s) = do modify (λ st. record st { static_cmdline = some s }); pure (some s)

unfoldable pub on_line : Option (List Bytes) → Prog Reader (Option Cmdline)
on_line none = λ st. out_of_fuel st
on_line (some words) = do
  old ← gets (λ st. st.static_cmdline)
  freecmd old
  return_cmdline (parse_line words)

unfoldable pub readcmd : ℕ → Prog Reader (Option Cmdline)
readcmd fuel = do
  got ← readline fuel
  elim got [
    | none ↦ (do
      old ← gets (λ st. st.static_cmdline)
      freecmd old
      modify (λ st. record st { static_cmdline = none })
      pure none)
    | some line ↦ on_line (split_in_words line)
  ]
