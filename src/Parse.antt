-- ===== src/Parse.antt =====
-- SR/projet_ftp/parse.c and parse.h: a command line cut into words, and the code of a command. A C
-- string is the list of its bytes before the final NUL; `malloc` and `realloc` do not fail.
pub mod Shape
pub mod RoundTrip
pub mod Codes
mod Examples
use semestre.Base.{
  ℕ, zero, suc, Bool, true, false, ◌||◌, Option, none, some, List, [], ◌∷◌, ◌==◌, if◌then◌else◌,
  Bytes, codes, length, same_bytes,
}
use mathlib.Core.Option
use semestre.Posix.Int.{ℤ, pos, negsuc}

-- The first two cases of `switch (c)`.
abbrev pub is_blank : ℕ → Bool
is_blank c = c == b' ' || c == b'\t'

-- The cases with a word of one character.
abbrev pub is_operator : ℕ → Bool
is_operator c = c == b'<' || (c == b'>' || (c == b'|' || c == b'&'))

-- The inner `switch (c)`: `&` does not end a word.
abbrev pub ends_word : ℕ → Bool
ends_word c = is_blank c || (c == b'<' || (c == b'>' || c == b'|'))

-- The inner loop: the rest of the word that began before `line`, and where `cur` stops.
unfoldable pub scan_word : Bytes → Bytes × Bytes
scan_word [] = ([], [])
scan_word (c ∷ cs) = if ends_word c then ([], c ∷ cs) else (c ∷ (scan_word cs).0, (scan_word cs).1)

-- The outer loop, with a bound on its rounds; `none` when they run out.
unfoldable pub split_loop : ℕ → Bytes → Option (List Bytes)
unfolding scan_word
split_loop fuel [] = some []
split_loop zero (c ∷ cs) = none
split_loop (suc fuel) (c ∷ cs) =
    let blank = split_loop fuel cs in
    let single = Option.map (◌∷◌ (c ∷ [])) (split_loop fuel cs) in
    let word = Option.map (◌∷◌ (c ∷ (scan_word cs).0)) (split_loop fuel (scan_word cs).1) in
    if is_blank c then blank else if is_operator c then single else word

-- Every round takes at least one byte, so the length of the line is enough.
unfoldable pub split_in_words : Bytes → Option (List Bytes)
unfolding split_loop
split_in_words line = split_loop (length line) line

-- The command codes of parse.h.
abbrev pub get : ℤ
get = pos 1

abbrev pub exit_cmd : ℤ
exit_cmd = pos 0

abbrev pub ls : ℤ
ls = pos 3

abbrev pub pwd : ℤ
pwd = pos 4

abbrev pub host : ℤ
host = pos 5

abbrev pub cd : ℤ
cd = pos 6

abbrev pub rm : ℤ
rm = pos 7

abbrev pub mkdir : ℤ
mkdir = pos 8

abbrev pub put : ℤ
put = pos 9

abbrev pub rmr : ℤ
rmr = pos 10

abbrev pub error_cmd : ℤ
error_cmd = negsuc 0

unfoldable pub cmd_to_int : Bytes → ℤ
cmd_to_int cmd =
    if same_bytes cmd (codes "get")
    then get
    else if same_bytes cmd (codes "exit")
        || (same_bytes cmd (codes "quit") || same_bytes cmd (codes "bye"))
    then exit_cmd
    else if same_bytes cmd (codes "ls")
    then ls
    else if same_bytes cmd (codes "pwd")
    then pwd
    else if same_bytes cmd (codes "host")
    then host
    else if same_bytes cmd (codes "cd")
    then cd
    else if same_bytes cmd (codes "rm")
    then rm
    else if same_bytes cmd (codes "mkdir")
    then mkdir
    else if same_bytes cmd (codes "put")
    then put
    else error_cmd

-- `cmd[n-1] = '\0'` when `n > 0`.
unfoldable pub no_endofline : Bytes → Bytes
no_endofline [] = []
no_endofline (c ∷ []) = []
no_endofline (c ∷ (d ∷ cs)) = c ∷ no_endofline (d ∷ cs)
