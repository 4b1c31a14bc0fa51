-- ===== src/Readcmd/Result.antt =====
-- The structure that `readcmd` returns, as the comment in SR/Projet/readcmd.h describes it.
use semestre.Base.{
  ◌≡◌, Bool, true, false, if◌then◌else◌, refl, ◌⊎◌, inl, inr, Option, none, some, List, [], ◌∷◌,
  Bytes, Bool, if◌then◌else◌,
}
use semestre.Readcmd.{
  SyntaxError, misplaced_pipe, Cmdline, Kind, less, greater, bar, ampersand, plain, kind_of,
  Partial, Parsed, finished, failed_at, end_command, add_word, parse_words, last_command,
  to_cmdline, parse_line, nothing_yet,
}
use semestre.Readcmd.Grammar.{AllPlain, AllCommands, AllPlain-snoc, AllCommands-snoc}

Kind-cases : (k : Kind) → (k ≡ less) ⊎ (k ≡ greater) ⊎ (k ≡ bar) ⊎ (k ≡ ampersand) ⊎ (k ≡ plain)
Kind-cases less = inl refl
Kind-cases greater = inr (inl refl)
Kind-cases bar = inr (inr (inl refl))
Kind-cases ampersand = inr (inr (inr (inl refl)))
Kind-cases plain = inr (inr (inr (inr refl)))

-- What has been read so far.
record IsSound (p : Partial) : Type 0 where
  commands : AllCommands p.seq
  words : AllPlain p.cmd

abbrev Sound : Parsed → Type 0
Sound (finished p) = IsSound p
Sound (failed_at e p rest) = Unit {0}

IsSound-word : (p : Partial) (w : Bytes) → IsSound p → kind_of w ≡ plain → IsSound (add_word p w)
IsSound-word p w h e = record { commands = h.commands; words = AllPlain-snoc p.cmd w h.words e }

-- The end of a command: an error if it has no word.
IsSound-end :
    (p : Partial) (c : Bytes) (cs : List Bytes)
    → IsSound p
    → p.cmd ≡ c ∷ cs
    → IsSound (end_command p)
IsSound-end p c cs h e = record {
  commands = AllCommands-snoc p.seq p.cmd h.commands (rw e (rw e at h.words));
  words = tt;
}

-- A test whose other branch is an error.
module _ (e : SyntaxError) (p : Partial) (rest : List Bytes) (q : Parsed) where
  Sound-unless :
      (o : Option Bytes)
      → Sound q
      → Sound (elim o as (λ _. Parsed) [ some f ↦ failed_at e p rest | none ↦ q ])
  Sound-unless none h = h
  Sound-unless (some f) h = tt

  Sound-command :
      (cmd : List Bytes)
      → ((x : Bytes) (xs : List Bytes) → cmd ≡ x ∷ xs → Sound q)
      → Sound (elim cmd as (λ _. Parsed) [ [] ↦ failed_at e p rest | c ∷ cs ↦ q ])
  Sound-command [] h = tt
  Sound-command (c ∷ cs) h = h c cs refl

parse_words-Sound : (p : Partial) (ws : List Bytes) → IsSound p → Sound (parse_words p ws)
unfolding parse_words
parse_words-Sound p [] h = h
parse_words-Sound p (w ∷ []) h = elim (Kind-cases (kind_of w)) [
  | inl e ↦ rw (e, parse_words) (Sound-unless _ _ _ _ p.input tt)
  | inr (inl e) ↦ rw (e, parse_words) (Sound-unless _ _ _ _ p.output tt)
  | inr (inr (inl e)) ↦
      rw (e, parse_words) (Sound-command _ _ _ _ p.cmd (λ x xs f. IsSound-end p x xs h f))
  | inr (inr (inr (inl e))) ↦
      rw (e, parse_words) (record { commands = h.commands; words = h.words })
  | inr (inr (inr (inr e))) ↦ rw (e, parse_words) (IsSound-word p w h e)
]
parse_words-Sound p (w ∷ (x ∷ ws)) h = elim (Kind-cases (kind_of w)) [
  | inl e ↦
      rw (e, parse_words)
        (Sound-unless _ _ _ _ p.input
          (parse_words-Sound _ ws (record { commands = h.commands; words = h.words })))
  | inr (inl e) ↦
      rw (e, parse_words)
        (Sound-unless _ _ _ _ p.output
          (parse_words-Sound _ ws (record { commands = h.commands; words = h.words })))
  | inr (inr (inl e)) ↦
      rw (e, parse_words)
        (Sound-command _ _ _ _ p.cmd
          (λ y ys f. parse_words-Sound (end_command p) (x ∷ ws) (IsSound-end p y ys h f)))
  | inr (inr (inr (inl e))) ↦
      rw (e, parse_words)
        (parse_words-Sound _ (x ∷ ws) (record { commands = h.commands; words = h.words }))
  | inr (inr (inr (inr e))) ↦
      rw (e, parse_words) (parse_words-Sound (add_word p w) (x ∷ ws) (IsSound-word p w h e))
]

Sound-last :
    (p : Partial) (cmd : List Bytes) (cs : List (List Bytes))
    → IsSound p
    → ((x : Bytes) (xs : List Bytes) → cmd ≡ x ∷ xs → IsSound (end_command p))
    → Sound (elim cmd as (λ _. Parsed) [
      | [] ↦ elim cs as (λ _. Parsed) [ [] ↦ finished p | s ∷ ss ↦ failed_at misplaced_pipe p [] ]
      | c ∷ cs' ↦ finished (end_command p)
    ])
Sound-last p [] [] h f = h
Sound-last p [] (s ∷ ss) h f = tt
Sound-last p (c ∷ cs') cs h f = f c cs' refl

last_command-Sound : (q : Parsed) → Sound q → Sound (last_command q)
unfolding last_command
last_command-Sound (failed_at e p rest) h = tt
last_command-Sound (finished p) h = Sound-last p p.cmd p.seq h (λ x xs e. IsSound-end p x xs h e)

-- Either there is no error and `seq` is a list of commands, each of one word at least and of no
-- operator; or there is one, and the three pointers are null.
abbrev pub Described : Cmdline → Type 0
Described l =
    ((l.err ≡ none) × (cs : List (List Bytes)) × (l.seq ≡ some cs) × AllCommands cs)
    ⊎ ((e : SyntaxError) × (l.err ≡ some e) × (l.seq ≡ none) × (l.input ≡ none) × (l.output ≡ none))

abbrev Describes : Option Cmdline → Type 0
Describes none = Unit {0}
Describes (some l) = Described l

Describes-if : (b : Bool) (l : Cmdline) → Described l → Describes (if b then some l else none)
Describes-if true l h = h
Describes-if false l h = tt

to_cmdline-Describes : (q : Parsed) → Sound q → Describes (to_cmdline q)
unfolding to_cmdline
to_cmdline-Describes (finished p) h = inl (refl, p.seq, refl, h.commands)
to_cmdline-Describes (failed_at e p rest) h = Describes-if _ _ (inr (e, refl, refl, refl, refl))

-- What `readcmd` returns for the words of a line, whatever they are, is either a list of commands,
-- each with a word at least and none with an operator, and no error; or an error, with `seq`, `in`
-- and `out` null.
pub parse_line-Described :
    (words : List Bytes) (l : Cmdline) → parse_line words ≡ some l → Described l
unfolding parse_line
parse_line-Described words l e = rw e at (
    to_cmdline-Describes (last_command (parse_words nothing_yet words)) (
      last_command-Sound (parse_words nothing_yet words)
        (parse_words-Sound nothing_yet words (record { commands = tt; words = tt }))))
