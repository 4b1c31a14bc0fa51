-- ===== src/Readcmd/Typed.antt =====
-- `readcmd` on the text of a pipe.
use semestre.Base.{◌≡◌, true, ◌&&◌, Option, none, some}
use semestre.Readcmd.{Cmdline, may_free}

-- What `freecmd` may be given.
abbrev pub Freeable : Option Cmdline → Type 0
Freeable none = Unit {0}
Freeable (some s) = (may_free s.input && may_free s.output) ≡ true
