-- ===== src/Client.antt =====
-- SR/projet_ftp/client.c: the program that the user types commands into. This file has its
-- variables; the children have its functions and what is proved of them.
pub mod Transfer
pub mod Commands
pub mod Resumes
pub mod Gets
pub mod Puts
pub mod Orders
pub mod Questions
use semestre.Base.{ℕ, List, Bytes}
use semestre.Posix.Int.{ℤ}
use semestre.Posix.Run.{ok, modify, exit, ◌>>=◌, ◌>>◌}
use semestre.Posix.Kernel.{Process, Call}
use semestre.Posix.Calls.{close}

-- The locals of `main` that live through its loop, and the lines that are still to be typed, each as
-- `fgets` returns it.
pub record Vars : Type 0 where
  pub info : ℤ
  pub int_cmd : ℤ
  pub nb_octets : ℤ
  pub cmd : Bytes
  pub stdin : List Bytes

-- The connection to the slave, and the terminal.
abbrev pub slave : ℕ
slave = 4

abbrev pub stdout : ℕ
stdout = 1

abbrev pub Client : Type 0 → Type 0
Client A = Call Vars A

abbrev pub ClientState : Type 0
ClientState = Process Vars

abbrev pub assign : (Vars → Vars) → Client (Unit {0})
assign f = modify λ p. record p { vars = f p.vars }

-- `close(slave); exit(0);`
abbrev pub leave : {A : Type 0} → Client A
leave = do close slave; exit
