-- ===== src/Slave.antt =====
-- SR/projet_ftp/slave.c: the process that serves one client at a time. This file has its variables;
-- the children have its functions and what is proved of them.
pub mod Transfer
pub mod Crash
pub mod Commands
pub mod Session
pub mod Release
mod Examples
use semestre.Base.{ℕ, Bool, true, false, Bytes}
use semestre.Posix.Int.{ℤ}
use semestre.Posix.Run.{ok, modify}
use semestre.Posix.Kernel.{Process, Call}

-- The globals, and the locals of `main` that live through its loops. The strings are arrays of
-- MAXLINE bytes, or INET_ADDRSTRLEN for the address. `info_junk` is no variable of the program: it is
-- what the local `info` of `sent_crash_to_master` and of `envoi_info_crash_to_client` holds at first.
pub record Vars : Type 0 where
  pub connected : Bool
  pub client_ip_string : Bytes
  pub filename : Bytes
  pub nb_crash : ℤ
  pub int_cmd : ℤ
  pub info : ℤ
  pub path : Bytes
  pub nb_octets : ℤ
  pub info_junk : ℤ

-- Descriptors are named: the connection to the master and the one to the current client.
abbrev pub master : ℕ
master = 3

abbrev pub clientfd : ℕ
clientfd = 4

abbrev pub Slave : Type 0 → Type 0
Slave A = Call Vars A

abbrev pub SlaveState : Type 0
SlaveState = Process Vars

abbrev pub assign : (Vars → Vars) → Slave (Unit {0})
assign f = modify λ p. record p { vars = f p.vars }

abbrev pub disconnect : Slave (Unit {0})
disconnect = assign λ v. record v { connected = false }
