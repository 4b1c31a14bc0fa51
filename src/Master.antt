-- ===== src/Master.antt =====
-- SR/projet_ftp/master.c: the child process, which gives clients to slaves and keeps the list of cut
-- transfers, and the father's step. This file has the variables and the scans of the tables.
pub mod Events
pub mod Rules
pub mod Loop
pub mod Serving
pub mod Tables
pub mod Dispatch
pub mod Overflow
pub mod Hands
mod Examples
use semestre.Base.{
  ℕ, zero, suc, ◌+◌, ◌≡◌, Bool, true, false, not, Option, none, some, List, [], ◌∷◌, ltb,
  if◌then◌else◌, Bytes,
}
use semestre.Posix.Int.{ℤ, pos, negsuc}
use semestre.Posix.Run.{Run, ok, exited, fault, out_of_fuel, modify}
use semestre.Posix.Kernel.{Process, Call}
use semestre.StockIp.{Nodes, Mem}

-- The globals and the locals that live through the loop. `busy` and `fd_slave` are the arrays of
-- NB_ESCLAVE entries; `nodes`, `head` and `next_node` are the heap of stock_ip.c, its list
-- `unfinished_transfert`, and what the next `malloc` returns.
pub record Vars : Type 0 where
  pub fd_slave : List ℕ
  pub busy : List Bool
  pub info : ℤ
  pub client_ip_string : Bytes
  pub nodes : Nodes
  pub head : ℕ
  pub next_node : ℕ

abbrev pub Master : Type 0 → Type 0
Master A = Call Vars A

abbrev pub MasterState : Type 0
MasterState = Process Vars

abbrev pub assign : (Vars → Vars) → Master (Unit {0})
assign f = modify λ p. record p { vars = f p.vars }

-- The read end of the pipe from the father, and its write end.
abbrev pub tube_out : ℕ
tube_out = 5

abbrev pub tube_in : ℕ
tube_in = 6

abbrev pub lifted : {A : Type 0} → Run Nodes A → MasterState → Run MasterState A
lifted (ok a st) p = ok a (record p { vars = record p.vars { nodes = st } })
lifted (exited st) p = exited p
lifted fault p = fault
lifted (out_of_fuel st) p = out_of_fuel p

-- A call of stock_ip.c.
abbrev pub on_nodes : {A : Type 0} → Mem A → Master A
on_nodes m p = lifted (m p.vars.nodes) p

-- The loop of `slave_not_busy` from index `i` on; -1 if there is none.
unfoldable pub slave_not_busy_from : ℕ → List Bool → ℤ
slave_not_busy_from i [] = negsuc 0
slave_not_busy_from i (true ∷ rest) = slave_not_busy_from (i + 1) rest
slave_not_busy_from i (false ∷ rest) = pos i

unfoldable pub slave_not_busy : List Bool → ℤ
slave_not_busy busy = slave_not_busy_from 0 busy

-- The loop of `fd_max`, with the greatest descriptor so far.
unfoldable pub fd_max_loop : ℤ → List ℕ → ℤ
fd_max_loop fd [] = fd
fd_max_loop (pos a) (b ∷ fds) = fd_max_loop (if ltb a b then pos b else pos a) fds
fd_max_loop (negsuc a) (b ∷ fds) = fd_max_loop (pos b) fds

unfoldable pub fd_max : ℕ → List ℕ → ℤ
fd_max tube fd_slave = fd_max_loop (fd_max_loop (negsuc 0) fd_slave) (tube ∷ [])
