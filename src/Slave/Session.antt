-- ===== src/Slave/Session.antt =====
-- The loops of the main of slave.c: a session with one client, and one client after another.
pub mod Eof
pub mod Get
pub mod Put
pub mod Orders
pub mod Answers
use semestre.Base.{ℕ, zero, suc, true, ◌||◌, [], ◌∷◌, if◌then◌else◌}
use semestre.Posix.Int.{ℤ, pos, eq_ℤ, store_int}
use semestre.Posix.Run.{ok, out_of_fuel, pure, exit, gets, ◌>>=◌, ◌>>◌}
use semestre.Posix.Kernel.{Socket, Got, got, failed}
use semestre.Posix.Calls.{recv, recv_int, close, nonzero, positive, over}
use semestre.Parse.{get, exit_cmd, ls, pwd, cd, rm, mkdir, put, rmr}
use semestre.Protocol.{
  client_crashed, client_crashed_during_transfert, default, ok_code, short_timeout, long_timeout,
  inet_addrstrlen, envoi_info, attente_reponse,
}
use semestre.Slave.{master, clientfd, Slave, assign}
use semestre.Slave.Commands.{
  do_exit, do_ls, do_pwd, do_mkdir, do_rm, do_put, do_cd, do_get, lose_client,
}
use semestre.Slave.Crash.{reception_info_crash_from_master, envoi_info_crash_to_client}

-- `switch (int_cmd)`; `fuel` bounds the rounds of one transfer.
unfoldable pub execute : ℕ → ℤ → Slave (Unit {0})
execute fuel c =
    if eq_ℤ c exit_cmd
    then do_exit
    else if eq_ℤ c ls
    then do_ls
    else if eq_ℤ c pwd
    then do_pwd
    else if eq_ℤ c mkdir
    then do_mkdir
    else if eq_ℤ c rmr || eq_ℤ c rm
    then do_rm c
    else if eq_ℤ c put
    then do_put fuel
    else if eq_ℤ c cd
    then do_cd
    else if eq_ℤ c get
    then do_get fuel
    else pure tt

-- `n = read(clientfd, &int_cmd, sizeof(int)); if (n > 0) …`
unfoldable pub on_command : ℕ → Got → Slave (Unit {0})
on_command fuel failed = pure tt
on_command fuel (got []) = pure tt
on_command fuel (got (b ∷ bs)) = do
  assign λ v. record v { int_cmd = store_int v.int_cmd (b ∷ bs) }
  c ← gets (λ p. p.vars.int_cmd)
  execute fuel c

-- The body of `while (connected)`.
unfoldable pub session_round : ℕ → Slave (Unit {0})
session_round fuel = do
  w ← attente_reponse clientfd long_timeout
  if positive w then (do g ← recv clientfd 4; on_command fuel g) else lose_client

-- `while (connected)`, with a bound on its rounds.
unfoldable pub session : ℕ → ℕ → Slave (Unit {0})
session zero fuel = λ p. out_of_fuel p
session (suc rounds) fuel =
    let more = session_round fuel >> session rounds fuel in
    do connected ← gets (λ p. p.vars.connected); if connected then more else pure tt

-- What the master says of the client that has come.
unfoldable pub greet : ℕ → ℤ → Slave (Unit {0})
greet fuel info =
    if eq_ℤ info client_crashed
    then (do
      envoi_info master ok_code
      reception_info_crash_from_master
      envoi_info clientfd client_crashed_during_transfert
      envoi_info_crash_to_client fuel)
    else if eq_ℤ info default
    then (do envoi_info master ok_code; envoi_info clientfd default)
    else pure tt

-- `Open_clientfd(client_ip_string, SLAVE_TO_CLIENT)`: the new connection comes with its script.
unfoldable pub open_clientfd : Socket → Slave (Unit {0})
open_clientfd s p = ok tt (record p {
  os = record p.os { sockets = λ j. if eq_ℤ (pos j) (pos clientfd) then s else p.os.sockets j };
})

-- The body of `while (1)`.
unfoldable pub serve_client : ℕ → ℕ → Socket → Slave (Unit {0})
serve_client rounds fuel s = do
  ip ← recv master inet_addrstrlen
  assign λ v. record v { client_ip_string = over v.client_ip_string ip }
  open_clientfd s
  assign λ v. record v { info = ok_code }
  envoi_info master ok_code
  w ← attente_reponse master short_timeout
  if nonzero w
      then (do
        old ← gets (λ p. p.vars.info)
        info ← recv_int master old
        assign λ v. record v { info = info }
        greet fuel info
        assign λ v. record v { connected = true }
        session rounds fuel)
      else pure tt

-- The handler of SIGINT: the master is told nothing.
unfoldable handler_kill : Slave (Unit {0})
handler_kill = do close master; close clientfd; exit
