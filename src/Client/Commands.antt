-- ===== src/Client/Commands.antt =====
-- The commands in the main of client.c, and the body of its loop.
use semestre.Base.{
  ℕ, ◌||◌, Option, none, some, List, [], ◌∷◌, if◌then◌else◌, Bytes, codes, same_bytes,
}
use semestre.Posix.Int.{ℤ, pos, negsuc, eq_ℤ, ltb_ℤ, encode_int}
use semestre.Posix.Run.{pure, exit, gets, ◌>>=◌, ◌>>◌}
use semestre.Posix.Kernel.{Got, got, failed}
use semestre.Posix.Calls.{recv, recv_int, send, positive}
use semestre.Posix.Files.{read_only, write_create, open_file, file_size, run_and_wait}
use semestre.Parse.{
  get, exit_cmd, ls, pwd, host, cd, rm, mkdir, put, rmr, error_cmd, split_in_words, cmd_to_int,
  no_endofline,
}
use semestre.Protocol.{
  client_crashed_during_transfert, ok_code, error_open, short_timeout, max_line, envoi_info,
  attente_reponse,
}
use semestre.Client.{Client, slave, stdout, assign, leave}
use semestre.Client.Transfer.{
  reception_fichier, envoi_fichier_a_esclave, answered, reception_donnees_crash,
}

-- `write(STDOUT_FILENO, buf, n)`; an `n` of -1 writes nothing.
unfoldable pub show : Got → Client (Unit {0})
show (got bs) = send stdout bs
show failed = pure tt

unfoldable pub receive_info : Client ℤ
receive_info = do
  old ← gets (λ p. p.vars.info)
  info ← recv_int slave old
  assign λ v. record v { info = info }
  pure info

-- case EXIT
unfoldable pub do_exit : Client (Unit {0})
do_exit = do send slave (encode_int exit_cmd); exit

-- case LS and case PWD
unfoldable pub do_ls : Client (Unit {0})
do_ls = do send slave (encode_int ls); g ← recv slave max_line; show g

unfoldable pub do_pwd : Client (Unit {0})
do_pwd = do send slave (encode_int pwd); g ← recv slave max_line; show g; send stdout (b'\n' ∷ [])

-- GET, the file opened here or not.
unfoldable pub get_into : ℕ → ℤ → Option ℕ → Client (Unit {0})
get_into fuel nb_octets none = do
  assign λ v. record v { info = error_open }
  send slave (encode_int error_open)
get_into fuel nb_octets (some file) = reception_fichier fuel file (pos 0) nb_octets

unfoldable pub get_file : ℕ → Bytes → Client (Unit {0})
get_file fuel name = do
  send slave name
  w ← attente_reponse slave short_timeout
  if positive w
      then (do
        old ← gets (λ p. p.vars.nb_octets)
        n ← recv_int slave old
        assign λ v. record v { nb_octets = n }
        if ltb_ℤ (pos 0) n
            then (do file ← open_file write_create name; get_into fuel n file)
            else pure tt)
      else leave

-- PUT, the size known: it goes to the slave, and the bytes on the slave's OK.
unfoldable pub put_sized : ℕ → ℕ → Option ℤ → Client (Unit {0})
put_sized fuel file none = do
  assign λ v. record v { nb_octets = negsuc 0 }
  send slave (encode_int (negsuc 0))
put_sized fuel file (some n) = do
  assign λ v. record v { nb_octets = n }
  send slave (encode_int n)
  answered do
    info ← receive_info
    if eq_ℤ info ok_code then envoi_fichier_a_esclave fuel file (pos 0) n else leave

unfoldable pub put_from : ℕ → Option ℕ → Client (Unit {0})
put_from fuel none = do
  assign λ v. record v { nb_octets = negsuc 0 }
  send slave (encode_int (negsuc 0))
put_from fuel (some file) = do size ← file_size file; put_sized fuel file size

unfoldable pub put_file : ℕ → Bytes → Client (Unit {0})
put_file fuel name = do
  send slave name
  answered do
    info ← receive_info
    if eq_ℤ info ok_code then (do file ← open_file read_only name; put_from fuel file) else pure tt

-- The slave has said OK: the tests of `int_cmd`.
unfoldable pub with_name : ℕ → ℤ → Bytes → Client (Unit {0})
with_name fuel int_cmd name =
    if eq_ℤ int_cmd get
    then get_file fuel name
    else if eq_ℤ int_cmd mkdir
    then send slave name
    else if eq_ℤ int_cmd cd
    then send slave name
    else if eq_ℤ int_cmd put
    then put_file fuel name
    else leave

-- case MKDIR, PUT, CD and GET, with the words behind the command.
unfoldable pub do_named : ℕ → ℤ → List Bytes → Client (Unit {0})
do_named fuel int_cmd [] = pure tt
do_named fuel int_cmd (name ∷ rest) = do
  send slave (encode_int int_cmd)
  w ← attente_reponse slave short_timeout
  if positive w
      then (do
        info ← receive_info
        if eq_ℤ info ok_code then with_name fuel int_cmd name else pure tt)
      else leave

-- The code and the path of `rm`: with `-r` and one more word it is RMR.
unfoldable pub rm_target : Bytes → List Bytes → ℤ × Bytes
rm_target name [] = (rm, name)
rm_target name (next ∷ rest) = if same_bytes name (codes "-r") then (rmr, next) else (rm, name)

-- case RM
unfoldable pub do_rm : List Bytes → Client (Unit {0})
do_rm [] = pure tt
do_rm (name ∷ rest) = do
  assign λ v. record v { int_cmd = (rm_target name rest).0 }
  send slave (encode_int (rm_target name rest).0)
  answered do
    info ← receive_info
    if eq_ℤ info ok_code then send slave (rm_target name rest).1 else pure tt

-- case HOST: the command runs with no argument.
unfoldable pub do_host : List Bytes → Client (Unit {0})
do_host [] = pure tt
do_host (command ∷ rest) = run_and_wait (command ∷ [])

-- `switch (int_cmd)`
unfoldable pub execute : ℕ → ℤ → List Bytes → Client (Unit {0})
execute fuel c args =
    if eq_ℤ c exit_cmd
    then do_exit
    else if eq_ℤ c ls
    then do_ls
    else if eq_ℤ c pwd
    then do_pwd
    else if eq_ℤ c error_cmd
    then pure tt
    else if eq_ℤ c mkdir || (eq_ℤ c put || (eq_ℤ c cd || eq_ℤ c get))
    then do_named fuel c args
    else if eq_ℤ c rm
    then do_rm args
    else if eq_ℤ c host
    then do_host args
    else pure tt

unfoldable pub on_words : ℕ → Option (List Bytes) → Client (Unit {0})
on_words fuel none = pure tt
on_words fuel (some []) = pure tt
on_words fuel (some (w ∷ args)) = do
  assign λ v. record v { int_cmd = cmd_to_int w }
  execute fuel (cmd_to_int w) args

-- `fgets(cmd, MAXLINE, stdin)`: at the end of the input `cmd` keeps what it held.
unfoldable pub next_line : Bytes → List Bytes → Bytes × List Bytes
next_line cmd [] = (cmd, [])
next_line cmd (line ∷ lines) = (line, lines)

-- The body of `while (1)`.
unfoldable pub client_round : ℕ → Client (Unit {0})
client_round fuel = do
  assign λ v. record v {
    cmd = no_endofline (next_line v.cmd v.stdin).0;
    stdin = (next_line v.cmd v.stdin).1;
  }
  cmd ← gets (λ p. p.vars.cmd)
  on_words fuel (split_in_words cmd)

-- The slave's greeting; `junk`, `nb` and `n` are the locals of `reception_donnees_crash`.
unfoldable pub greeted : ℕ → Bytes → ℤ → ℤ → Client (Unit {0})
greeted fuel junk nb n = answered do
  info ← receive_info
  if eq_ℤ info client_crashed_during_transfert
      then (do envoi_info slave ok_code; reception_donnees_crash fuel junk nb n)
      else pure tt

-- The handler of SIGINT.
unfoldable pub handler_kill : Client (Unit {0})
handler_kill = do send slave (encode_int exit_cmd); leave
