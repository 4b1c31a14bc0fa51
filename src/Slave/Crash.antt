-- ===== src/Slave/Crash.antt =====
-- `reception_info_crash_from_master` and `envoi_info_crash_to_client` of slave.c: a client comes
-- back after a crash, and the transfer goes on from where it was cut.
pub mod Resumes
pub mod Takes
use semestre.Base.{ℕ, Option, none, some, if◌then◌else◌}
use semestre.Posix.Int.{ℤ, pos, eq_ℤ, encode_int}
use semestre.Posix.Run.{pure, gets, ◌>>=◌, ◌>>◌}
use semestre.Posix.Calls.{recv, recv_int, send, close, nonzero, over, c_str}
use semestre.Posix.Files.{read_only, open_file, file_size}
use semestre.Protocol.{
  client_crashed, ok_code, short_timeout, max_line, envoi_info, attente_reponse,
}
use semestre.Slave.{master, clientfd, Slave, assign, disconnect}
use semestre.Slave.Transfer.{envoi_fichier_au_client}

-- The name is read over the one that `filename` held, with no NUL behind it.
unfoldable pub reception_info_crash_from_master : Slave (Unit {0})
reception_info_crash_from_master = do
  w ← attente_reponse master short_timeout
  if nonzero w
      then (do
        name ← recv master max_line
        assign λ v. record v { filename = over v.filename name }
        envoi_info master ok_code
        w' ← attente_reponse master short_timeout
        if nonzero w'
            then (do
              old ← gets (λ p. p.vars.nb_crash)
              n ← recv_int master old
              assign λ v. record v { nb_crash = n })
            else pure tt)
      else pure tt

-- The client is gone: `info` holds the code that is sent.
unfoldable pub client_lost : Slave (Unit {0})
client_lost = do disconnect; envoi_info master client_crashed; close clientfd

-- One turn of the dialogue: wait for the client's OK before the next step. `info` is what the variable
-- holds, which a `read` of no bytes leaves as it is.
unfoldable pub client_ok_then : ℤ → (ℤ → Slave (Unit {0})) → Slave (Unit {0})
client_ok_then info step = do
  w ← attente_reponse clientfd short_timeout
  if nonzero w
      then (do
        info' ← recv_int clientfd info
        if eq_ℤ info' ok_code then step info' else close clientfd)
      else client_lost

-- The file is sent again from `nb_crash` on, on the client's OK.
unfoldable pub resume : ℕ → ℤ → ℕ → Option ℤ → Slave (Unit {0})
resume fuel info file none = pure tt
resume fuel info file (some nb_octets) = do
  send clientfd (encode_int nb_octets)
  client_ok_then info
      λ _. do nb ← gets (λ p. p.vars.nb_crash); envoi_fichier_au_client fuel file nb nb_octets

unfoldable pub reopen : ℕ → ℤ → Option ℕ → Slave (Unit {0})
reopen fuel info none = pure tt
reopen fuel info (some file) = do size ← file_size file; resume fuel info file size

unfoldable pub envoi_info_crash_to_client : ℕ → Slave (Unit {0})
envoi_info_crash_to_client fuel = do
  junk ← gets (λ p. p.vars.info_junk)
  client_ok_then junk λ info. do
    name ← gets (λ p. p.vars.filename)
    send clientfd (c_str name)
    client_ok_then info λ info'. do
      nb ← gets (λ p. p.vars.nb_crash)
      send clientfd (encode_int nb)
      client_ok_then info' λ info''. do
        name' ← gets (λ p. p.vars.filename)
        file ← open_file read_only (c_str name')
        reopen fuel info'' file
