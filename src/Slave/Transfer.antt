-- ===== src/Slave/Transfer.antt =====
-- `sent_crash_to_master`, `envoi_fichier_au_client` and `reception_fichier` of slave.c.
pub mod Receives
pub mod Sends
pub mod Cut
use semestre.Base.{ℕ, zero, suc, if◌then◌else◌, Bytes, length}
use semestre.Posix.Int.{ℤ, pos, eq_ℤ, ltb_ℤ, encode_int}
use semestre.Posix.Run.{out_of_fuel, pure, exit, gets, ◌>>=◌, ◌>>◌}
use semestre.Posix.Kernel.{Got, got, failed}
use semestre.Posix.Calls.{recv, recv_int, send, close, positive, fill, add_int, sub_int}
use semestre.Posix.Files.{read_file, write_file, seek_file, close_file}
use semestre.Protocol.{
  client_crashed, client_crashed_during_transfert, ok_code, short_timeout, max_line,
  inet_addrstrlen, envoi_info, attente_reponse,
}
use semestre.Slave.{master, clientfd, Slave, disconnect}

-- One turn of the dialogue: wait for the master's OK, and only then send. `info` is what the variable
-- holds, which a `read` of no bytes leaves as it is.
unfoldable pub await_ok_then : ℤ → (ℤ → Slave (Unit {0})) → Slave (Unit {0})
await_ok_then info answer = do
  w ← attente_reponse master short_timeout
  if positive w
      then (do info' ← recv_int master info; if eq_ℤ info' ok_code then answer info' else exit)
      else (do close master; exit)

-- The address, the number of bytes and the name of the file, each on the master's OK.
unfoldable pub sent_crash_to_master : Bytes → ℤ → Bytes → Slave (Unit {0})
sent_crash_to_master ip_string nb_bytes filename = do
  junk ← gets (λ p. p.vars.info_junk)
  await_ok_then junk λ info. do
    send master (fill inet_addrstrlen ip_string)
    await_ok_then info λ info'. do
      send master (encode_int nb_bytes)
      await_ok_then info' λ _. send master (fill max_line filename)

-- `nb += nb_courant; write(clientfd, buf, nb_courant)`; a count of -1 writes nothing.
unfoldable pub write_block : ℤ → Got → Slave ℤ
write_block nb (got bs) = do nb' ← add_int nb (length bs); send clientfd bs; pure nb'
write_block nb failed = sub_int nb 1

-- The branch of a client that does not answer: `crashed` is `nb - MAXLINE`.
unfoldable pub give_up : ℤ → ℤ → Slave ℤ
give_up crashed nb_octets =
    if ltb_ℤ crashed (pos 0)
    then (do disconnect; envoi_info master client_crashed; close clientfd; add_int nb_octets 1)
    else (do
      disconnect
      envoi_info master client_crashed_during_transfert
      ip ← gets (λ p. p.vars.client_ip_string)
      name ← gets (λ p. p.vars.filename)
      sent_crash_to_master ip crashed name
      close clientfd
      add_int nb_octets 1)

-- One round of `while (nb < nb_octets)`; what the client answers is read and only printed.
unfoldable pub send_round : ℕ → ℤ → ℤ → Slave ℤ
send_round file nb nb_octets = do
  block ← read_file file max_line
  nb' ← write_block nb block
  w ← attente_reponse clientfd short_timeout
  if positive w
      then (do _ ← recv_int clientfd (pos 0); pure nb')
      else (do crashed ← sub_int nb' max_line; give_up crashed nb_octets)

unfoldable pub send_loop : ℕ → ℕ → ℤ → ℤ → Slave ℤ
send_loop zero file nb nb_octets = λ p. out_of_fuel p
send_loop (suc fuel) file nb nb_octets =
    let more = send_round file nb nb_octets >>= λ nb'. send_loop fuel file nb' nb_octets in
    if ltb_ℤ nb nb_octets then more else pure nb

-- What it says at the end is only printed.
unfoldable pub envoi_fichier_au_client : ℕ → ℕ → ℤ → ℤ → Slave (Unit {0})
envoi_fichier_au_client fuel file nb nb_octets = do
  seek_file file nb
  _ ← send_loop fuel file nb nb_octets
  pure tt

-- `nb += n; write(file, buf, n)`.
unfoldable pub store_block : ℕ → ℤ → Got → Slave ℤ
store_block file nb (got bs) = do nb' ← add_int nb (length bs); write_file file bs; pure nb'
store_block file nb failed = sub_int nb 1

unfoldable pub receive_round : ℕ → ℤ → Slave ℤ
receive_round file nb = do
  w ← attente_reponse clientfd short_timeout
  if positive w
      then (do
        block ← recv clientfd max_line
        nb' ← store_block file nb block
        envoi_info clientfd ok_code
        pure nb')
      else (do close clientfd; exit)

unfoldable pub receive_loop : ℕ → ℕ → ℤ → ℤ → Slave ℤ
receive_loop zero file nb nb_octets = λ p. out_of_fuel p
receive_loop (suc fuel) file nb nb_octets =
    let more = receive_round file nb >>= λ nb'. receive_loop fuel file nb' nb_octets in
    if ltb_ℤ nb nb_octets then more else pure nb

unfoldable pub reception_fichier : ℕ → ℕ → ℤ → ℤ → Slave (Unit {0})
reception_fichier fuel file nb nb_octets = do
  seek_file file nb
  envoi_info clientfd ok_code
  _ ← receive_loop fuel file nb nb_octets
  close_file file
