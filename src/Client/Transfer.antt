-- ===== src/Client/Transfer.antt =====
-- `reception_fichier`, `envoi_fichier_a_esclave` and `reception_donnees_crash` of client.c.
pub mod Sends
pub mod Receives
use semestre.Base.{
  ℕ, zero, suc, ◌+◌, Option, none, some, ◌∷◌, ltb, if◌then◌else◌, Bytes, length, drop, set,
}
use semestre.Posix.Int.{ℤ, pos, ltb_ℤ}
use semestre.Posix.Run.{out_of_fuel, pure, crash, ◌>>=◌, ◌>>◌}
use semestre.Posix.Kernel.{Got, got, failed}
use semestre.Posix.Calls.{recv, recv_int, send, nonzero, positive, over, c_str, add_int, sub_int}
use semestre.Posix.Files.{write_only, open_file, read_file, write_file, seek_file, close_file}
use semestre.Protocol.{ok_code, short_timeout, max_line, envoi_info, attente_reponse}
use semestre.Client.{Client, slave, leave}

-- `nb += n; write(file, buf, n)`.
unfoldable pub store_block : ℕ → ℤ → Got → Client ℤ
store_block file nb (got bs) = do nb' ← add_int nb (length bs); write_file file bs; pure nb'
store_block file nb failed = sub_int nb 1

unfoldable pub receive_round : ℕ → ℤ → Client ℤ
receive_round file nb = do
  w ← attente_reponse slave short_timeout
  if positive w
      then (do
        block ← recv slave max_line
        nb' ← store_block file nb block
        envoi_info slave ok_code
        pure nb')
      else leave

unfoldable pub receive_loop : ℕ → ℕ → ℤ → ℤ → Client ℤ
receive_loop zero file nb nb_octets = λ p. out_of_fuel p
receive_loop (suc fuel) file nb nb_octets =
    let more = receive_round file nb >>= λ nb'. receive_loop fuel file nb' nb_octets in
    if ltb_ℤ nb nb_octets then more else pure nb

unfoldable pub reception_fichier : ℕ → ℕ → ℤ → ℤ → Client (Unit {0})
reception_fichier fuel file nb nb_octets = do
  seek_file file nb
  envoi_info slave ok_code
  _ ← receive_loop fuel file nb nb_octets
  close_file file

-- `nb += nb_courant; write(slave, buf, nb_courant)`.
unfoldable pub write_block : ℤ → Got → Client ℤ
write_block nb (got bs) = do nb' ← add_int nb (length bs); send slave bs; pure nb'
write_block nb failed = sub_int nb 1

unfoldable pub send_round : ℕ → ℤ → Client ℤ
send_round file nb = do
  block ← read_file file max_line
  nb' ← write_block nb block
  w ← attente_reponse slave short_timeout
  if positive w then (do _ ← recv_int slave (pos 0); pure nb') else leave

unfoldable pub send_loop : ℕ → ℕ → ℤ → ℤ → Client ℤ
send_loop zero file nb nb_octets = λ p. out_of_fuel p
send_loop (suc fuel) file nb nb_octets =
    let more = send_round file nb >>= λ nb'. send_loop fuel file nb' nb_octets in
    if ltb_ℤ nb nb_octets then more else pure nb

unfoldable pub envoi_fichier_a_esclave : ℕ → ℕ → ℤ → ℤ → Client (Unit {0})
envoi_fichier_a_esclave fuel file nb nb_octets = do
  seek_file file nb
  _ ← send_loop fuel file nb nb_octets
  pure tt

-- One step of the dialogue: what comes within the timeout, or the end of the client.
unfoldable pub answered : {A : Type 0} → Client A → Client A
answered step = do w ← attente_reponse slave short_timeout; if nonzero w then step else leave

-- `filename[n+1] = '\0'` on an array that held `junk`: byte `n` stays what it was.
unfoldable pub ended_past : Bytes → Got → Client Bytes
ended_past junk failed = pure (0 ∷ drop 1 junk)
ended_past junk (got bs) =
    if ltb (length bs + 1) max_line
    then pure (set (over junk (got bs)) (length bs + 1) 0)
    else crash

unfoldable pub take_up : ℕ → ℤ → ℤ → Option ℕ → Client (Unit {0})
take_up fuel nb_bytes nb_octets none = leave
take_up fuel nb_bytes nb_octets (some file) = reception_fichier fuel file nb_bytes nb_octets

-- `junk` is what the local array `filename` held, `nb` and `n` the two local numbers.
unfoldable pub reception_donnees_crash : ℕ → Bytes → ℤ → ℤ → Client (Unit {0})
reception_donnees_crash fuel junk nb n = answered do
  g ← recv slave max_line
  filename ← ended_past junk g
  envoi_info slave ok_code
  answered do
    nb_bytes ← recv_int slave nb
    envoi_info slave ok_code
    answered do
      nb_octets ← recv_int slave n
      file ← open_file write_only (c_str filename)
      take_up fuel nb_bytes nb_octets file
