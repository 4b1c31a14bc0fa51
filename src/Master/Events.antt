-- ===== src/Master/Events.antt =====
-- The functions of master.c that answer slaves and clients, and one round of its `select` loop.
use semestre.Base.{
  ℕ, ◌+◌, Bool, true, false, Option, none, some, List, [], ◌∷◌, ltb, if◌then◌else◌, Bytes, length,
  set, get_elem?, drop,
}
use semestre.Posix.Int.{ℤ, pos, negsuc, eq_ℤ, encode_int}
use semestre.Posix.Run.{pure, crash, exit, gets, ◌>>=◌, ◌>>◌}
use semestre.Posix.Kernel.{Got, got, failed}
use semestre.Posix.Calls.{recv, recv_int, send, close, nonzero, positive, over, fill, c_str}
use semestre.Protocol.{
  slave_finished, client_crashed, client_crashed_during_transfert, default, ok_code, short_timeout,
  max_line, inet_addrstrlen, envoi_info, attente_reponse,
}
use semestre.StockIp.{add, remove_by_ip, file_name, bytes, contain}
use semestre.Master.{Master, assign, on_nodes, tube_out, tube_in, slave_not_busy}

-- `buffer[nb_char+1] = '\0'` on an array of `size` bytes that held `old`.
unfoldable pub ended_past : ℕ → Bytes → Got → Master Bytes
ended_past size old failed = pure (0 ∷ drop 1 old)
ended_past size old (got bs) =
    if ltb (length bs + 1) size then pure (set (over old (got bs)) (length bs + 1) 0) else crash

-- `info = OK; write(fd_slave[i], &info, sizeof(int))`
unfoldable pub acknowledge : ℕ → Master (Unit {0})
acknowledge fd = do assign λ v. record v { info = ok_code }; envoi_info fd ok_code

-- `add(&unfinished_transfert, …)`
unfoldable pub add_crash : Bytes → ℤ → Bytes → Master (Unit {0})
add_crash ip nb file = do
  fresh ← gets (λ p. p.vars.next_node)
  head ← gets (λ p. p.vars.head)
  head' ← on_nodes (add fresh head ip nb file)
  assign λ v. record v { head = head'; next_node = v.next_node + 1 }

-- `ip_junk`, `nb_junk` and `name_junk` are what the local arrays and the local number hold at first.
unfoldable pub register_crash_transfert : Bytes → ℤ → Bytes → ℕ → Master (Unit {0})
register_crash_transfert ip_junk nb_junk name_junk fd = do
  w ← attente_reponse fd short_timeout
  if positive w
      then (do
        g ← recv fd inet_addrstrlen
        ip ← ended_past inet_addrstrlen ip_junk g
        acknowledge fd
        w' ← attente_reponse fd short_timeout
        if positive w'
            then (do
              nb ← recv_int fd nb_junk
              acknowledge fd
              w'' ← attente_reponse fd short_timeout
              if positive w''
                  then (do
                    g' ← recv fd max_line
                    name ← ended_past max_line name_junk g'
                    add_crash (c_str ip) nb (c_str name))
                  else pure tt)
            else pure tt)
      else pure tt

unfoldable pub set_busy : ℕ → Bool → Master (Unit {0})
set_busy i b = assign λ v. record v { busy = set v.busy i b }

-- The codes of a slave, in the order of the tests.
unfoldable pub on_code : Bytes → ℤ → Bytes → ℕ → ℕ → ℤ → Master (Unit {0})
on_code ip_junk nb_junk name_junk i fd info =
    if eq_ℤ info slave_finished
    then set_busy i false
    else if eq_ℤ info client_crashed
    then set_busy i false
    else if eq_ℤ info client_crashed_during_transfert
    then (do
      set_busy i false
      acknowledge fd
      register_crash_transfert ip_junk nb_junk name_junk fd)
    else pure tt

-- Slave `i` has something to say.
unfoldable pub on_slave : Bytes → ℤ → Bytes → ℕ → ℕ → Master (Unit {0})
on_slave ip_junk nb_junk name_junk i fd = do
  old ← gets (λ p. p.vars.info)
  info ← recv_int fd old
  assign λ v. record v { info = info }
  on_code ip_junk nb_junk name_junk i fd info

-- `for (i…) if (FD_ISSET(fd_slave[i], &readfd)) …`: `readfd` is what `select` has left in the set.
unfoldable pub on_slaves : (ℕ → Bool) → Bytes → ℤ → Bytes → ℕ → List ℕ → Master (Unit {0})
on_slaves readfd ip_junk nb_junk name_junk i [] = pure tt
on_slaves readfd ip_junk nb_junk name_junk i (fd ∷ fds) =
    (if readfd fd then on_slave ip_junk nb_junk name_junk i fd else pure tt)
    >> on_slaves readfd ip_junk nb_junk name_junk (i + 1) fds

unfoldable pub send_name : ℕ → Option Bytes → Master (Unit {0})
send_name fd none = crash
send_name fd (some name) = send fd name

-- `strlen(NULL)` is a fault.
unfoldable pub envoi_info_crash : ℕ → ℕ → Bytes → Master (Unit {0})
envoi_info_crash fuel fd ip = do
  head ← gets (λ p. p.vars.head)
  filename ← on_nodes (file_name fuel head ip)
  nb_bytes ← on_nodes (bytes fuel head ip)
  send_name fd filename
  w ← attente_reponse fd short_timeout
  if nonzero w
      then (do
        info ← recv_int fd (pos 0)
        if eq_ℤ info ok_code then send fd (encode_int nb_bytes) else pure tt)
      else pure tt

-- `remove_by_ip(&unfinished_transfert, …)`
unfoldable pub drop_crash : ℕ → Bytes → Master (Unit {0})
drop_crash fuel ip = do
  head ← gets (λ p. p.vars.head)
  head' ← on_nodes (remove_by_ip fuel head ip)
  assign λ v. record v { head = head' }

-- The client is in the list: its slave is told of the cut, and the entry goes.
unfoldable pub hand_crash : ℕ → ℕ → Bytes → Master (Unit {0})
hand_crash fuel fd ip = do
  envoi_info fd client_crashed
  w ← attente_reponse fd short_timeout
  if nonzero w
      then (do
        old ← gets (λ p. p.vars.info)
        info ← recv_int fd old
        assign λ v. record v { info = info }
        if eq_ℤ info ok_code then (do envoi_info_crash fuel fd ip; drop_crash fuel ip) else pure tt)
      else pure tt

-- The slave's answer, and what it is told of the client.
unfoldable pub present_client : ℕ → ℕ → Bytes → Master (Unit {0})
present_client fuel fd ip = do
  w ← attente_reponse fd short_timeout
  if nonzero w
      then (do
        old ← gets (λ p. p.vars.info)
        info ← recv_int fd old
        assign λ v. record v { info = info }
        if eq_ℤ info ok_code
            then (do
              head ← gets (λ p. p.vars.head)
              known ← on_nodes (contain fuel head (c_str ip))
              if eq_ℤ known (pos 0) then envoi_info fd default else hand_crash fuel fd (c_str ip))
            else pure tt)
      else pure tt

-- Slave `id` on descriptor `fd` gets the client.
unfoldable pub give_client : ℕ → ℕ → ℕ → Bytes → Master (Unit {0})
give_client fuel id fd ip = do
  send fd (fill inet_addrstrlen ip)
  set_busy id true
  present_client fuel fd ip

unfoldable pub give_to : ℕ → ℕ → Option ℕ → Bytes → Master (Unit {0})
give_to fuel id none ip = crash
give_to fuel id (some fd) ip = give_client fuel id fd ip

-- The slave that `slave_not_busy` names, if any.
unfoldable pub give_free : ℕ → ℤ → Master (Unit {0})
give_free fuel (negsuc n) = pure tt
give_free fuel (pos id) = do
  fds ← gets (λ p. p.vars.fd_slave)
  ip ← gets (λ p. p.vars.client_ip_string)
  give_to fuel id (get_elem? fds id) ip

-- A client has come: its address is in the pipe.
unfoldable pub on_client : ℕ → Master (Unit {0})
on_client fuel = do
  g ← recv tube_out inet_addrstrlen
  assign λ v. record v { client_ip_string = over v.client_ip_string g }
  busy ← gets (λ p. p.vars.busy)
  give_free fuel (slave_not_busy busy)

-- One round, for a `select` that has found something.
unfoldable pub master_round : ℕ → (ℕ → Bool) → Bytes → ℤ → Bytes → Master (Unit {0})
master_round fuel readfd ip_junk nb_junk name_junk = do
  fds ← gets (λ p. p.vars.fd_slave)
  on_slaves readfd ip_junk nb_junk name_junk 0 fds
  if readfd tube_out then on_client fuel else pure tt

-- The father: the address of the accepted client goes into the pipe.
unfoldable pub accept_client : Bytes → Master (Unit {0})
accept_client ip = send tube_in (fill inet_addrstrlen ip)

-- The handler of SIGINT: the socket that listens and those of the slaves are closed.
unfoldable close_slaves : List ℕ → Master (Unit {0})
close_slaves [] = pure tt
close_slaves (fd ∷ fds) = do close fd; close_slaves fds

unfoldable handler_kill : ℕ → Master (Unit {0})
handler_kill listenfd = do close listenfd; fds ← gets (λ p. p.vars.fd_slave); close_slaves fds; exit
