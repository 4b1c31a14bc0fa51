-- ===== src/Slave/Commands.antt =====
-- The cases of `switch (int_cmd)` in the main of slave.c.
use semestre.Base.{
  ℕ, ◌||◌, Option, none, some, List, [], ◌∷◌, ◌++◌, leb, if◌then◌else◌, Bytes, codes, length,
  same_bytes,
}
use semestre.Posix.Int.{ℤ, pos, negsuc, eq_ℤ, ltb_ℤ, encode_int}
use semestre.Posix.Run.{pure, crash, gets, ◌>>=◌, ◌>>◌}
use semestre.Posix.Calls.{recv, recv_int, send, close, nonzero, c_str, ended}
use semestre.Posix.Files.{
  read_only, write_create, open_file, file_size, chdir, run_and_wait, list_directory,
}
use semestre.Parse.{rm, rmr}
use semestre.Protocol.{
  slave_finished, client_crashed, ok_code, error_open, short_timeout, max_line, envoi_info,
  attente_reponse,
}
use semestre.Slave.{master, clientfd, Slave, assign, disconnect}
use semestre.Slave.Transfer.{envoi_fichier_au_client, reception_fichier}

-- `PATH`, the directory that the slave goes back to.
abbrev pub home_path : Bytes
home_path = codes "/home/thespygeek/Semestre6/SR/projet_ftp"

-- case EXIT
unfoldable pub do_exit : Slave (Unit {0})
do_exit = do envoi_info master slave_finished; disconnect; _ ← chdir home_path; close clientfd

-- The loop over `readdir`: the names but `.` and `..`, each with an end of line.
unfoldable pub listing : List Bytes → Bytes
listing [] = []
listing (name ∷ names) =
    if same_bytes name (codes ".") || same_bytes name (codes "..")
    then listing names
    else name ++ (b'\n' ∷ listing names)

-- `strcat` into an array of MAXLINE bytes; a directory that cannot be opened is read all the same.
unfoldable pub send_names : Option (List Bytes) → Slave (Unit {0})
send_names none = crash
send_names (some names) =
    if leb max_line (length (listing names)) then crash else send clientfd (listing names)

-- case LS
unfoldable pub do_ls : Slave (Unit {0})
do_ls = do names ← list_directory; send_names names

-- case PWD: a directory that does not fit the array leaves it unset.
unfoldable pub do_pwd : Slave (Unit {0})
do_pwd = do
  cwd ← gets (λ p. p.os.cwd)
  if leb max_line (length cwd) then crash else send clientfd cwd

-- `n = read(clientfd, path, MAXLINE); path[n] = '\0'`
unfoldable pub read_path : Slave Bytes
read_path = do
  g ← recv clientfd max_line
  old ← gets (λ p. p.vars.path)
  b ← ended max_line old g
  assign λ v. record v { path = b }
  pure (c_str b)

-- The same with `filename`.
unfoldable pub read_filename : Slave Bytes
read_filename = do
  g ← recv clientfd max_line
  old ← gets (λ p. p.vars.filename)
  b ← ended max_line old g
  assign λ v. record v { filename = b }
  pure (c_str b)

-- A client that does not answer: in most cases the master is told before `close`, in MKDIR, RM and
-- CD behind it.
unfoldable pub lose_client : Slave (Unit {0})
lose_client = do disconnect; envoi_info master client_crashed; close clientfd

unfoldable pub close_then_tell : Slave (Unit {0})
close_then_tell = do disconnect; close clientfd; envoi_info master client_crashed

-- case MKDIR
unfoldable pub do_mkdir : Slave (Unit {0})
do_mkdir = do
  envoi_info clientfd ok_code
  w ← attente_reponse clientfd short_timeout
  if nonzero w
      then (do path ← read_path; run_and_wait (codes "mkdir" ∷ path ∷ []))
      else close_then_tell

-- The test of `int_cmd` behind the name.
unfoldable pub remove_path : ℤ → Bytes → Slave (Unit {0})
remove_path int_cmd path =
    if eq_ℤ int_cmd rm
    then run_and_wait (codes "rm" ∷ path ∷ [])
    else if eq_ℤ int_cmd rmr
    then run_and_wait (codes "rm" ∷ codes "-r" ∷ path ∷ [])
    else (do disconnect; close clientfd; envoi_info master slave_finished)

-- case RMR and case RM
unfoldable pub do_rm : ℤ → Slave (Unit {0})
do_rm int_cmd = do
  envoi_info clientfd ok_code
  w ← attente_reponse clientfd short_timeout
  if nonzero w then (do path ← read_path; remove_path int_cmd path) else close_then_tell

-- case CD: that `chdir` fails is only printed.
unfoldable pub do_cd : Slave (Unit {0})
do_cd = do
  envoi_info clientfd ok_code
  w ← attente_reponse clientfd short_timeout
  if nonzero w then (do path ← read_path; _ ← chdir path; pure tt) else close_then_tell

-- PUT, the file open: its size, then its bytes.
unfoldable pub put_bytes : ℕ → ℕ → Slave (Unit {0})
put_bytes fuel file = do
  envoi_info clientfd ok_code
  w ← attente_reponse clientfd short_timeout
  if nonzero w
      then (do
        old ← gets (λ p. p.vars.nb_octets)
        n ← recv_int clientfd old
        assign λ v. record v { nb_octets = n }
        if ltb_ℤ (pos 0) n
            then (do envoi_info clientfd ok_code; reception_fichier fuel file (pos 0) n)
            else pure tt)
      else (do envoi_info master client_crashed; disconnect; close clientfd)

unfoldable pub put_into : ℕ → Option ℕ → Slave (Unit {0})
put_into fuel none = envoi_info clientfd error_open
put_into fuel (some file) = put_bytes fuel file

-- case PUT
unfoldable pub do_put : ℕ → Slave (Unit {0})
do_put fuel = do
  envoi_info clientfd ok_code
  w ← attente_reponse clientfd short_timeout
  if nonzero w
      then (do name ← read_filename; file ← open_file write_create name; put_into fuel file)
      else lose_client

-- GET, the size known: the client's answer decides.
unfoldable pub get_bytes : ℕ → ℕ → ℤ → Slave (Unit {0})
get_bytes fuel file n = do
  assign λ v. record v { nb_octets = n }
  send clientfd (encode_int n)
  w ← attente_reponse clientfd short_timeout
  if nonzero w
      then (do
        old ← gets (λ p. p.vars.info)
        info ← recv_int clientfd old
        assign λ v. record v { info = info }
        if eq_ℤ info ok_code
            then envoi_fichier_au_client fuel file (pos 0) n
            else (do close clientfd; disconnect))
      else lose_client

unfoldable pub get_sized : ℕ → ℕ → Option ℤ → Slave (Unit {0})
get_sized fuel file none = pure tt
get_sized fuel file (some n) = get_bytes fuel file n

unfoldable pub get_from : ℕ → Option ℕ → Slave (Unit {0})
get_from fuel none = do
  assign λ v. record v { nb_octets = negsuc 0 }
  send clientfd (encode_int (negsuc 0))
get_from fuel (some file) = do size ← file_size file; get_sized fuel file size

-- case GET
unfoldable pub do_get : ℕ → Slave (Unit {0})
do_get fuel = do
  envoi_info clientfd ok_code
  w ← attente_reponse clientfd short_timeout
  if nonzero w
      then (do name ← read_filename; file ← open_file read_only name; get_from fuel file)
      else lose_client
