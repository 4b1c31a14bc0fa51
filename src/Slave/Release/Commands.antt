-- ===== src/Slave/Release/Commands.antt =====
-- The commands of slave.c and the code that frees the slave at the master.
use semestre.Base.{ℕ, ◌≡◌, refl, true, false, Option, none, some, arith, Bytes, inl, inr, ◌<◌, List}
use semestre.Posix.Int.{ℤ, encode_int, eq_ℤ}
use semestre.Posix.Run.{ok, ◌>>=◌}
use semestre.Posix.Calls.{close}
use semestre.Posix.Keeps.{Keeps, Keeps-if, Keeps-pure, Returns-ok, keeps_rules}
use semestre.Parse.{get}
use semestre.Posix.Files.{chdir}
use semestre.Protocol.{slave_finished, client_crashed}
use semestre.Slave.{clientfd, SlaveState}
use semestre.Slave.Commands.{
  home_path, do_exit, do_ls, do_pwd, read_path, read_filename, lose_client, close_then_tell,
  do_mkdir, remove_path, do_rm, do_cd, put_bytes, put_into, do_put, send_names,
}
use semestre.Slave.Session.{execute}
use semestre.Slave.Release.{
  IsLive, releases, call_rules, Keeps-assign, Keeps-disconnect_tell, Keeps-tell_disconnect,
  Keeps-close_tell,
}
use semestre.Slave.Release.Handlers.{Keeps-ended, Keeps-reception_fichier}

module _ {n : ℕ} where
  Keeps-do_exit : Keeps (IsLive n) do_exit
  unfolding do_exit encode_int
  Keeps-do_exit =
      Keeps-tell_disconnect slave_finished (chdir home_path >>= λ _. close clientfd) refl
        (search call_rules)

  pub Keeps-lose_client : Keeps (IsLive n) lose_client
  unfolding lose_client encode_int
  Keeps-lose_client = Keeps-disconnect_tell client_crashed _ refl (search call_rules)

  Keeps-close_then_tell : Keeps (IsLive n) close_then_tell
  unfolding close_then_tell encode_int
  Keeps-close_then_tell = Keeps-close_tell client_crashed refl

  Keeps-send_names : (names : Option (List Bytes)) → Keeps (IsLive n) (send_names names)
  unfolding send_names
  Keeps-send_names none = search keeps_rules
  Keeps-send_names (some names) = search call_rules

  Keeps-do_ls : Keeps (IsLive n) do_ls
  unfolding do_ls
  Keeps-do_ls = search (call_rules, Keeps-send_names)

  Keeps-do_pwd : Keeps (IsLive n) do_pwd
  unfolding do_pwd
  Keeps-do_pwd = search call_rules

  pub Keeps-read_path : Keeps (IsLive n) read_path
  unfolding read_path
  Keeps-read_path = search (call_rules, Keeps-ended, Keeps-assign) depth 8

  pub Keeps-read_filename : Keeps (IsLive n) read_filename
  unfolding read_filename
  Keeps-read_filename = search (call_rules, Keeps-ended, Keeps-assign) depth 8

  Keeps-do_mkdir : Keeps (IsLive n) do_mkdir
  unfolding do_mkdir
  Keeps-do_mkdir = search (call_rules, Keeps-read_path, Keeps-close_then_tell)

  Keeps-remove_path : (c : ℤ) (path : Bytes) → Keeps (IsLive n) (remove_path c path)
  unfolding remove_path encode_int
  Keeps-remove_path c path = search (call_rules, Keeps-close_tell slave_finished refl)

  Keeps-do_rm : (c : ℤ) → Keeps (IsLive n) (do_rm c)
  unfolding do_rm
  Keeps-do_rm c = search (call_rules, Keeps-read_path, Keeps-remove_path, Keeps-close_then_tell)

  Keeps-do_cd : Keeps (IsLive n) do_cd
  unfolding do_cd
  Keeps-do_cd = search (call_rules, Keeps-read_path, Keeps-close_then_tell) depth 8

  Keeps-put_bytes : (fuel file : ℕ) → Keeps (IsLive n) (put_bytes fuel file)
  unfolding put_bytes encode_int
  Keeps-put_bytes fuel file =
      search
        (
          call_rules,
          Keeps-assign,
          Keeps-reception_fichier,
          Keeps-tell_disconnect client_crashed _ refl,
        )
        depth 10

  Keeps-put_into : (fuel : ℕ) (o : Option ℕ) → Keeps (IsLive n) (put_into fuel o)
  unfolding put_into
  Keeps-put_into fuel none = search call_rules
  Keeps-put_into fuel (some file) = Keeps-put_bytes fuel file

  Keeps-do_put : (fuel : ℕ) → Keeps (IsLive n) (do_put fuel)
  unfolding do_put
  Keeps-do_put fuel =
      search (call_rules, Keeps-read_filename, Keeps-put_into, Keeps-lose_client) depth 8

  ruleset command_rules = (
    Keeps-pure, Keeps-if, Keeps-do_exit, Keeps-do_ls, Keeps-do_pwd, Keeps-do_mkdir, Keeps-do_rm,
    Keeps-do_put, Keeps-do_cd,
  )

  Keeps-execute : (fuel : ℕ) (c : ℤ) → eq_ℤ c get ≡ false → Keeps (IsLive n) (execute fuel c)
  unfolding execute
  Keeps-execute fuel c other = rw other (search command_rules depth 10)

-- Whatever the client and the file system do, a command other than `GET` that returns and has ended
-- the session has sent the master a code that frees this slave since the command began.
pub execute-releases :
    (fuel : ℕ) (c : ℤ) (s t : SlaveState)
    → eq_ℤ c get ≡ false
    → s.vars.connected ≡ true
    → execute fuel c s ≡ ok tt t
    → t.vars.connected ≡ false
    → releases s.os.log < releases t.os.log
execute-releases fuel c s t other on e off =
    let h =
      Returns-ok (execute fuel c s)
        ((Keeps-execute {n = releases s.os.log} fuel c other).at s
          (record { grows = omega arith; told = inl on }))
        e in
    elim h.told [ inl still ↦ cc | inr told ↦ told ]
