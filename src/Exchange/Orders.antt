-- ===== src/Exchange/Orders.antt =====
-- `mkdir`, `rm`, `rm -r` and `cd`, from the typed line to the slave's disk.
use semestre.Base.{ℕ, ◌<◌, ◌≡◌, List, [], ◌∷◌, ◌++◌, Bytes, length}
use semestre.Posix.Run.{ok}
use semestre.Posix.Kernel.{Arrival, queue}
use semestre.Posix.Log.{messages}
use semestre.Posix.Strings.{NoNul}
use semestre.Parse.Shape.{IsWord}
use semestre.Parse.RoundTrip.{unwords}
use semestre.Protocol.{max_line}
use semestre.Protocol.Blocks.{blocks, oks}
use semestre.Protocol.Orders.{Order, path_of, typed, order_requests, disk_after, cwd_after}
use semestre.Slave.{SlaveState, clientfd}
use semestre.Slave.Session.{session_round}
use semestre.Slave.Session.Orders.{session_round-obeys}
use semestre.Client.{ClientState, slave}
use semestre.Client.Commands.{client_round}
use semestre.Client.Orders.{client_round-orders}

module _ (fuel : ℕ) (o : Order) (lines : List Bytes) (q q' : List Arrival) (s : SlaveState)
    (s' : ClientState) (word : IsWord (path_of o)) (c_string : NoNul (path_of o))
    (short : length (path_of o) < max_line)
    (line : s'.vars.stdin ≡ (unwords (typed o) ++ b'\n' ∷ []) ∷ lines)
    (slave_reads : s.os.sockets clientfd ≡ queue (blocks (order_requests o) q))
    (client_reads : s'.os.sockets slave ≡ queue (blocks (oks 1) q')) where
  -- The user of the client types `mkdir`, `rm`, `rm -r` or `cd` with a path that is one word, has no
  -- NUL and is shorter than MAXLINE. Each of the two programs reads what the other one writes. Both
  -- rounds return, and the messages are these indeed. On the slave exactly that command has run
  -- with exactly that path in its directory, or its directory is the one that `chdir` enters, if
  -- it does; the session goes on. The client's own disk is as it was, and the line is used up.
  pub order-obeyed :
      (t : SlaveState) × (t' : ClientState) × (session_round fuel s ≡ ok tt t)
      × (client_round fuel s' ≡ ok tt t')
      × (messages clientfd t.os.log ≡ messages clientfd s.os.log ++ oks 1)
      × (messages slave t'.os.log ≡ messages slave s'.os.log ++ order_requests o)
      × (t.os.disk ≡ disk_after o s.os.system s.os.cwd s.os.disk)
      × (t.os.cwd ≡ cwd_after o s.os.system s.os.cwd)
      × (t.vars.connected ≡ s.vars.connected)
      × (t'.os.disk ≡ s'.os.disk)
      × (t'.vars.stdin ≡ lines)
  order-obeyed =
      let (t, run, disk, cwd, said, on, rest) =
        session_round-obeys fuel o q s c_string short slave_reads in
      let (t', run', said', disk', typed', rest') =
        client_round-orders fuel o lines q' s' word line client_reads in
      (t, t', run, run', said, said', disk, cwd, on, disk', typed')
