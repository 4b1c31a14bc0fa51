-- ===== src/Exchange/Put.antt =====
-- `put` between a client and a slave.
use semestre.Base.{
  ℕ, zero, suc, ◌-◌, ◌<◌, ◌≤◌, ◌≡◌, ap, ◌∙◌, true, some, List, ◌∷◌, ◌++◌, arith, Bytes, length,
  drop, length-drop, refl,
}
use semestre.Posix.Int.{int_max, encode_int}
use semestre.Posix.Run.{ok}
use semestre.Posix.Kernel.{Arrival, chunk, queue}
use semestre.Posix.Files.{full, contents}
use semestre.Posix.Log.{messages}
use semestre.Posix.Strings.{NoNul}
use semestre.Posix.WriteAt.{write_at-start}
use semestre.Parse.{put}
use semestre.Protocol.{max_line, ok_code}
use semestre.Protocol.Blocks.{
  blocks, rounds, all_from, oks, length-all_from, joined-all_from, all_from-AllFit, joined,
}
use semestre.Slave.{SlaveState, clientfd}
use semestre.Slave.Session.{session_round}
use semestre.Slave.Session.Put.{session_round-puts}
use semestre.Client.{ClientState, slave}
use semestre.Client.Commands.{execute}
use semestre.Client.Puts.{Offered, put_requests, execute-puts}

-- What the slave writes: OK to the command, the name and the size, then OK once more, and one for
-- each block.
abbrev pub put_replies : Bytes → List Bytes
put_replies c = oks (suc (suc (suc (suc (rounds (length c - 0))))))

last_ok :
    (m : ℕ) (q : List Arrival)
    → blocks (oks (suc m)) q ≡ blocks (oks m) (chunk (encode_int ok_code) ∷ q)
last_ok zero q = refl
last_ok (suc m) q = ap (◌∷◌ (chunk (encode_int ok_code))) (last_ok m q)

module _ (fuel : ℕ) (name c : Bytes) (args : List Bytes) (q q' : List Arrival) (s : SlaveState)
    (s' : ClientState) (offered : Offered name c s')
    (writable : s.os.system.may_write (full s.os name) ≡ true) (some_bytes : 0 < length c)
    (small : length c ≤ int_max) (c_string : NoNul name) (short : length name < max_line)
    (enough : rounds (length c - 0) < fuel)
    (slave_reads : s.os.sockets clientfd ≡ queue (blocks (put_requests name c) q))
    (client_reads : s'.os.sockets slave ≡ queue (blocks (put_replies c) q')) where
  -- A client that can read a file `c`, which is not empty, puts it on the slave. Each of the two
  -- programs reads what the other one writes. The slave's round and the client's command return,
  -- the messages are these indeed, the session goes on, and the slave's file is `c`, followed by
  -- what its old file of that name held from there on. The last OK is still unread at the client.
  pub put-copies :
      (t : SlaveState) × (t' : ClientState) × (session_round fuel s ≡ ok tt t)
      × (execute fuel put (name ∷ args) s' ≡ ok tt t')
      × (messages clientfd t.os.log ≡ messages clientfd s.os.log ++ put_replies c)
      × (messages slave t'.os.log ≡ messages slave s'.os.log ++ put_requests name c)
      × (t.vars.connected ≡ s.vars.connected)
      × (t.os.disk (full s.os name)
          ≡ some (c ++ drop (length c) (contents (s.os.disk (full s.os name)))))
      × (t'.os.sockets slave ≡ queue (chunk (encode_int ok_code) ∷ q'))
  put-copies =
      let count = length-all_from 0 c in
      let (t, run, stored, said, on, left) =
        session_round-puts fuel (length c) name (all_from 0 c) q s writable c_string short
          slave_reads (all_from-AllFit 0 c)
          (omega (arith, ap length (joined-all_from 0 c), length-drop 0 c)) some_bytes small
          (omega (arith, count)) in
      let (t', run', said', rest) =
        execute-puts fuel name c args (chunk (encode_int ok_code) ∷ q') s' offered
          (client_reads ∙ ap queue (last_ok (suc (suc (suc (rounds (length c - 0))))) q')) small
          enough in
      let whole : joined (all_from 0 c) ≡ c = joined-all_from 0 c ∙ (unfold drop in refl) in
      (
        t,
        t',
        run,
        run',
        said ∙ ap (λ m. messages clientfd s.os.log ++ oks (suc (suc (suc (suc m))))) count,
        said',
        on,
        stored ∙ ap some (rw whole (write_at-start (contents (s.os.disk (full s.os name))) c)),
        rest,
      )
