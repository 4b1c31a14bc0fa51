-- ===== src/Exchange/Stale.antt =====
-- `get` behind a `put`, whose last OK the client has not read.
use semestre.Base.{
  ℕ, suc, ◌-◌, ◌<◌, ◌≤◌, ◌≡◌, refl, sym, ap, ◌∙◌, true, some, List, [], ◌∷◌, ◌++◌, arith, Bytes,
  length, drop, append-nil,
}
use semestre.Posix.Int.{pos, encode_int}
use semestre.Posix.Run.{ok}
use semestre.Posix.Kernel.{Arrival, queue}
use semestre.Posix.Files.{full, contents}
use semestre.Posix.Log.{messages}
use semestre.Posix.Strings.{NoNul}
use semestre.Posix.WriteAt.{write_at-start}
use semestre.Parse.{get}
use semestre.Protocol.{max_line, ok_code}
use semestre.Protocol.Blocks.{blocks, rounds, all_from, oks}
use semestre.Slave.{SlaveState, clientfd}
use semestre.Slave.Session.{session_round}
use semestre.Slave.Session.Get.{Served, get_requests, get_replies, session_round-gets}
use semestre.Client.{ClientState, slave}
use semestre.Client.Commands.{execute}
use semestre.Client.Gets.{execute-gets}

module _ (fuel : ℕ) (name c : Bytes) (args : List Bytes) (q q' : List Arrival) (s : SlaveState)
    (s' : ClientState) (served : Served name c s)
    (writable : s'.os.system.may_write (full s'.os name) ≡ true) (some_bytes : 0 < length c)
    (one_block : length c ≤ max_line) (c_string : NoNul name) (short : length name < max_line)
    (enough : 1 < fuel)
    (slave_reads : s.os.sockets clientfd ≡ queue (blocks (get_requests name c) q))
    (client_reads : s'.os.sockets slave
      ≡ queue (blocks (encode_int ok_code ∷ get_replies c) q')) where
  -- A client that has an OK of its last command unread asks for a file `c` of one block at most,
  -- which the slave can read, and each of the two programs reads what the other one writes. Both
  -- calls return and the messages are these indeed, but the client has stored the four bytes of the
  -- size instead of the file, and the block of the file is still unread.
  pub get-stale :
      (t : SlaveState) × (t' : ClientState) × (session_round fuel s ≡ ok tt t)
      × (execute fuel get (name ∷ args) s' ≡ ok tt t')
      × (messages clientfd t.os.log ≡ messages clientfd s.os.log ++ get_replies c)
      × (messages slave t'.os.log ≡ messages slave s'.os.log ++ get_requests name c)
      × (t'.os.disk (full s'.os name)
          ≡ some (encode_int (pos (length c)) ++ drop 4 (contents (s'.os.disk (full s'.os name)))))
      × (t'.os.sockets slave ≡ queue (blocks (all_from 0 c) q'))
  get-stale =
      let one : rounds (length c - 0) ≡ 1 = omega arith in
      let size = encode_int (pos (length c)) in
      let four : length size ≡ 4 = unfold encode_int in refl in
      let (t, run, said, on, left) =
        session_round-gets fuel name c q s served c_string short (omega arith) (omega arith)
          slave_reads in
      let (t', run', stored, said', rest) =
        execute-gets fuel 4 1 name args (size ∷ []) (blocks (all_from 0 c) q') s' writable
          client_reads (omega arith, omega (arith, four), omega (arith, four))
          (omega (arith, four, ap length (append-nil size))) (omega arith) (omega arith)
          (omega arith) (omega arith) in
      let old = contents (s'.os.disk (full s'.os name)) in
      (
        t,
        t',
        run,
        run',
        said,
        said'
            ∙ ap (λ m. messages slave s'.os.log ++ (encode_int get ∷ name ∷ oks (suc m))) (sym one),
        stored ∙ ap some (rw (append-nil size, write_at-start old size, four) refl),
        rest,
      )
