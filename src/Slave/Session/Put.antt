-- ===== src/Slave/Session/Put.antt =====
-- One round of a session with a client that sends a file.
use semestre.Base.{
  ℕ, suc, ◌<◌, ◌≤◌, ◌≡◌, refl, ap, ◌∙◌, true, some, List, ◌∷◌, ◌++◌, arith, Bytes, length, drop,
  lt→ltb, append_assoc, same_bytes_refl, ◌+◌,
}
use semestre.Posix.Int.{pos, encode_int, int_max}
use semestre.Posix.Run.{ok}
use semestre.Posix.Kernel.{Arrival, queue, wrote, update_self}
use semestre.Posix.Calls.{send, ended}
use semestre.Posix.Files.{full, write_create, write_at, contents}
use semestre.Posix.Log.{messages}
use semestre.Posix.Script.{
  left, logged, with_open, select-chunk, recv-chunk, recv_int-encode, open_file-opened,
  opened-create,
}
use semestre.Posix.Strings.{NoNul, c_str-append_nul}
use semestre.Parse.{put}
use semestre.Protocol.{ok_code, max_line, envoi_info, attente_reponse}
use semestre.Protocol.Blocks.{blocks, joined, AllFit, oks}
use semestre.Slave.{SlaveState, clientfd}
use semestre.Slave.Transfer.Receives.{reception_fichier-runs}
use semestre.Slave.Commands.{do_put, put_into, put_bytes, read_filename}
use semestre.Slave.Session.{execute, session_round}
use semestre.Slave.Session.Get.{on_command-int}

module _ (fuel n : ℕ) (name : Bytes) (bs : List Bytes) (q : List Arrival) (s : SlaveState)
    (writable : s.os.system.may_write (full s.os name) ≡ true) (c_string : NoNul name)
    (short : length name < max_line)
    (come : s.os.sockets clientfd
      ≡ queue (blocks (encode_int put ∷ name ∷ encode_int (pos n) ∷ bs) q))
    (fit : AllFit bs) (end : length (joined bs) ≡ n) (some_bytes : 0 < n) (small : n ≤ int_max)
    (enough : length bs < fuel) where
  commanded : SlaveState
  commanded =
      let s' = left clientfd (blocks (name ∷ encode_int (pos n) ∷ bs) q) s in
      logged (wrote clientfd (encode_int ok_code))
        (record s' { vars = record s.vars { int_cmd = put } })

  named : SlaveState
  unfolding commanded
  named =
      let s' = left clientfd (blocks (encode_int (pos n) ∷ bs) q) commanded in
      record s' {
        vars = record s'.vars { filename = name ++ (0 ∷ drop (length name + 1) s.vars.filename) };
      }

  opened_for : SlaveState
  unfolding named
  opened_for =
      logged (wrote clientfd (encode_int ok_code))
        (with_open (full s.os name) (contents (s.os.disk (full s.os name))) named)

  sized : SlaveState
  unfolding opened_for
  sized =
      let s' = left clientfd (blocks bs q) opened_for in
      logged (wrote clientfd (encode_int ok_code))
        (record s' { vars = record s'.vars { nb_octets = pos n } })

  pub session_round-puts :
      (t : SlaveState) × (session_round fuel s ≡ ok tt t)
      × (t.os.disk (full s.os name)
          ≡ some (write_at (contents (s.os.disk (full s.os name))) 0 (joined bs)))
      × (messages clientfd t.os.log
          ≡ messages clientfd s.os.log ++ oks (suc (suc (suc (suc (length bs))))))
      × (t.vars.connected ≡ s.vars.connected)
      × (t.os.sockets clientfd ≡ queue q)
  unfolding session_round execute do_put read_filename ended put_into put_bytes attente_reponse
      envoi_info send sized messages
  session_round-puts =
      let path = full s.os name in
      let old = contents (s.os.disk path) in
      let (t, run, stored, still, each, same) =
        reception_fichier-runs fuel s.os.next_handle 0 n (record { file = path; offset = 0 }) old bs
          q sized
          (update_self s.os.handles s.os.next_handle (some (record { file = path; offset = 0 })))
          (rw (same_bytes_refl path) refl) refl fit (omega arith) small (omega arith) enough in
      (
        t,
        rw
            (
              select-chunk clientfd _ s (encode_int put) come,
              recv-chunk clientfd _ s 4 (encode_int put) come (unfold encode_int in omega arith),
              on_command-int fuel put (left clientfd _ s) (omega arith),
              select-chunk clientfd _ commanded name refl,
              recv-chunk clientfd _ commanded max_line name refl (omega arith),
              lt→ltb (length name) max_line short,
              c_str-append_nul name _ c_string,
              open_file-opened write_create name old named
                  (rw writable (opened-create (s.os.disk path) (s.os.system.may_read path))),
              select-chunk clientfd _ opened_for (encode_int (pos n)) refl,
              recv_int-encode clientfd _ opened_for s.vars.nb_octets (pos n) refl small,
              lt→ltb 0 n some_bytes,
            )
            run,
        stored,
        each ∙ simp append_assoc,
        ap (λ v. v.connected) same,
        still,
      )
