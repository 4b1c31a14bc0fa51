-- ===== src/Client/Gets.antt =====
-- `get` of client.c with a slave that sends the file.
use semestre.Base.{
  ℕ, suc, ◌<◌, ◌≤◌, ◌≡◌, refl, ◌∙◌, true, some, List, ◌∷◌, ◌++◌, arith, Bytes, length, lt→ltb,
  append_assoc, same_bytes_refl, [],
}
use semestre.Posix.Int.{pos, encode_int, int_max}
use semestre.Posix.Run.{ok}
use semestre.Posix.Kernel.{Arrival, queue, wrote, update_self}
use semestre.Posix.Calls.{send}
use semestre.Posix.Files.{full, write_create, write_at, contents}
use semestre.Posix.Log.{messages}
use semestre.Posix.Script.{
  left, logged, with_open, select-chunk, recv_int-encode, open_file-opened, opened-create,
}
use semestre.Parse.{get}
use semestre.Protocol.{ok_code, attente_reponse}
use semestre.Protocol.Blocks.{blocks, joined, oks}
use semestre.Client.{ClientState, slave}
use semestre.Client.Transfer.Receives.{reception_fichier-runs, Fills}
use semestre.Client.Commands.{receive_info, execute, do_named, with_name, get_file, get_into}

module _ (fuel e n : ℕ) (name : Bytes) (args bs : List Bytes) (q : List Arrival) (s : ClientState)
    (writable : s.os.system.may_write (full s.os name) ≡ true)
    (come : s.os.sockets slave ≡ queue (blocks (encode_int ok_code ∷ encode_int (pos n) ∷ bs) q))
    (fills : Fills 0 n bs) (end : length (joined bs) ≡ e) (most : e ≤ int_max) (some_bytes : 0 < n)
    (small : n ≤ int_max) (enough : length bs < fuel) where
  named : ClientState
  named =
      let s' =
        left slave (blocks (encode_int (pos n) ∷ bs) q) (logged (wrote slave (encode_int get)) s) in
      logged (wrote slave name) (record s' { vars = record s.vars { info = ok_code } })

  sized : ClientState
  unfolding named
  sized =
      let s' = left slave (blocks bs q) named in
      record s' { vars = record s'.vars { nb_octets = pos n } }

  pub execute-gets :
      (t : ClientState) × (execute fuel get (name ∷ args) s ≡ ok tt t)
      × (t.os.disk (full s.os name)
          ≡ some (write_at (contents (s.os.disk (full s.os name))) 0 (joined bs)))
      × (messages slave t.os.log
          ≡ messages slave s.os.log ++ (encode_int get ∷ name ∷ oks (suc (length bs))))
      × (t.os.sockets slave ≡ queue q)
  unfolding execute do_named with_name get_file get_into receive_info attente_reponse send sized
      messages
  execute-gets =
      let path = full s.os name in
      let old = contents (s.os.disk path) in
      let (t, run, stored, still, each) =
        reception_fichier-runs fuel s.os.next_handle 0 e n (record { file = path; offset = 0 }) old
          bs q (with_open path old sized)
          (update_self s.os.handles s.os.next_handle (some (record { file = path; offset = 0 })))
          (rw (same_bytes_refl path) refl) refl fills (omega arith) most (omega arith) enough in
      (
        t,
        rw
            (
              select-chunk slave _ (logged (wrote slave (encode_int get)) s) (encode_int ok_code)
                  come,
              recv_int-encode slave _ (logged (wrote slave (encode_int get)) s) s.vars.info ok_code
                  come (omega arith),
              select-chunk slave _ named (encode_int (pos n)) refl,
              recv_int-encode slave _ named s.vars.nb_octets (pos n) refl small,
              lt→ltb 0 n some_bytes,
              open_file-opened write_create name old sized
                  (rw writable (opened-create (s.os.disk path) (s.os.system.may_read path))),
            )
            run,
        stored,
        each ∙ simp append_assoc,
        still,
      )

-- The slave answers with the size 0: no file is opened, and nothing more is written.
module _ (fuel : ℕ) (name : Bytes) (args : List Bytes) (q : List Arrival) (s : ClientState)
    (come : s.os.sockets slave
      ≡ queue (blocks (encode_int ok_code ∷ encode_int (pos 0) ∷ []) q)) where
  asked_nothing : ClientState
  asked_nothing =
      let s' =
        left slave (blocks (encode_int (pos 0) ∷ []) q) (logged (wrote slave (encode_int get)) s) in
      logged (wrote slave name) (record s' { vars = record s.vars { info = ok_code } })

  pub execute-gets_nothing :
      (t : ClientState) × (execute fuel get (name ∷ args) s ≡ ok tt t)
      × (t.os.disk ≡ s.os.disk)
      × (messages slave t.os.log ≡ messages slave s.os.log ++ (encode_int get ∷ name ∷ []))
      × (t.os.sockets slave ≡ queue q)
  unfolding execute do_named with_name get_file receive_info attente_reponse send asked_nothing
      messages
  execute-gets_nothing =
      let s' = left slave q asked_nothing in
      (
        record s' { vars = record s'.vars { nb_octets = pos 0 } },
        rw
            (
              select-chunk slave _ (logged (wrote slave (encode_int get)) s) (encode_int ok_code)
                  come,
              recv_int-encode slave _ (logged (wrote slave (encode_int get)) s) s.vars.info ok_code
                  come (omega arith),
              select-chunk slave _ asked_nothing (encode_int (pos 0)) refl,
              recv_int-encode slave _ asked_nothing s.vars.nb_octets (pos 0) refl (omega arith),
            )
            refl,
        refl,
        simp append_assoc,
        refl,
      )
