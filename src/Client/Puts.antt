-- ===== src/Client/Puts.antt =====
-- `put` of client.c with a slave that takes the file.
use semestre.Base.{
  ℕ, suc, ◌<◌, ◌≤◌, ◌≡◌, refl, ◌∙◌, true, some, List, ◌∷◌, ◌++◌, arith, Bytes, length, append_assoc,
  same_bytes_refl, ◌-◌,
}
use semestre.Posix.Int.{pos, encode_int, int_max}
use semestre.Posix.Run.{ok}
use semestre.Posix.Kernel.{Arrival, queue, wrote, update_self}
use semestre.Posix.Calls.{send}
use semestre.Posix.Files.{full, read_only, opened}
use semestre.Posix.Log.{messages}
use semestre.Posix.Script.{
  left, logged, with_open, select-chunk, recv_int-encode, open_file-opened, file_size-at,
}
use semestre.Parse.{put}
use semestre.Protocol.{ok_code, attente_reponse}
use semestre.Protocol.Blocks.{blocks, oks, rounds, all_from}
use semestre.Client.{ClientState, slave}
use semestre.Client.Transfer.{answered}
use semestre.Client.Transfer.Sends.{envoi_fichier_a_esclave-runs}
use semestre.Client.Commands.{
  receive_info, execute, do_named, with_name, put_file, put_from, put_sized,
}

-- A file of the client's that can be read, and its contents.
pub record Offered (name c : Bytes) (s : ClientState) : Type 0 where
  pub holds : s.os.disk (full s.os name) ≡ some c
  pub readable : s.os.system.may_read (full s.os name) ≡ true
  pub sized : s.os.system.stat_works (full s.os name) ≡ true

-- What the client writes, and what it reads meanwhile.
abbrev pub put_requests : Bytes → Bytes → List Bytes
put_requests name c = encode_int put ∷ name ∷ encode_int (pos (length c)) ∷ all_from 0 c

abbrev pub put_answers : Bytes → List Bytes
put_answers c = oks (suc (suc (suc (rounds (length c - 0)))))

module _ (fuel : ℕ) (name c : Bytes) (args : List Bytes) (q : List Arrival) (s : ClientState)
    (offered : Offered name c s) (come : s.os.sockets slave ≡ queue (blocks (put_answers c) q))
    (small : length c ≤ int_max) (enough : rounds (length c - 0) < fuel) where
  abbrev owed : ℕ
  owed = rounds (length c - 0)

  commanded : ClientState
  commanded = logged (wrote slave (encode_int put)) s

  named : ClientState
  unfolding commanded
  named =
      let s' = left slave (blocks (oks (suc (suc owed))) q) commanded in
      logged (wrote slave name) (record s' { vars = record s.vars { info = ok_code } })

  accepted : ClientState
  unfolding named
  accepted =
      let s' = left slave (blocks (oks (suc owed)) q) named in
      record s' { vars = record s'.vars { info = ok_code } }

  sized : ClientState
  unfolding accepted
  sized =
      let s' = with_open (full s.os name) c accepted in
      logged (wrote slave (encode_int (pos (length c))))
        (record s' { vars = record s'.vars { nb_octets = pos (length c) } })

  ready_for : ClientState
  unfolding sized
  ready_for =
      let s' = left slave (blocks (oks owed) q) sized in
      record s' { vars = record s'.vars { info = ok_code } }

  pub execute-puts :
      (t : ClientState) × (execute fuel put (name ∷ args) s ≡ ok tt t)
      × (messages slave t.os.log ≡ messages slave s.os.log ++ put_requests name c)
      × (t.os.sockets slave ≡ queue q)
  unfolding execute do_named with_name put_file put_from put_sized answered receive_info
      attente_reponse send ready_for messages
  execute-puts =
      let path = full s.os name in
      let opened_at =
        update_self s.os.handles s.os.next_handle (some (record { file = path; offset = 0 })) in
      let (t, run, rest, each) =
        envoi_fichier_a_esclave-runs fuel s.os.next_handle 0 (record { file = path; offset = 0 }) c
          q ready_for opened_at (rw (same_bytes_refl path) refl) refl small (omega arith) enough in
      (
        t,
        rw
            (
              select-chunk slave _ commanded (encode_int ok_code) come,
              recv_int-encode slave _ commanded s.vars.info ok_code come (omega arith),
              select-chunk slave _ named (encode_int ok_code) refl,
              recv_int-encode slave _ named ok_code ok_code refl (omega arith),
              open_file-opened read_only name c accepted
                  (rw (offered.holds, offered.readable) (unfold opened in refl)),
              file_size-at s.os.next_handle (record { file = path; offset = 0 }) c
                  (with_open path c accepted) opened_at (rw (same_bytes_refl path) refl)
                  offered.sized small,
              select-chunk slave _ sized (encode_int ok_code) refl,
              recv_int-encode slave _ sized ok_code ok_code refl (omega arith),
            )
            run,
        each ∙ simp append_assoc,
        rest,
      )
