-- ===== src/Slave/Session/Get.antt =====
-- One round of a session with a client that asks for a file and takes it.
use semestre.Base.{
  ℕ, suc, ◌-◌, ◌<◌, ◌≤◌, ◌≡◌, refl, ap, ◌∙◌, true, some, List, [], ◌∷◌, ◌++◌, arith, Bytes, length,
  drop, lt→ltb, append_assoc, same_bytes_refl, ◌+◌,
}
use semestre.Posix.Int.{ℤ, pos, encode_int, int_max, Fits, store-encode}
use semestre.Posix.Run.{ok}
use semestre.Posix.Kernel.{Arrival, queue, wrote, update_self, got}
use semestre.Posix.Calls.{send, ended}
use semestre.Posix.Files.{full, read_only, opened}
use semestre.Posix.Log.{messages}
use semestre.Posix.Script.{
  left, logged, with_open, select-chunk, recv-chunk, recv_int-encode, open_file-opened,
  file_size-at,
}
use semestre.Posix.Strings.{NoNul, c_str-append_nul}
use semestre.Parse.{get}
use semestre.Protocol.{ok_code, max_line, envoi_info, attente_reponse}
use semestre.Protocol.Blocks.{blocks, rounds, all_from, oks}
use semestre.Slave.{SlaveState, clientfd}
use semestre.Slave.Transfer.Sends.{acks, envoi_fichier_au_client-runs}
use semestre.Slave.Commands.{do_get, get_from, get_sized, get_bytes, read_filename}
use semestre.Slave.Session.{execute, on_command, session_round}

-- A file that can be read, and its contents.
pub record Served (name c : Bytes) (s : SlaveState) : Type 0 where
  pub holds : s.os.disk (full s.os name) ≡ some c
  pub readable : s.os.system.may_read (full s.os name) ≡ true
  pub sized : s.os.system.stat_works (full s.os name) ≡ true

-- What the client writes: the command, the name, and the answers to the size and to the blocks.
abbrev pub get_requests : Bytes → Bytes → List Bytes
get_requests name c = encode_int get ∷ name ∷ oks (suc (rounds (length c - 0)))

-- What it is sent.
abbrev pub get_replies : Bytes → List Bytes
get_replies c = encode_int ok_code ∷ encode_int (pos (length c)) ∷ all_from 0 c

-- A whole `int` has come: it is the command.
pub on_command-int :
    (fuel : ℕ) (z : ℤ) (s : SlaveState)
    → Fits z
    → on_command fuel (got (encode_int z)) s
      ≡ execute fuel z (record s { vars = record s.vars { int_cmd = z } })
unfolding on_command encode_int
on_command-int fuel z s h =
    ap (λ c. execute fuel c (record s { vars = record s.vars { int_cmd = c } }))
      (unfold encode_int in store-encode s.vars.int_cmd z h)

-- Up to the answer to the size, whatever it will be.
module _ (fuel : ℕ) (name c : Bytes) (q : List Arrival) (s : SlaveState) (served : Served name c s)
    (c_string : NoNul name) (short : length name < max_line) (small : length c ≤ int_max)
    (come : s.os.sockets clientfd ≡ queue (blocks (encode_int get ∷ name ∷ []) q)) where
  taken_up : SlaveState
  taken_up =
      let s' = left clientfd (blocks (name ∷ []) q) s in
      logged (wrote clientfd (encode_int ok_code))
        (record s' { vars = record s.vars { int_cmd = get } })

  path_known : SlaveState
  unfolding taken_up
  path_known =
      let s' = left clientfd q taken_up in
      record s' {
        vars = record s'.vars { filename = name ++ (0 ∷ drop (length name + 1) s.vars.filename) };
      }

  pub asked_for : SlaveState
  unfolding path_known
  asked_for = with_open (full s.os name) c path_known

  pub session_round-asked :
      session_round fuel s ≡ get_bytes fuel s.os.next_handle (pos (length c)) asked_for
  unfolding session_round execute do_get read_filename ended get_from get_sized attente_reponse
      envoi_info send asked_for
  session_round-asked =
      let path = full s.os name in
      rw
        (
          select-chunk clientfd _ s (encode_int get) come,
          recv-chunk clientfd _ s 4 (encode_int get) come (unfold encode_int in omega arith),
          on_command-int fuel get (left clientfd _ s) (omega arith),
          select-chunk clientfd _ taken_up name refl,
          recv-chunk clientfd _ taken_up max_line name refl (omega arith),
          lt→ltb (length name) max_line short,
          c_str-append_nul name _ c_string,
          open_file-opened read_only name c path_known
              (rw (served.holds, served.readable) (unfold opened in refl)),
          file_size-at s.os.next_handle (record { file = path; offset = 0 }) c asked_for
              (update_self s.os.handles s.os.next_handle
                (some (record { file = path; offset = 0 })))
              (rw (same_bytes_refl path) refl) served.sized small,
        )
        refl

  pub asked_for-os :
      (asked_for.os.sockets clientfd ≡ queue q)
      × (asked_for.os.log ≡ wrote clientfd (encode_int ok_code) ∷ s.os.log)
  unfolding asked_for
  asked_for-os = (refl, refl)

module _ (fuel : ℕ) (name c : Bytes) (q : List Arrival) (s : SlaveState) (served : Served name c s)
    (c_string : NoNul name) (short : length name < max_line) (small : length c ≤ int_max)
    (enough : rounds (length c - 0) < fuel)
    (come : s.os.sockets clientfd ≡ queue (blocks (get_requests name c) q)) where
  abbrev owed : ℕ
  owed = rounds (length c - 0)

  named : SlaveState
  unfolding asked_for
  named = asked_for fuel name c (acks (suc owed) q) s served c_string short small come

  sized : SlaveState
  unfolding named
  sized =
      logged (wrote clientfd (encode_int (pos (length c))))
        (record named { vars = record named.vars { nb_octets = pos (length c) } })

  accepted : SlaveState
  unfolding sized
  accepted =
      let s' = left clientfd (acks owed q) sized in
      record s' { vars = record s'.vars { info = ok_code } }

  pub session_round-gets :
      (t : SlaveState) × (session_round fuel s ≡ ok tt t)
      × (messages clientfd t.os.log ≡ messages clientfd s.os.log ++ get_replies c)
      × (t.vars.connected ≡ s.vars.connected)
      × (t.os.sockets clientfd ≡ queue q)
  unfolding get_bytes attente_reponse send accepted messages
  session_round-gets =
      let path = full s.os name in
      let (t, run, w, each) =
        envoi_fichier_au_client-runs fuel s.os.next_handle 0 (record { file = path; offset = 0 }) c
          q accepted
          (update_self s.os.handles s.os.next_handle (some (record { file = path; offset = 0 })))
          (rw (same_bytes_refl path) refl) refl small (omega arith) enough in
      (
        t,
        rw
            (
              session_round-asked fuel name c (acks (suc owed) q) s served c_string short small
                  come,
              select-chunk clientfd _ sized (encode_int ok_code) refl,
              recv_int-encode clientfd _ sized s.vars.info ok_code refl (omega arith),
            )
            run,
        each ∙ simp append_assoc,
        ap (λ v. v.connected) w.same_vars,
        w.still,
      )
