-- ===== src/Slave/Crash/Resumes.antt =====
-- `envoi_info_crash_to_client` with a client that goes through the whole dialogue.
use semestre.Base.{
  ℕ, suc, ◌-◌, ◌≤◌, ◌<◌, ◌≡◌, refl, ◌∙◌, true, some, List, ◌∷◌, ◌++◌, Bytes, length, append_assoc,
  arith, same_bytes_refl, ap,
}
use semestre.Posix.Int.{pos, encode_int, int_max, ℤ}
use semestre.Posix.Run.{ok}
use semestre.Posix.Kernel.{Arrival, queue, wrote, update_self}
use semestre.Posix.Calls.{send, c_str}
use semestre.Posix.Files.{full, read_only, opened}
use semestre.Posix.Log.{messages}
use semestre.Posix.Script.{
  left, logged, with_open, select-chunk, recv_int-encode, open_file-opened, file_size-at,
}
use semestre.Protocol.{ok_code, attente_reponse}
use semestre.Protocol.Blocks.{rounds, all_from}
use semestre.Slave.{Slave, SlaveState, clientfd}
use semestre.Slave.Transfer.Sends.{acks, envoi_fichier_au_client-runs}
use semestre.Slave.Crash.{
  client_ok_then, resume, reopen, envoi_info_crash_to_client, envoi_fichier_au_client,
}

-- What the master has handed over: the name of a file, which can be read and holds `c`, and the byte
-- to start from.
pub record Interrupted (name c : Bytes) (r : ℕ) (s : SlaveState) : Type 0 where
  pub named : c_str s.vars.filename ≡ name
  pub from_byte : s.vars.nb_crash ≡ pos r
  pub holds : s.os.disk (full s.os name) ≡ some c
  pub readable : s.os.system.may_read (full s.os name) ≡ true
  pub sized : s.os.system.stat_works (full s.os name) ≡ true

client_ok_then-ok :
    (info : ℤ) (m : ℤ → Slave (Unit {0})) (q : List Arrival) (s : SlaveState)
    → s.os.sockets clientfd ≡ queue (acks 1 q)
    → client_ok_then info m s ≡ m ok_code (left clientfd q s)
unfolding client_ok_then attente_reponse
client_ok_then-ok info m q s e = rw (
  select-chunk clientfd q s (encode_int ok_code) e,
  recv_int-encode clientfd q s info ok_code e (omega arith),
)

-- What the client is sent: the name, the byte, the size, and the bytes from there on.
abbrev pub resumed : Bytes → Bytes → ℕ → List Bytes
resumed name c r = name ∷ encode_int (pos r) ∷ encode_int (pos (length c)) ∷ all_from r c

module _ (fuel : ℕ) (name c : Bytes) (r : ℕ) (q : List Arrival) (s : SlaveState)
    (cut : Interrupted name c r s)
    (come : s.os.sockets clientfd ≡ queue (acks (suc (suc (suc (suc (rounds (length c - r)))))) q))
    (small : length c ≤ int_max) (within : r ≤ length c)
    (enough : rounds (length c - r) < fuel) where
  abbrev owed : ℕ
  owed = rounds (length c - r)

  named_to : SlaveState
  named_to = logged (wrote clientfd name) (left clientfd (acks (suc (suc (suc owed))) q) s)

  byte_to : SlaveState
  unfolding named_to
  byte_to =
      logged (wrote clientfd (encode_int (pos r)))
        (left clientfd (acks (suc (suc owed)) q) named_to)

  size_to : SlaveState
  unfolding byte_to
  size_to =
      logged (wrote clientfd (encode_int (pos (length c))))
        (with_open (full s.os name) c (left clientfd (acks (suc owed) q) byte_to))

  pub envoi_info_crash_to_client-resumes :
      (t : SlaveState) × (envoi_info_crash_to_client fuel s ≡ ok tt t)
      × (messages clientfd t.os.log ≡ messages clientfd s.os.log ++ resumed name c r)
  unfolding envoi_info_crash_to_client reopen resume send size_to messages
  envoi_info_crash_to_client-resumes =
      let path = full s.os name in
      let asked = left clientfd (acks (suc owed) q) byte_to in
      let (t, run, w, each) =
        envoi_fichier_au_client-runs fuel s.os.next_handle r (record { file = path; offset = 0 }) c
          q (left clientfd (acks owed q) size_to)
          (update_self s.os.handles s.os.next_handle (some (record { file = path; offset = 0 })))
          (rw (same_bytes_refl path) refl) refl small within enough in
      (
        t,
        rw
            (
              client_ok_then-ok _ _ (acks (suc (suc (suc owed))) q) s come,
              cut.named,
              client_ok_then-ok _ _ (acks (suc (suc owed)) q) named_to refl,
            )
            (simp cut.from_byte (
              rw
                (
                  client_ok_then-ok _ _ (acks (suc owed) q) byte_to refl,
                  cut.named,
                  open_file-opened read_only name c asked
                      (rw (cut.holds, cut.readable) (unfold opened in refl)),
                  file_size-at s.os.next_handle (record { file = path; offset = 0 }) c
                      (with_open path c asked)
                      (update_self s.os.handles s.os.next_handle
                        (some (record { file = path; offset = 0 })))
                      (rw (same_bytes_refl path) refl) cut.sized small,
                  client_ok_then-ok _ _ (acks owed q) size_to refl,
                )
                (ap
                    (λ z.
                      envoi_fichier_au_client fuel s.os.next_handle z (pos (length c))
                        (left clientfd (acks owed q) size_to))
                    cut.from_byte
                  ∙ run))),
        each ∙ simp append_assoc,
      )
