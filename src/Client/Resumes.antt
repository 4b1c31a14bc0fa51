-- ===== src/Client/Resumes.antt =====
-- `greeted` and `reception_donnees_crash` of client.c with a slave that resumes a transfer.
use semestre.Posix.Strings.{NoNul, c_str-set_behind}
use semestre.Base.{
  ℕ, suc, ◌+◌, ◌≤◌, ◌<◌, ◌≡◌, refl, ◌∙◌, true, some, List, [], ◌∷◌, ◌++◌, arith, Bytes, length,
  drop, set, lt→ltb, append_assoc, same_bytes_refl,
}
use semestre.Posix.Int.{ℤ, pos, encode_int, int_max}
use semestre.Posix.Run.{ok}
use semestre.Posix.Kernel.{Arrival, queue, got, wrote, update_self}
use semestre.Posix.Calls.{send}
use semestre.Posix.Files.{full, write_only, opened, write_at}
use semestre.Posix.Log.{messages}
use semestre.Posix.Script.{
  left, logged, with_open, select-chunk, recv-chunk, recv_int-encode, open_file-opened,
}
use semestre.Protocol.{
  ok_code, client_crashed_during_transfert, max_line, envoi_info, attente_reponse,
}
use semestre.Protocol.Blocks.{blocks, joined, AllFit, oks}
use semestre.Client.{Client, ClientState, slave}
use semestre.Client.Transfer.{answered, ended_past, take_up, reception_donnees_crash}
use semestre.Client.Transfer.Receives.{reception_fichier-runs, AllFit-Fills}
use semestre.Client.Commands.{receive_info, greeted}

answered-chunk :
    {A : Type 0} (step : Client A) (b : Bytes) (q : List Arrival) (s : ClientState)
    → s.os.sockets slave ≡ queue (blocks (b ∷ []) q)
    → answered step s ≡ step s
unfolding answered attente_reponse
answered-chunk step b q s e = rw (select-chunk slave q s b e) refl

ended_past-ends :
    (name junk rest : Bytes) (s : ClientState)
    → NoNul name
    → length name + 1 < max_line
    → drop (length name) junk ≡ 0 ∷ rest
    → ended_past junk (got name) s ≡ ok (set (name ++ (0 ∷ rest)) (length name + 1) 0) s
unfolding ended_past
ended_past-ends name junk rest s h fits e = rw (lt→ltb (length name + 1) max_line fits, e) refl

-- The file here can be written and holds `p`.
pub record HasPart (name p : Bytes) (s : ClientState) : Type 0 where
  pub holds : s.os.disk (full s.os name) ≡ some p
  pub writable : s.os.system.may_write (full s.os name) ≡ true

module _ (fuel r n : ℕ) (name junk rest p : Bytes) (nb0 n0 : ℤ) (bs : List Bytes) (q : List Arrival)
    (s : ClientState) (ours : HasPart name p s) (c_string : NoNul name)
    (short : length name + 1 < max_line) (ended : drop (length name) junk ≡ 0 ∷ rest)
    (come : s.os.sockets slave
      ≡ queue (
          blocks
            (encode_int client_crashed_during_transfert
              ∷ name
              ∷ encode_int (pos r)
              ∷ encode_int (pos n)
              ∷ bs)
            q))
    (fit : AllFit bs) (end : r + length (joined bs) ≡ n) (small : n ≤ int_max)
    (within : r ≤ length p) (enough : length bs < fuel) where
  greeted_at : ClientState
  greeted_at =
      let s' = left slave (blocks (name ∷ encode_int (pos r) ∷ encode_int (pos n) ∷ bs) q) s in
      logged (wrote slave (encode_int ok_code))
        (record s' { vars = record s.vars { info = client_crashed_during_transfert } })

  named_at : ClientState
  unfolding greeted_at
  named_at =
      logged (wrote slave (encode_int ok_code))
        (left slave (blocks (encode_int (pos r) ∷ encode_int (pos n) ∷ bs) q) greeted_at)

  byte_at : ClientState
  unfolding named_at
  byte_at =
      logged (wrote slave (encode_int ok_code))
        (left slave (blocks (encode_int (pos n) ∷ bs) q) named_at)

  sized_at : ClientState
  unfolding byte_at
  sized_at = left slave (blocks bs q) byte_at

  pub greeted-resumes :
      (t : ClientState) × (greeted fuel junk nb0 n0 s ≡ ok tt t)
      × (t.os.disk (full s.os name) ≡ some (write_at p r (joined bs)))
      × (messages slave t.os.log
          ≡ messages slave s.os.log ++ oks (suc (suc (suc (suc (length bs))))))
  unfolding greeted receive_info reception_donnees_crash take_up envoi_info send sized_at messages
  greeted-resumes =
      let path = full s.os name in
      let (t, run, stored, still, each) =
        reception_fichier-runs fuel s.os.next_handle r n n (record { file = path; offset = 0 }) p bs
          q (with_open path p sized_at)
          (update_self s.os.handles s.os.next_handle (some (record { file = path; offset = 0 })))
          (rw (same_bytes_refl path) refl) refl (AllFit-Fills r n bs fit end) end small within
          enough in
      (
        t,
        rw
            (
              answered-chunk _ _ _ s come,
              recv_int-encode slave _ s s.vars.info client_crashed_during_transfert come
                  (omega arith),
              answered-chunk _ _ _ greeted_at refl,
              recv-chunk slave _ greeted_at max_line name refl (omega arith),
              ended_past-ends name junk rest (left slave _ greeted_at) c_string short ended,
              answered-chunk _ _ _ named_at refl,
              recv_int-encode slave _ named_at nb0 (pos r) refl (omega arith),
              answered-chunk _ _ _ byte_at refl,
              recv_int-encode slave _ byte_at n0 (pos n) refl small,
              c_str-set_behind name rest (length name + 1) c_string (omega arith),
              open_file-opened write_only name p sized_at
                  (rw (ours.holds, ours.writable) (unfold opened in refl)),
            )
            run,
        stored,
        each ∙ simp append_assoc,
      )
