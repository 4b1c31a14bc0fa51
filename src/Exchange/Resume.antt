-- ===== src/Exchange/Resume.antt =====
-- A transfer that was cut goes on where it was, and the file arrives whole.
use semestre.Base.{
  ℕ, suc, ◌+◌, ◌-◌, ◌≤◌, ◌<◌, ◌≡◌, some, List, ◌∷◌, ◌++◌, arith, Bytes, length, take, drop,
  append_assoc, length-take, length-drop, ap, ◌∙◌,
}
use semestre.Posix.Int.{ℤ, int_max}
use semestre.Posix.Run.{ok}
use semestre.Posix.Kernel.{Arrival, queue, wrote}
use semestre.Posix.Calls.{send}
use semestre.Posix.Files.{full}
use semestre.Posix.Log.{messages}
use semestre.Posix.Script.{logged}
use semestre.Posix.WriteAt.{write_at-completes}
use semestre.Protocol.{max_line, envoi_info}
use semestre.Protocol.Blocks.{
  blocks, rounds, all_from, length-all_from, joined-all_from, all_from-AllFit, oks,
}
use semestre.Slave.{SlaveState, clientfd}
use semestre.Slave.Crash.Resumes.{Interrupted, envoi_info_crash_to_client-resumes}
use semestre.Client.{ClientState, slave}
use semestre.Client.Commands.{greeted}
use semestre.Client.Resumes.{HasPart, greeted-resumes}
use semestre.Posix.Strings.{NoNul}
use semestre.Exchange.{slave_resumes, to_client, to_slave}

module _ (fuel e r : ℕ) (name c junk rest : Bytes) (nb0 n0 : ℤ) (q q' : List Arrival)
    (s : SlaveState) (s' : ClientState) (cut : Interrupted name c r s)
    (ours : HasPart name (take e c) s') (reach : r ≤ e) (within : e ≤ length c)
    (small : length c ≤ int_max) (c_string : NoNul name) (short : length name + 1 < max_line)
    (ended : drop (length name) junk ≡ 0 ∷ rest) (enough : rounds (length c - r) < fuel)
    (slave_reads : s.os.sockets clientfd ≡ queue (blocks (to_slave c r) q))
    (client_reads : s'.os.sockets slave ≡ queue (blocks (to_client name c r) q')) where
  -- The client has the first `e` bytes of a file `c`, and the master has told the slave to go on at
  -- a byte `r` that is not beyond them. Each of the two programs reads what the other one writes.
  -- Where the client's array for the name has a NUL behind the name, both calls return, the
  -- messages are these indeed, and the client's file is then exactly `c`.
  pub resume-completes :
      (t : SlaveState) × (t' : ClientState) × (slave_resumes fuel s ≡ ok tt t)
      × (greeted fuel junk nb0 n0 s' ≡ ok tt t')
      × (messages clientfd t.os.log ≡ messages clientfd s.os.log ++ to_client name c r)
      × (messages slave t'.os.log ≡ messages slave s'.os.log ++ to_slave c r)
      × (t'.os.disk (full s'.os name) ≡ some c)
  unfolding slave_resumes envoi_info send messages
  resume-completes =
      let count = length-all_from r c in
      let (t, run, said) =
        envoi_info_crash_to_client-resumes fuel name c r q (logged (wrote clientfd _) s)
          (record {
            named = cut.named;
            from_byte = cut.from_byte;
            holds = cut.holds;
            readable = cut.readable;
            sized = cut.sized;
          })
          slave_reads small (omega arith) enough in
      let (t', run', stored, said') =
        greeted-resumes fuel r (length c) name junk rest (take e c) nb0 n0 (all_from r c) q' s' ours
          c_string short ended client_reads (all_from-AllFit r c)
          (omega (arith, ap length (joined-all_from r c), length-drop r c)) small
          (omega (arith, length-take e c)) (omega (arith, count)) in
      (
        t,
        t',
        run,
        run',
        said ∙ append_assoc (messages clientfd s.os.log) _ _,
        said' ∙ ap (λ m. messages slave s'.os.log ++ oks (suc (suc (suc (suc m))))) count,
        stored ∙ ap some (rw (joined-all_from r c) (write_at-completes c r e reach within)),
      )
