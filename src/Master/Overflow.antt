-- ===== src/Master/Overflow.antt =====
-- What slave.c sends of a crash, read by `register_crash_transfert`.
use semestre.Base.{ℕ, zero, suc, ◌≡◌, refl, ap, List, [], ◌∷◌, arith, Bytes, length}
use semestre.Posix.Int.{ℤ}
use semestre.Posix.Run.{fault}
use semestre.Posix.Kernel.{Arrival, chunk, queue}
use semestre.Posix.Calls.{fill}
use semestre.Posix.Script.{select-chunk, recv-chunk}
use semestre.Protocol.{inet_addrstrlen, attente_reponse}
use semestre.Master.{MasterState}
use semestre.Master.Events.{ended_past, register_crash_transfert}

length-fill : (n : ℕ) (bs : Bytes) → length (fill n bs) ≡ n
unfolding fill
length-fill zero bs = refl
length-fill (suc n) [] = ap suc (length-fill n [])
length-fill (suc n) (b ∷ bs) = ap suc (length-fill n bs)

-- The address of a cut client comes as slave.c writes it, as an array of INET_ADDRSTRLEN bytes: the
-- master then writes a byte outside its own array, whatever the address is.
pub register_crash_transfert-fault :
    (junk : Bytes) (nb : ℤ) (name : Bytes) (fd : ℕ) (ip : Bytes) (q : List Arrival)
    (s : MasterState)
    → s.os.sockets fd ≡ queue (chunk (fill inet_addrstrlen ip) ∷ q)
    → register_crash_transfert junk nb name fd s ≡ fault
unfolding register_crash_transfert attente_reponse ended_past
register_crash_transfert-fault junk nb name fd ip q s e =
    let size = length-fill inet_addrstrlen ip in
    rw
      (
        select-chunk fd q s (fill inet_addrstrlen ip) e,
        recv-chunk fd q s inet_addrstrlen (fill inet_addrstrlen ip) e (omega (arith, size)),
        size,
      )
      refl
