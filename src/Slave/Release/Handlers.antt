-- ===== src/Slave/Release/Handlers.antt =====
-- The functions of slave.c keep `IsLive`: no way through them ends a session and leaves the master
-- without a word, but for the one in `case GET`.
use semestre.Base.{ℕ, zero, suc, refl, Bytes}
use semestre.Posix.Int.{ℤ, encode_int}
use semestre.Posix.Kernel.{Got, got, failed}
use semestre.Posix.Calls.{ended, add_int, sub_int}
use semestre.Posix.Keeps.{Keeps, keeps_rules, Keeps-bind, Keeps-if, Keeps-pure}
use semestre.Protocol.{client_crashed, client_crashed_during_transfert}
use semestre.Slave.{Slave}
use semestre.Slave.Transfer.{
  await_ok_then, sent_crash_to_master, write_block, give_up, send_round, send_loop,
  envoi_fichier_au_client, store_block, receive_round, receive_loop, reception_fichier,
}
use semestre.Slave.Release.{IsLive, call_rules, Keeps-disconnect_tell}

module _ {n : ℕ} where
  pub Keeps-ended : (size : ℕ) (old : Bytes) (g : Got) → Keeps (IsLive n) (ended size old g)
  unfolding ended
  Keeps-ended size old (got bs) = search keeps_rules
  Keeps-ended size old failed = search keeps_rules

  Keeps-add_int : (z : ℤ) (m : ℕ) → Keeps (IsLive n) (add_int z m)
  unfolding add_int
  Keeps-add_int z m = search keeps_rules

  Keeps-sub_int : (z : ℤ) (m : ℕ) → Keeps (IsLive n) (sub_int z m)
  unfolding sub_int
  Keeps-sub_int z m = search keeps_rules

  Keeps-await_ok_then :
      (info : ℤ) (m : ℤ → Slave (Unit {0}))
      → ((z : ℤ) → Keeps (IsLive n) (m z))
      → Keeps (IsLive n) (await_ok_then info m)
  unfolding await_ok_then
  Keeps-await_ok_then info m k = search call_rules depth 8

  Keeps-sent_crash_to_master :
      (ip : Bytes) (z : ℤ) (name : Bytes) → Keeps (IsLive n) (sent_crash_to_master ip z name)
  unfolding sent_crash_to_master
  Keeps-sent_crash_to_master ip z name = search (call_rules, Keeps-await_ok_then) depth 8

  Keeps-write_block : (nb : ℤ) (g : Got) → Keeps (IsLive n) (write_block nb g)
  unfolding write_block
  Keeps-write_block nb (got bs) = search (call_rules, Keeps-add_int)
  Keeps-write_block nb failed = Keeps-sub_int nb 1

  Keeps-store_block : (file : ℕ) (nb : ℤ) (g : Got) → Keeps (IsLive n) (store_block file nb g)
  unfolding store_block
  Keeps-store_block file nb (got bs) = search (call_rules, Keeps-add_int)
  Keeps-store_block file nb failed = Keeps-sub_int nb 1

  Keeps-give_up : (crashed nb : ℤ) → Keeps (IsLive n) (give_up crashed nb)
  unfolding give_up encode_int
  Keeps-give_up crashed nb =
      Keeps-if _ _ _
        (Keeps-disconnect_tell client_crashed _ refl (search (call_rules, Keeps-add_int)))
        (Keeps-disconnect_tell client_crashed_during_transfert _ refl
          (search (call_rules, Keeps-sent_crash_to_master, Keeps-add_int)))

  Keeps-send_round : (file : ℕ) (nb m : ℤ) → Keeps (IsLive n) (send_round file nb m)
  unfolding send_round
  Keeps-send_round file nb m =
      search (call_rules, Keeps-write_block, Keeps-sub_int, Keeps-give_up) depth 10

  Keeps-send_loop : (fuel file : ℕ) (nb m : ℤ) → Keeps (IsLive n) (send_loop fuel file nb m)
  unfolding send_loop
  Keeps-send_loop zero file nb m = search keeps_rules
  Keeps-send_loop (suc fuel) file nb m =
      Keeps-if _ _ _
        (Keeps-bind _ _ (Keeps-send_round file nb m) (λ nb'. Keeps-send_loop fuel file nb' m))
        (Keeps-pure nb)

  pub Keeps-envoi_fichier_au_client :
      (fuel file : ℕ) (nb m : ℤ) → Keeps (IsLive n) (envoi_fichier_au_client fuel file nb m)
  unfolding envoi_fichier_au_client
  Keeps-envoi_fichier_au_client fuel file nb m = search (call_rules, Keeps-send_loop)

  Keeps-receive_round : (file : ℕ) (nb : ℤ) → Keeps (IsLive n) (receive_round file nb)
  unfolding receive_round
  Keeps-receive_round file nb = search (call_rules, Keeps-store_block) depth 8

  Keeps-receive_loop : (fuel file : ℕ) (nb m : ℤ) → Keeps (IsLive n) (receive_loop fuel file nb m)
  unfolding receive_loop
  Keeps-receive_loop zero file nb m = search keeps_rules
  Keeps-receive_loop (suc fuel) file nb m =
      Keeps-if _ _ _
        (Keeps-bind _ _ (Keeps-receive_round file nb) (λ nb'. Keeps-receive_loop fuel file nb' m))
        (Keeps-pure nb)

  pub Keeps-reception_fichier :
      (fuel file : ℕ) (nb m : ℤ) → Keeps (IsLive n) (reception_fichier fuel file nb m)
  unfolding reception_fichier
  Keeps-reception_fichier fuel file nb m = search (call_rules, Keeps-receive_loop) depth 8
