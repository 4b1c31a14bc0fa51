-- ===== src/Client/Orders.antt =====
-- A typed line of client.c that gives an order about a path.
use semestre.Base.{ℕ, ◌≡◌, refl, some, List, [], ◌∷◌, ◌++◌, arith, Bytes, append_assoc}
use semestre.Posix.Int.{encode_int}
use semestre.Posix.Run.{ok}
use semestre.Posix.Kernel.{Arrival, queue, wrote}
use semestre.Posix.Calls.{send}
use semestre.Posix.Log.{messages}
use semestre.Posix.Script.{left, logged, select-chunk, recv_int-encode}
use semestre.Parse.{cmd_to_int, no_endofline}
use semestre.Parse.Shape.{IsWord, AllWords}
use semestre.Parse.RoundTrip.{unwords, split_in_words-unwords}
use semestre.Protocol.{ok_code, attente_reponse}
use semestre.Protocol.Blocks.{blocks, oks}
use semestre.Protocol.Orders.{
  Order, makes, removes, removes_all, enters, path_of, typed, code_of, order_requests,
}
use semestre.Client.{ClientState, slave}
use semestre.Client.Transfer.{answered}
use semestre.Client.Commands.{
  receive_info, on_words, execute, do_named, with_name, rm_target, do_rm, next_line, client_round,
}

asked : Order → ClientState → ClientState
asked o p =
    logged (wrote slave (encode_int (code_of o)))
      (record p { vars = record p.vars { int_cmd = code_of o } })

told : Order → List Arrival → ClientState → ClientState
unfolding asked
told o q p =
    let p' = left slave q (asked o p) in
    logged (wrote slave (path_of o)) (record p' { vars = record p'.vars { info = ok_code } })

on_words-orders :
    (fuel : ℕ) (o : Order) (q : List Arrival) (p : ClientState)
    → p.os.sockets slave ≡ queue (blocks (oks 1) q)
    → on_words fuel (some (typed o)) p ≡ ok tt (told o q p)
unfolding on_words cmd_to_int execute do_named with_name rm_target do_rm answered receive_info
    attente_reponse send told
on_words-orders fuel (makes path) q p come = rw (
  select-chunk slave q (asked (makes path) p) (encode_int ok_code) come,
  recv_int-encode slave q (asked (makes path) p) p.vars.info ok_code come (omega arith),
)
on_words-orders fuel (removes path) q p come = rw (
  select-chunk slave q (asked (removes path) p) (encode_int ok_code) come,
  recv_int-encode slave q (asked (removes path) p) p.vars.info ok_code come (omega arith),
)
on_words-orders fuel (removes_all path) q p come = rw (
  select-chunk slave q (asked (removes_all path) p) (encode_int ok_code) come,
  recv_int-encode slave q (asked (removes_all path) p) p.vars.info ok_code come (omega arith),
)
on_words-orders fuel (enters path) q p come = rw (
  select-chunk slave q (asked (enters path) p) (encode_int ok_code) come,
  recv_int-encode slave q (asked (enters path) p) p.vars.info ok_code come (omega arith),
)

typed-AllWords : (o : Order) → IsWord (path_of o) → AllWords (typed o)
typed-AllWords (makes path) w = ((refl, (refl, (refl, (refl, (refl, tt))))), (w, tt))
typed-AllWords (removes path) w = ((refl, (refl, tt)), (w, tt))
typed-AllWords (removes_all path) w = ((refl, (refl, tt)), ((refl, (refl, tt)), (w, tt)))
typed-AllWords (enters path) w = ((refl, (refl, tt)), (w, tt))

module _ (fuel : ℕ) (o : Order) (lines : List Bytes) (q : List Arrival) (s : ClientState)
    (word : IsWord (path_of o)) (line : s.vars.stdin ≡ (unwords (typed o) ++ b'\n' ∷ []) ∷ lines)
    (come : s.os.sockets slave ≡ queue (blocks (oks 1) q)) where
  read_in : ClientState
  read_in = record s {
    vars = record s.vars { cmd = no_endofline (unwords (typed o) ++ b'\n' ∷ []); stdin = lines };
  }

  pub client_round-orders :
      (t : ClientState) × (client_round fuel s ≡ ok tt t)
      × (messages slave t.os.log ≡ messages slave s.os.log ++ order_requests o)
      × (t.os.disk ≡ s.os.disk)
      × (t.vars.stdin ≡ lines)
      × (t.os.sockets slave ≡ queue q)
  unfolding client_round next_line read_in told messages
  client_round-orders = (
    told o q read_in,
    rw (line, split_in_words-unwords (typed o) (typed-AllWords o word))
        (on_words-orders fuel o q read_in come),
    simp append_assoc,
    refl,
    refl,
    refl,
  )
