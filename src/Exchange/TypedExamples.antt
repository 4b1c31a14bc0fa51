-- ===== src/Exchange/TypedExamples.antt =====
-- A user who types `rm -r d`, one who types `ls`, and one who gets an empty file and types `ls`.
use semestre.Slave.Release.{releases}
use semestre.Protocol.{ok_code}
use semestre.Base.{◌≡◌, refl, none, true, List, [], ◌∷◌, ◌++◌, Bytes, codes, arith, some, false}
use semestre.Posix.Int.{encode_int, pos}
use semestre.Posix.Run.{ok}
use semestre.Posix.Kernel.{System, shut}
use semestre.Posix.Log.{messages}
use semestre.Parse.{ls, get}
use semestre.Parse.RoundTrip.{unwords}
use semestre.Protocol.Blocks.{oks}
use semestre.Protocol.Orders.{Order, removes_all, typed, order_requests}
use semestre.Protocol.Questions.{files, asked_by}
use semestre.Slave.{SlaveState, clientfd}
use semestre.Slave.Commands.{listing}
use semestre.Slave.Session.{session_round}
use semestre.Exchange.Empty.{get-empty}
use semestre.Client.Commands.{execute}
use semestre.Client.{ClientState, slave, stdout}
use semestre.Client.Commands.{client_round}
use semestre.Exchange.Examples.{plain_system, serving, asking}
use semestre.Exchange.Orders.{order-obeyed}
use semestre.Exchange.Questions.{question-answered}

-- Every command empties the disk, and there is one file beside the two entries that are left out.
abbrev small_system : System
small_system = record plain_system {
  run_command = λ cwd args d. λ f. none;
  names = λ cwd d. some (codes "." ∷ codes "f" ∷ codes ".." ∷ []);
}

abbrev slave_of : List Bytes → SlaveState
slave_of requests = record (serving requests) {
  os = record (serving requests).os { system = small_system };
}

abbrev client_of : List Bytes → List Bytes → ClientState
client_of words replies = record (asking replies) {
  vars = record (asking replies).vars { stdin = (unwords words ++ b'\n' ∷ []) ∷ [] };
}

abbrev order : Order
order = removes_all (codes "d")

order-obeyed_example :
    (t : SlaveState) × (t' : ClientState) × (session_round 1 (slave_of (order_requests order))
      ≡ ok tt t)
    × (client_round 1 (client_of (typed order) (oks 1)) ≡ ok tt t')
    × (messages clientfd t.os.log ≡ messages clientfd [] ++ oks 1)
    × (messages slave t'.os.log ≡ messages slave [] ++ order_requests order)
    × (t.os.disk ≡ (λ f. none))
    × (t.os.cwd ≡ codes "/")
    × (t.vars.connected ≡ true)
    × (t'.os.disk ≡ (client_of (typed order) (oks 1)).os.disk)
    × (t'.vars.stdin ≡ [])
order-obeyed_example =
    order-obeyed 1 order [] [] [] (slave_of (order_requests order))
      (client_of (typed order) (oks 1)) (refl, tt) (omega arith) (omega arith) refl refl refl

question-answered_example :
    (t : SlaveState) × (t' : ClientState) × (session_round 1 (slave_of (encode_int ls ∷ []))
      ≡ ok tt t)
    × (client_round 1 (client_of (asked_by files) (codes "f\n" ∷ [])) ≡ ok tt t')
    × (messages clientfd t.os.log ≡ messages clientfd [] ++ (codes "f\n" ∷ []))
    × (messages slave t'.os.log ≡ messages slave [] ++ (encode_int ls ∷ []))
    × (messages stdout t'.os.log ≡ messages stdout [] ++ (codes "f\n" ∷ []))
    × (t.os.disk ≡ (slave_of []).os.disk)
    × (t.os.cwd ≡ codes "/")
    × (t.vars.connected ≡ true)
    × (t'.os.disk ≡ (client_of [] []).os.disk)
    × (t'.vars.stdin ≡ [])
unfolding listing
question-answered_example =
    question-answered 1 files [] [] [] (slave_of (encode_int ls ∷ []))
      (client_of (asked_by files) (codes "f\n" ∷ [])) (omega arith) (omega arith) refl refl refl

-- A slave with empty files, and the code of `ls` behind the get.
abbrev empty_slave : SlaveState
empty_slave = record (serving (encode_int get ∷ codes "f" ∷ encode_int ls ∷ [])) {
  os = record (serving (encode_int get ∷ codes "f" ∷ encode_int ls ∷ [])).os {
    disk = λ f. some [];
  };
}

abbrev empty_replies : List Bytes
empty_replies = encode_int ok_code ∷ encode_int (pos 0) ∷ []

get-empty_example :
    (t : SlaveState) × (t' : ClientState) × (session_round 1 empty_slave ≡ ok tt t)
    × (execute 1 get (codes "f" ∷ []) (asking empty_replies) ≡ ok tt t')
    × (t'.os.disk ≡ (asking empty_replies).os.disk)
    × (messages slave t'.os.log ≡ messages slave [] ++ (encode_int get ∷ codes "f" ∷ []))
    × (messages clientfd t.os.log ≡ messages clientfd [] ++ empty_replies)
    × (t.vars.connected ≡ false)
    × (t.os.sockets clientfd ≡ shut)
    × (releases t.os.log ≡ 0)
get-empty_example =
    get-empty 1 (codes "f") [] ls [] [] empty_slave (asking empty_replies)
      (record { holds = refl; readable = refl; sized = refl }) (omega arith) (omega arith)
      (omega arith) refl refl refl
