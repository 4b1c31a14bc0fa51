-- ===== src/Exchange/Examples.antt =====
-- A slave that serves one file, a client that has a part of it, and the theorems about them.
use semestre.Base.{
  ◌==◌, if◌then◌else◌, ◌≡◌, refl, true, some, List, [], ◌∷◌, ◌++◌, arith, Bytes, codes, length,
  drop, take, none,
}
use semestre.Posix.Int.{pos, encode_int}
use semestre.Posix.Run.{ok}
use semestre.Posix.Kernel.{chunk, queue, System}
use semestre.Posix.Calls.{c_str}
use semestre.Posix.Log.{messages}
use semestre.Parse.{get, put}
use semestre.Protocol.{ok_code, client_crashed}
use semestre.Client.Puts.{put_requests}
use semestre.Exchange.Stale.{get-stale}
use semestre.Exchange.Handover.{hand_crash-takes_over}
use semestre.Master.{MasterState}
use semestre.Master.Events.{hand_crash}
use semestre.Master.Hands.{handed}
use semestre.StockIp.{Entry}
use semestre.StockIp.Chain.{Chain}
use semestre.Slave.Crash.Takes.{takes_over}
use semestre.Exchange.Put.{put_replies, put-copies}
use semestre.Protocol.Blocks.{blocks, all_from, oks}
use semestre.Slave.{SlaveState, clientfd, master}
use semestre.Slave.Session.{session_round}
use semestre.Slave.Session.Get.{get_requests, get_replies}
use semestre.Client.{ClientState, slave}
use semestre.Client.Commands.{execute, greeted}
use semestre.Exchange.{slave_resumes, to_client, to_slave}
use semestre.Exchange.Get.{get-copies}
use semestre.Exchange.Resume.{resume-completes}

abbrev pub plain_system : System
plain_system = record {
  resolve = λ cwd path. path;
  may_read = λ f. true;
  may_write = λ f. true;
  stat_works = λ f. true;
  enter = λ cwd path. some path;
  names = λ cwd d. some [];
  run_command = λ cwd args d. d;
}

abbrev pub whole : Bytes
whole = codes "some text"

abbrev pub serving : List Bytes → SlaveState
serving requests = record {
  vars = record {
    connected = true;
    client_ip_string = codes "10.0.0.1";
    filename = codes "f" ++ (0 ∷ []);
    nb_crash = pos 2;
    info_junk = pos 7;
    int_cmd = pos 0;
    info = pos 0;
    path = [];
    nb_octets = pos 0;
  };
  os = record {
    system = plain_system;
    sockets = λ j. queue (blocks requests []);
    disk = λ f. some whole;
    handles = λ j. none;
    next_handle = 8;
    cwd = codes "/";
    log = [];
  };
}

-- The client has the first four bytes.
abbrev pub asking : List Bytes → ClientState
asking replies = record {
  vars = record { info = pos 0; int_cmd = pos 0; nb_octets = pos 0; cmd = []; stdin = [] };
  os = record {
    system = plain_system;
    sockets = λ j. queue (blocks replies []);
    disk = λ f. some (take 4 whole);
    handles = λ j. none;
    next_handle = 8;
    cwd = codes "/";
    log = [];
  };
}

get-copies_example :
    (t : SlaveState) × (t' : ClientState) × (session_round 2
        (serving (get_requests (codes "f") whole))
      ≡ ok tt t)
    × (execute 2 get (codes "f" ∷ []) (asking (get_replies whole)) ≡ ok tt t')
    × (messages clientfd t.os.log ≡ messages clientfd [] ++ get_replies whole)
    × (messages slave t'.os.log ≡ messages slave [] ++ get_requests (codes "f") whole)
    × (t.vars.connected ≡ true)
    × (t'.os.disk (codes "f") ≡ some (whole ++ drop (length whole) (take 4 whole)))
get-copies_example =
    get-copies 2 (codes "f") whole [] [] [] (serving (get_requests (codes "f") whole))
      (asking (get_replies whole)) (record { holds = refl; readable = refl; sized = refl }) refl
      (omega arith) (omega arith) (omega arith) (omega arith) (omega arith) refl refl

resume-completes_example :
    (t : SlaveState) × (t' : ClientState) × (slave_resumes 2 (serving (to_slave whole 2)) ≡ ok tt t)
    × (greeted 2 (0 ∷ 0 ∷ []) (pos 0) (pos 0) (asking (to_client (codes "f") whole 2)) ≡ ok tt t')
    × (messages clientfd t.os.log ≡ messages clientfd [] ++ to_client (codes "f") whole 2)
    × (messages slave t'.os.log ≡ messages slave [] ++ to_slave whole 2)
    × (t'.os.disk (codes "f") ≡ some whole)
unfolding c_str drop
resume-completes_example =
    resume-completes 2 4 2 (codes "f") whole (0 ∷ 0 ∷ []) [] (pos 0) (pos 0) [] []
      (serving (to_slave whole 2)) (asking (to_client (codes "f") whole 2))
      (record { named = refl; from_byte = refl; holds = refl; readable = refl; sized = refl })
      (record { holds = refl; writable = refl }) (omega arith) (omega arith) (omega arith)
      (omega arith) (omega arith) refl (omega arith) refl refl

-- The client puts the four bytes that it has over the slave's file.
put-copies_example :
    (t : SlaveState) × (t' : ClientState) × (session_round 2
        (serving (put_requests (codes "f") (take 4 whole)))
      ≡ ok tt t)
    × (execute 2 put (codes "f" ∷ []) (asking (put_replies (take 4 whole))) ≡ ok tt t')
    × (messages clientfd t.os.log ≡ messages clientfd [] ++ put_replies (take 4 whole))
    × (messages slave t'.os.log ≡ messages slave [] ++ put_requests (codes "f") (take 4 whole))
    × (t.vars.connected ≡ true)
    × (t.os.disk (codes "f") ≡ some (take 4 whole ++ drop (length (take 4 whole)) whole))
    × (t'.os.sockets slave ≡ queue (chunk (encode_int ok_code) ∷ []))
unfolding take
put-copies_example =
    put-copies 2 (codes "f") (take 4 whole) [] [] []
      (serving (put_requests (codes "f") (take 4 whole))) (asking (put_replies (take 4 whole)))
      (record { holds = refl; readable = refl; sized = refl }) refl (omega arith) (omega arith)
      (omega arith) (omega arith) (omega arith) refl refl

get-stale_example :
    (t : SlaveState) × (t' : ClientState) × (session_round 2
        (serving (get_requests (codes "f") whole))
      ≡ ok tt t)
    × (execute 2 get (codes "f" ∷ []) (asking (encode_int ok_code ∷ get_replies whole)) ≡ ok tt t')
    × (messages clientfd t.os.log ≡ messages clientfd [] ++ get_replies whole)
    × (messages slave t'.os.log ≡ messages slave [] ++ get_requests (codes "f") whole)
    × (t'.os.disk (codes "f") ≡ some (encode_int (pos (length whole)) ++ drop 4 (take 4 whole)))
    × (t'.os.sockets slave ≡ queue (blocks (all_from 0 whole) []))
get-stale_example =
    get-stale 2 (codes "f") whole [] [] [] (serving (get_requests (codes "f") whole))
      (asking (encode_int ok_code ∷ get_replies whole))
      (record { holds = refl; readable = refl; sized = refl }) refl (omega arith) (omega arith)
      (omega arith) (omega arith) (omega arith) refl refl

-- The master's list with that transfer alone.
abbrev cut_get : Entry
cut_get = record { ip = codes "10.0.0.1"; nb_bytes = pos 2; filename = codes "f" }

abbrev handing : MasterState
handing = record {
  vars = record {
    fd_slave = 7 ∷ [];
    busy = true ∷ [];
    info = pos 1;
    client_ip_string = codes "10.0.0.1";
    nodes = λ p. if p == 100 then some (record { entry = cut_get; next = 0 }) else none;
    head = 100;
    next_node = 200;
  };
  os = record {
    system = plain_system;
    sockets = λ j. queue (blocks (oks 2) []);
    disk = λ f. none;
    handles = λ j. none;
    next_handle = 9;
    cwd = codes "/";
    log = [];
  };
}

hand_crash-takes_over_example :
    (t : MasterState) × (t' : SlaveState) × (hand_crash 3 7 (codes "10.0.0.1") handing ≡ ok tt t)
    × (takes_over (serving (codes "f" ∷ encode_int (pos 2) ∷ [])) ≡ ok tt t')
    × (messages 7 t.os.log ≡ messages 7 [] ++ handed (encode_int client_crashed) cut_get)
    × (messages master t'.os.log ≡ messages master [] ++ oks 2)
    × (c_str t'.vars.filename ≡ codes "f")
    × (t'.vars.nb_crash ≡ pos 2)
    × (t.vars.head ≡ 0)
    × Chain t.vars.nodes []
unfolding drop
hand_crash-takes_over_example =
    hand_crash-takes_over 3 7 (codes "10.0.0.1") 100 cut_get [] [] [] [] handing
      (serving (codes "f" ∷ encode_int (pos 2) ∷ [])) (omega arith, refl, refl, tt) refl refl
      (omega arith) (omega arith) (omega arith) (omega arith) refl refl refl
