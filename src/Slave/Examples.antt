-- ===== src/Slave/Examples.antt =====
-- A slave with one file, and the theorems at some of its states.
use semestre.Protocol.Blocks.{block, length-block}
use semestre.Base.{
  ℕ, zero, suc, ◌+◌, ◌*◌, ◌≤◌, ◌<◌, ◌≡◌, refl, true, false, some, List, [], ◌∷◌, ◌++◌, Bytes, codes,
  arith, ◌==◌, if◌then◌else◌, length, take, drop,
}
use semestre.Posix.Int.{pos, encode_int}
use semestre.Posix.Run.{ok, out_of_fuel}
use semestre.Posix.Kernel.{Arrival, late, queue, shut, System, closed, wrote}
use semestre.Posix.Calls.{send, close}
use semestre.Posix.Files.{chdir, moved}
use semestre.Posix.Log.{written}
use semestre.Parse.{exit_cmd}
use semestre.Protocol.{max_line, envoi_info, slave_finished}
use semestre.Slave.{SlaveState, master, clientfd}
use semestre.Slave.Transfer.{send_loop}
use semestre.Slave.Transfer.Sends.{acks, handle_at}
use semestre.Slave.Transfer.Cut.{crash_report, send_loop-cut}
use semestre.Slave.Commands.{do_exit, home_path}
use semestre.Slave.Session.{execute, session}
use semestre.Slave.Session.Eof.{session_spins}
use semestre.Slave.Release.{releases}
use semestre.Slave.Release.Commands.{execute-releases}

abbrev plain_system : System
plain_system = record {
  resolve = λ cwd path. path;
  may_read = λ f. true;
  may_write = λ f. true;
  stat_works = λ f. true;
  enter = λ cwd path. some path;
  names = λ cwd d. some [];
  run_command = λ cwd args d. d;
}

-- A connected slave that has file 7 open on `c` at byte `k`.
abbrev slave_with : Bytes → ℕ → List Arrival → List Arrival → SlaveState
slave_with c k from_client from_master = record {
  vars = record {
    connected = true;
    client_ip_string = codes "10.0.0.1";
    filename = codes "f";
    nb_crash = pos 0;
    info_junk = pos 7;
    int_cmd = pos 0;
    info = pos 0;
    path = [];
    nb_octets = pos 0;
  };
  os = record {
    system = plain_system;
    sockets = λ j. if j == clientfd then queue from_client else queue from_master;
    disk = λ f. some c;
    handles = λ j. some (handle_at (codes "f") k);
    next_handle = 8;
    cwd = codes "/";
    log = [];
  };
}

abbrev short : Bytes
short = codes "some text"

abbrev idle : SlaveState
idle = slave_with short 0 [] []

abbrev after_exit : SlaveState
after_exit = record {
  vars = record idle.vars { connected = false };
  os = record idle.os {
    cwd = home_path;
    sockets = λ j. if j == clientfd then shut else idle.os.sockets j;
    log = closed clientfd ∷ (wrote master (encode_int slave_finished) ∷ []);
  };
}

execute-releases_example : 0 < releases after_exit.os.log
unfolding execute do_exit envoi_info send close chdir moved
execute-releases_example = execute-releases 1 exit_cmd idle after_exit refl refl refl refl

session_spins_example : session 1000 9 idle ≡ out_of_fuel idle
session_spins_example = session_spins 9 idle refl refl 1000

blanks : ℕ → Bytes
blanks zero = []
blanks (suc n) = b' ' ∷ blanks n

length-blanks : (n : ℕ) → length (blanks n) ≡ n
unfolding blanks
length-blanks zero = refl
length-blanks (suc n) = omega (arith, length-blanks n)

-- 9000 bytes: the client answers the first block and not the second one.
abbrev long : Bytes
long = blanks 9000

abbrev cut_state : SlaveState
cut_state = slave_with long 0 (acks 1 (late ∷ [])) (acks 3 [])

send_loop-cut_example :
    (t : SlaveState) × (send_loop 3 7 (pos 0) (pos (length long)) cut_state
      ≡ ok (pos (length long + 1)) t)
    × (t.vars.connected ≡ false)
    × (written master t.os.log ≡ written master [] ++ crash_report cut_state.vars 808)
    × (written clientfd t.os.log
        ≡ written clientfd [] ++ (take (1 * max_line) (drop 0 long) ++ block 8192 long))
    × (808 ≤ 8192)
send_loop-cut_example =
    send_loop-cut 1 7 (codes "f") long [] [] 0 8192 808 cut_state
      (record { opened = refl; holds = refl; to_come = refl }) refl (omega arith)
      (omega (arith, length-blanks 9000))
      (omega (arith, length-block 8192 long, length-blanks 9000))
      (omega (arith, length-blanks 9000))
