-- ===== src/Master/Examples.antt =====
-- A master with two slaves, and the theorems at some of its states.
use semestre.Master.Overflow.{register_crash_transfert-fault}
use semestre.StockIp.{contain, find_from}
use semestre.Posix.Calls.{recv, send, select, recv_int, fill, c_str, close}
use semestre.Base.{
  ℕ, ◌≡◌, refl, ◌⊎◌, true, false, some, none, [], ◌∷◌, codes, ◌==◌, if◌then◌else◌, set, take, List,
  arith,
}
use semestre.Posix.Int.{pos, encode_int, store_int}
use semestre.Posix.Run.{Run, ok, exited, fault, out_of_fuel}
use semestre.Posix.Kernel.{chunk, queue, System}
use semestre.Protocol.{ok_code, slave_finished, attente_reponse, envoi_info, inet_addrstrlen}
use semestre.Master.{MasterState, slave_not_busy, slave_not_busy_from}
use semestre.Master.Tables.{AllBusy, FirstFree}
use semestre.Master.Events.{
  on_client, on_code, set_busy, give_free, give_to, give_client, present_client,
  register_crash_transfert, master_round, on_slaves, on_slave,
}
use semestre.Master.Serving.{Serves, main_child-Serves}
use semestre.Master.Loop.{Round, accept_slaves, on_select, child_loop, main_child}
use semestre.Master.Dispatch.{is_freeing, on_code-busy, on_client-busy}

abbrev plain_system : System
plain_system = record {
  resolve = λ cwd path. path;
  may_read = λ f. true;
  may_write = λ f. true;
  stat_works = λ f. true;
  enter = λ cwd path. some path;
  names = λ cwd d. some [];
  run_command = λ cwd args d. d;
}

-- Slave 0 on descriptor 7 is busy, slave 1 on descriptor 8 is free and will answer OK; the address
-- of a client is in the pipe.
abbrev one_free : MasterState
one_free = record {
  vars = record {
    fd_slave = 7 ∷ 8 ∷ [];
    busy = true ∷ false ∷ [];
    info = pos 0;
    client_ip_string = [];
    nodes = λ p. none;
    head = 0;
    next_node = 1;
  };
  os = record {
    system = plain_system;
    sockets = λ j.
        if j == 5
        then queue (chunk (codes "10.0.0.1") ∷ [])
        else queue (chunk (encode_int ok_code) ∷ []);
    disk = λ f. none;
    handles = λ j. none;
    next_handle = 9;
    cwd = codes "/";
    log = [];
  };
}

-- The state that a run returns in, or the one given.
abbrev returned_in : MasterState → Run MasterState (Unit {0}) → MasterState
returned_in s (ok a t) = t
returned_in s (exited t) = s
returned_in s fault = s
returned_in s (out_of_fuel t) = s

client_given : on_client 1 one_free ≡ ok tt (returned_in one_free (on_client 1 one_free))
unfolding on_client recv give_free give_to give_client set_busy send present_client attente_reponse
    select recv_int contain envoi_info fill c_str slave_not_busy slave_not_busy_from find_from
    encode_int store_int take
client_given = refl

slave_freed :
    on_code [] (pos 0) [] 0 7 slave_finished one_free
    ≡ ok tt (returned_in one_free (on_code [] (pos 0) [] 0 7 slave_finished one_free))
unfolding on_code set_busy
slave_freed = refl

on_client-busy_example :
    (AllBusy (true ∷ false ∷ [])
      × ((returned_in one_free (on_client 1 one_free)).vars.busy ≡ true ∷ false ∷ []))
    ⊎ ((k : ℕ) × FirstFree k (true ∷ false ∷ [])
        × ((returned_in one_free (on_client 1 one_free)).vars.busy
            ≡ set (true ∷ false ∷ []) k true))
on_client-busy_example =
    on_client-busy 1 one_free (returned_in one_free (on_client 1 one_free)) client_given

on_code-busy_example :
    (returned_in one_free (on_code [] (pos 0) [] 0 7 slave_finished one_free)).vars.busy
    ≡ (if is_freeing slave_finished then set (true ∷ false ∷ []) 0 false else (true ∷ false ∷ []))
on_code-busy_example =
    on_code-busy [] (pos 0) [] 0 7 slave_finished one_free
      (returned_in one_free (on_code [] (pos 0) [] 0 7 slave_finished one_free)) slave_freed

register_crash_transfert-fault_example :
    register_crash_transfert [] (pos 0) [] 7 (record one_free {
      os = record one_free.os {
        sockets = λ j. queue (chunk (fill inet_addrstrlen (codes "10.0.0.1")) ∷ []);
      };
    })
    ≡ fault
register_crash_transfert-fault_example =
    register_crash_transfert-fault [] (pos 0) [] 7 (codes "10.0.0.1") []
      (record one_free {
        os = record one_free.os {
          sockets = λ j. queue (chunk (fill inet_addrstrlen (codes "10.0.0.1")) ∷ []);
        };
      })
      refl

-- The globals at the start.
abbrev starting : MasterState
starting = record one_free { vars = record one_free.vars { fd_slave = 0 ∷ []; busy = false ∷ [] } }

-- A `select` that times out, and one that finds a client in the pipe.
abbrev two_rounds : List Round
two_rounds =
    record { readfd = none; ip_junk = []; nb_junk = pos 0; name_junk = [] }
    ∷ record { readfd = some (λ j. j == 5); ip_junk = []; nb_junk = pos 0; name_junk = [] }
    ∷ []

abbrev gone_through : MasterState
gone_through = returned_in starting (main_child (λ n. 7) 3 1 two_rounds starting)

rounds_end : main_child (λ n. 7) 3 1 two_rounds starting ≡ ok tt gone_through
unfolding main_child accept_slaves close child_loop on_select master_round on_slaves on_slave
    on_client recv give_free give_to give_client set_busy send present_client attente_reponse select
    recv_int contain envoi_info fill c_str slave_not_busy slave_not_busy_from find_from encode_int
    store_int take
rounds_end = refl

main_child-Serves_example : Serves (7 ∷ []) gone_through.vars
main_child-Serves_example =
    main_child-Serves (λ n. 7) starting 3 1 two_rounds gone_through refl refl
      (
        [],
        record {
          cells = [];
          chain = tt;
          at_head = refl;
          holds = refl;
          unused = λ a le. refl;
          not_null = omega arith;
        },
        tt,
      )
      rounds_end
