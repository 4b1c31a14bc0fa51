-- ===== src/Slave/Session/Orders.antt =====
-- One round of a session with a client that gives an order about a path.
use semestre.Base.{
  ℕ, ◌<◌, ◌≡◌, refl, ap, some, none, Option, List, [], ◌∷◌, ◌++◌, arith, Bytes, length, drop,
  lt→ltb, ◌+◌, codes, if◌then◌else◌,
}
use semestre.Posix.Int.{encode_int, Fits}
use semestre.Posix.Run.{ok, pure, ◌>>=◌, ◌>>◌}
use semestre.Posix.Kernel.{Arrival, queue, wrote}
use semestre.Posix.Calls.{send, ended, nonzero}
use semestre.Posix.Files.{chdir, run_and_wait, moved}
use semestre.Posix.Log.{messages}
use semestre.Posix.Script.{left, logged, select-chunk, recv-chunk}
use semestre.Posix.Strings.{NoNul, c_str-append_nul}
use semestre.Protocol.{ok_code, max_line, envoi_info, attente_reponse, short_timeout}
use semestre.Protocol.Blocks.{blocks, oks}
use semestre.Protocol.Orders.{
  Order, makes, removes, removes_all, enters, path_of, code_of, order_requests, disk_after,
  cwd_after, entered,
}
use semestre.Slave.{Slave, SlaveState, clientfd}
use semestre.Slave.Commands.{do_mkdir, do_rm, do_cd, remove_path, read_path, close_then_tell}
use semestre.Slave.Session.{execute, session_round}
use semestre.Slave.Session.Get.{on_command-int}

-- The four cases of the switch: the path is read, and then the work is done.
abbrev work : Order → Bytes → Slave (Unit {0})
work (makes name) path = run_and_wait (codes "mkdir" ∷ path ∷ [])
work (removes name) path = run_and_wait (codes "rm" ∷ path ∷ [])
work (removes_all name) path = run_and_wait (codes "rm" ∷ codes "-r" ∷ path ∷ [])
work (enters name) path = do _ ← chdir path; pure tt

abbrev ordered : Order → Slave (Unit {0})
ordered o = do
  envoi_info clientfd ok_code
  w ← attente_reponse clientfd short_timeout
  if nonzero w then (do path ← read_path; work o path) else close_then_tell

execute-ordered : (fuel : ℕ) (o : Order) → execute fuel (code_of o) ≡ ordered o
unfolding execute do_mkdir do_rm do_cd remove_path
execute-ordered fuel (makes name) = refl
execute-ordered fuel (removes name) = refl
execute-ordered fuel (removes_all name) = refl
execute-ordered fuel (enters name) = refl

code_of-Fits : (o : Order) → Fits (code_of o)
code_of-Fits (makes name) = omega arith
code_of-Fits (removes name) = omega arith
code_of-Fits (removes_all name) = omega arith
code_of-Fits (enters name) = omega arith

-- The work is done, whatever commands do and whether the directory can be entered or not.
abbrev Done : Order → SlaveState → SlaveState → Type 0
Done o p t =
    (t.os.disk ≡ disk_after o p.os.system p.os.cwd p.os.disk)
    × (t.os.cwd ≡ cwd_after o p.os.system p.os.cwd)
    × (messages clientfd t.os.log ≡ messages clientfd p.os.log)
    × (t.vars ≡ p.vars)
    × (t.os.sockets ≡ p.os.sockets)

work-Done :
    (o : Order) (p : SlaveState) → (t : SlaveState) × (work o (path_of o) p ≡ ok tt t) × Done o p t
unfolding run_and_wait chdir moved messages
work-Done (makes path) p = (_, refl, (refl, refl, refl, refl, refl))
work-Done (removes path) p = (_, refl, (refl, refl, refl, refl, refl))
work-Done (removes_all path) p = (_, refl, (refl, refl, refl, refl, refl))
work-Done (enters path) p = enter_cases (p.os.system.enter p.os.cwd path)
  where
    enter_cases :
        (d : Option Bytes)
        → (t : SlaveState) × (ok tt (record p { os = (moved d p.os).1 }) ≡ ok tt t)
          × ((t.os.disk ≡ p.os.disk)
              × (t.os.cwd ≡ entered d p.os.cwd)
              × (messages clientfd t.os.log ≡ messages clientfd p.os.log)
              × (t.vars ≡ p.vars)
              × (t.os.sockets ≡ p.os.sockets))
    enter_cases none = (_, refl, (refl, refl, refl, refl, refl))
    enter_cases (some d) = (_, refl, (refl, refl, refl, refl, refl))

module _ (fuel : ℕ) (o : Order) (q : List Arrival) (s : SlaveState) (c_string : NoNul (path_of o))
    (short : length (path_of o) < max_line)
    (come : s.os.sockets clientfd ≡ queue (blocks (order_requests o) q)) where
  commanded : SlaveState
  commanded =
      let s' = left clientfd (blocks (path_of o ∷ []) q) s in
      logged (wrote clientfd (encode_int ok_code))
        (record s' { vars = record s.vars { int_cmd = code_of o } })

  named : SlaveState
  unfolding commanded
  named =
      let s' = left clientfd q commanded in
      record s' {
        vars = record s'.vars {
          path = path_of o ++ (0 ∷ drop (length (path_of o) + 1) s.vars.path);
        };
      }

  pub session_round-obeys :
      (t : SlaveState) × (session_round fuel s ≡ ok tt t)
      × (t.os.disk ≡ disk_after o s.os.system s.os.cwd s.os.disk)
      × (t.os.cwd ≡ cwd_after o s.os.system s.os.cwd)
      × (messages clientfd t.os.log ≡ messages clientfd s.os.log ++ oks 1)
      × (t.vars.connected ≡ s.vars.connected)
      × (t.os.sockets clientfd ≡ queue q)
  unfolding session_round read_path ended attente_reponse envoi_info send named messages
  session_round-obeys =
      let (t, run, (disk, cwd, said, vars, socks)) = work-Done o named in
      (
        t,
        rw
            (
              select-chunk clientfd _ s (encode_int (code_of o)) come,
              recv-chunk clientfd _ s 4 (encode_int (code_of o)) come
                  (unfold encode_int in omega arith),
              on_command-int fuel (code_of o) (left clientfd _ s) (code_of-Fits o),
              execute-ordered fuel o,
              select-chunk clientfd _ commanded (path_of o) refl,
              recv-chunk clientfd _ commanded max_line (path_of o) refl (omega arith),
              lt→ltb (length (path_of o)) max_line short,
              c_str-append_nul (path_of o) _ c_string,
            )
            run,
        disk,
        cwd,
        said,
        ap (λ v. v.connected) vars,
        ap (λ f. f clientfd) socks,
      )
