-- ===== src/Master/Loop.antt =====
-- `main` of master.c: the slaves connect, and the child answers one `select` after the other.
use semestre.Base.{ℕ, zero, suc, ◌+◌, Bool, false, Option, none, some, List, [], ◌∷◌, Bytes, set}
use semestre.Posix.Int.{ℤ}
use semestre.Posix.Run.{pure, ◌>>◌}
use semestre.Posix.Calls.{close}
use semestre.Protocol.{nb_esclave}
use semestre.Master.{Master, assign, tube_in}
use semestre.Master.Events.{master_round}

-- `while (nb_connected < NB_ESCLAVE)`, with `left` slaves to come. `accepted` is the descriptor that
-- `Accept` gives for each of them.
unfoldable pub accept_slaves : (ℕ → ℕ) → ℕ → ℕ → Master (Unit {0})
accept_slaves accepted zero nb_connected = pure tt
accept_slaves accepted (suc left) nb_connected =
    assign (λ v. record v {
      fd_slave = set v.fd_slave nb_connected (accepted nb_connected);
      busy = set v.busy nb_connected false;
    })
    >> accept_slaves accepted left (nb_connected + 1)

-- What `select` and the stack give a round: the set of descriptors that can be read, or `none` for
-- a result of 0 or -1; and what the locals of `register_crash_transfert` hold at first.
pub record Round : Type 0 where
  pub readfd : Option (ℕ → Bool)
  pub ip_junk : Bytes
  pub nb_junk : ℤ
  pub name_junk : Bytes

unfoldable pub on_select : ℕ → Option (ℕ → Bool) → Bytes → ℤ → Bytes → Master (Unit {0})
on_select fuel none ip nb name = pure tt
on_select fuel (some readfd) ip nb name = master_round fuel readfd ip nb name

-- `while (1)`, for as many rounds as `select` has returned from.
unfoldable pub child_loop : ℕ → List Round → Master (Unit {0})
child_loop fuel [] = pure tt
child_loop fuel (r ∷ rounds) =
    on_select fuel r.readfd r.ip_junk r.nb_junk r.name_junk >> child_loop fuel rounds

-- The child, with what `main` does before the fork. `listenfd` is the socket for the slaves.
unfoldable pub main_child : (ℕ → ℕ) → ℕ → ℕ → List Round → Master (Unit {0})
main_child accepted listenfd fuel rounds = do
  accept_slaves accepted nb_esclave 0
  close listenfd
  close tube_in
  child_loop fuel rounds
