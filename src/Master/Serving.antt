-- ===== src/Master/Serving.antt =====
-- What holds of the master's tables and of its list of cut transfers in every round of the loop.
use semestre.Protocol.{nb_esclave}
use semestre.Base.{
  ℕ, ◌+◌, ◌≡◌, ◌∙◌, Bool, Option, none, some, List, [], ◌∷◌, Bytes, length, length-set, set, false,
  arith, refl,
}
use semestre.Posix.Int.{ℤ, pos, negsuc}
use semestre.Posix.Run.{Run, ok, exited, fault, out_of_fuel, Holds, held, and_then}
use semestre.Posix.Keeps.{
  Returns, returned, ended, faulted, spent, Keeps, Keeps-bind, Keeps-pure, Keeps-gets, Keeps-if,
  Returns-ok, Returns-and_then,
}
use semestre.Posix.Kernel.{Got}
use semestre.Posix.Calls.{over, close}
use semestre.StockIp.{Nodes}
use semestre.StockIp.Registry.Kept.{Kept, Holds-add, Holds-remove_by_ip}
use semestre.Master.{Vars, MasterState, assign, lifted, tube_in}
use semestre.Master.Rules.{
  On, Robust, Keeps-assign, call_rules, Keeps-info, Keeps-acknowledge,
  Keeps-register_crash_transfert, Keeps-present_client, Keeps-recv_int,
}
use semestre.Master.Events.{
  add_crash, drop_crash, set_busy, on_code, on_slave, on_slaves, give_client, give_to, give_free,
  on_client, master_round,
}
use semestre.Master.Loop.{Round, on_select, child_loop, accept_slaves, main_child}

-- The slaves are those of `fds`, with one entry of `busy` for each, and the list is well-formed.
abbrev pub Serves : List ℕ → Vars → Type 0
Serves fds v = (v.fd_slave ≡ fds) × (length v.busy ≡ length fds) × Kept v.next_node v.head v.nodes

-- A call of stock_ip.c that gives a new head, and the assignment behind it.
Returns-new_head :
    {fds : List ℕ} (next : ℕ → ℕ) (s : MasterState) (r : Run Nodes ℕ)
    → Serves fds s.vars
    → Holds (Kept (next s.vars.next_node)) (λ t. Unit {0}) r
    → Returns (On (Serves fds)) (
        and_then
          (lifted r s)
          (λ h. assign (λ v. record v { head = h; next_node = next v.next_node })))
Returns-new_head next s (ok a st) h (held k) = returned (record { holds = (h.0, h.1, k) })
Returns-new_head next s (exited st) h k = ended
Returns-new_head next s fault h k = faulted
Returns-new_head next s (out_of_fuel st) h k = spent

module _ {fds : List ℕ} where
  Keeps-add_crash :
      (ip : Bytes) (nb : ℤ) (file : Bytes) → Keeps (On (Serves fds)) (add_crash ip nb file)
  unfolding add_crash
  Keeps-add_crash ip nb file = record {
    at = λ s h.
        Returns-new_head (λ n. n + 1) s _ h.holds
          (Holds-add ip nb file s.vars.next_node s.vars.head s.vars.nodes h.holds.2);
  }

  Keeps-drop_crash : (fuel : ℕ) (ip : Bytes) → Keeps (On (Serves fds)) (drop_crash fuel ip)
  unfolding drop_crash
  Keeps-drop_crash fuel ip = record {
    at = λ s h.
        Returns-new_head (λ n. n) s _ h.holds
          (Holds-remove_by_ip fuel ip s.vars.next_node s.vars.head s.vars.nodes h.holds.2);
  }

  serving_law : Robust (Serves fds)
  serving_law = record { info = λ z v h. h; adds = Keeps-add_crash; drops = Keeps-drop_crash }

  Keeps-set_busy : (i : ℕ) (b : Bool) → Keeps (On (Serves fds)) (set_busy i b)
  unfolding set_busy
  Keeps-set_busy i b = Keeps-assign _ (λ v h. (h.0, length-set v.busy i b ∙ h.1, h.2))

  Keeps-close : (fd : ℕ) → Keeps (On (Serves fds)) (close fd)
  unfolding close
  Keeps-close fd = record { at = λ s h. returned (record { holds = h.holds }) }

  ruleset serving_rules = (
    call_rules, Keeps-set_busy, Keeps-info, Keeps-acknowledge, Keeps-register_crash_transfert,
    Keeps-present_client, serving_law,
  )

  Keeps-on_code :
      (ip : Bytes) (nb : ℤ) (name : Bytes) (i fd : ℕ) (info : ℤ)
      → Keeps (On (Serves fds)) (on_code ip nb name i fd info)
  unfolding on_code
  Keeps-on_code ip nb name i fd info = search serving_rules depth 12

  Keeps-on_slave :
      (ip : Bytes) (nb : ℤ) (name : Bytes) (i fd : ℕ)
      → Keeps (On (Serves fds)) (on_slave ip nb name i fd)
  unfolding on_slave
  Keeps-on_slave ip nb name i fd = Keeps-bind _ _ (Keeps-gets _) (λ old.
      Keeps-bind _ _ (Keeps-recv_int fd old)
        (λ z. Keeps-bind _ _ (Keeps-info serving_law z) (λ u. Keeps-on_code ip nb name i fd z)))

  Keeps-on_slaves :
      (readfd : ℕ → Bool) (ip : Bytes) (nb : ℤ) (name : Bytes) (i : ℕ) (gds : List ℕ)
      → Keeps (On (Serves fds)) (on_slaves readfd ip nb name i gds)
  unfolding on_slaves
  Keeps-on_slaves readfd ip nb name i [] = Keeps-pure tt
  Keeps-on_slaves readfd ip nb name i (fd ∷ gds) =
      Keeps-bind _ _ (Keeps-if (readfd fd) _ _ (Keeps-on_slave ip nb name i fd) (Keeps-pure tt))
        (λ u. Keeps-on_slaves readfd ip nb name (i + 1) gds)

  Keeps-give_client :
      (fuel id fd : ℕ) (ip : Bytes) → Keeps (On (Serves fds)) (give_client fuel id fd ip)
  unfolding give_client
  Keeps-give_client fuel id fd ip = search serving_rules depth 12

  Keeps-give_to :
      (fuel id : ℕ) (o : Option ℕ) (ip : Bytes) → Keeps (On (Serves fds)) (give_to fuel id o ip)
  unfolding give_to
  Keeps-give_to fuel id none ip = search serving_rules
  Keeps-give_to fuel id (some fd) ip = Keeps-give_client fuel id fd ip

  Keeps-give_free : (fuel : ℕ) (z : ℤ) → Keeps (On (Serves fds)) (give_free fuel z)
  unfolding give_free
  Keeps-give_free fuel (negsuc n) = Keeps-pure tt
  Keeps-give_free fuel (pos id) = search (serving_rules, Keeps-give_to) depth 12

  Keeps-client_ip :
      (g : Got)
      → Keeps
          (On (Serves fds))
          (assign λ v. record v { client_ip_string = over v.client_ip_string g })
  Keeps-client_ip g = Keeps-assign _ (λ v h. h)

  Keeps-on_client : (fuel : ℕ) → Keeps (On (Serves fds)) (on_client fuel)
  unfolding on_client
  Keeps-on_client fuel = search (serving_rules, Keeps-give_free, Keeps-client_ip) depth 12

  Keeps-master_round :
      (fuel : ℕ) (readfd : ℕ → Bool) (ip : Bytes) (nb : ℤ) (name : Bytes)
      → Keeps (On (Serves fds)) (master_round fuel readfd ip nb name)
  unfolding master_round
  Keeps-master_round fuel readfd ip nb name =
      search (serving_rules, Keeps-on_slaves, Keeps-on_client) depth 12

  Keeps-on_select :
      (fuel : ℕ) (o : Option (ℕ → Bool)) (ip : Bytes) (nb : ℤ) (name : Bytes)
      → Keeps (On (Serves fds)) (on_select fuel o ip nb name)
  unfolding on_select
  Keeps-on_select fuel none ip nb name = Keeps-pure tt
  Keeps-on_select fuel (some readfd) ip nb name = Keeps-master_round fuel readfd ip nb name

  Keeps-child_loop :
      (fuel : ℕ) (rounds : List Round) → Keeps (On (Serves fds)) (child_loop fuel rounds)
  unfolding child_loop
  Keeps-child_loop fuel [] = Keeps-pure tt
  Keeps-child_loop fuel (r ∷ rounds) =
      Keeps-bind _ _ (Keeps-on_select fuel r.readfd r.ip_junk r.nb_junk r.name_junk)
        (λ u. Keeps-child_loop fuel rounds)

one_slot : {A : Type 0} (xs : List A) (x : A) → length xs ≡ nb_esclave → set xs 0 x ≡ x ∷ []
one_slot [] x e = absurd (omega (arith, e))
one_slot (y ∷ []) x e = refl
one_slot (y ∷ z ∷ ys) x e = absurd (omega (arith, e))

module _ (accepted : ℕ → ℕ) (s : MasterState) where
  accept_slaves-Returns :
      length s.vars.fd_slave ≡ nb_esclave
      → length s.vars.busy ≡ nb_esclave
      → Kept s.vars.next_node s.vars.head s.vars.nodes
      → Returns (On (Serves (accepted 0 ∷ []))) (accept_slaves accepted nb_esclave 0 s)
  unfolding accept_slaves
  accept_slaves-Returns fds busy list =
      returned (record { holds = (one_slot _ _ fds, length-set s.vars.busy 0 false ∙ busy, list) })

  -- From tables of NB_ESCLAVE entries and a well-formed list, such as the empty one, when the slaves
  -- have connected and the loop has gone through any rounds, whatever slaves and clients have sent
  -- in them: the table of slaves still holds what `Accept` gave, there is one entry of `busy` for
  -- each, the list of cut transfers is a well-formed one in the heap with strings that fit their
  -- arrays, and every address that `malloc` is still to give is free.
  pub main_child-Serves :
      (listenfd fuel : ℕ) (rounds : List Round) (t : MasterState)
      → length s.vars.fd_slave ≡ nb_esclave
      → length s.vars.busy ≡ nb_esclave
      → Kept s.vars.next_node s.vars.head s.vars.nodes
      → main_child accepted listenfd fuel rounds s ≡ ok tt t
      → Serves (accepted 0 ∷ []) t.vars
  unfolding main_child
  main_child-Serves listenfd fuel rounds t fds busy list e =
      let loop =
        Keeps-bind _ _ (Keeps-close listenfd)
          (λ u. Keeps-bind _ _ (Keeps-close tube_in) (λ v. Keeps-child_loop fuel rounds)) in
      (Returns-ok (main_child accepted listenfd fuel rounds s)
        (Returns-and_then _ (accept_slaves-Returns fds busy list) (λ u. loop)) e).holds
