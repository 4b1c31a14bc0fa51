-- ===== src/Master/Dispatch.antt =====
-- The table `busy` over the handlers of master.c.
use semestre.Master.Tables.{AllBusy, FirstFree, slave_not_busy-cases}
use semestre.Base.{
  ℕ, ◌≡◌, ◌∙◌, Bool, Option, none, some, List, Bytes, set, ◌||◌, true, ◌⊎◌, inl, inr, if◌then◌else◌,
  refl, false, Bool-cases,
}
use semestre.Posix.Int.{ℤ, eq_ℤ}
use semestre.Posix.Run.{Run, ok, exited, fault, out_of_fuel}
use semestre.Posix.Calls.{recv, send}
use semestre.Posix.Keeps.{
  Returns, returned, ended, faulted, spent, Keeps, keeps_rules, Keeps-bind, Returns-ok,
}
use semestre.Protocol.{slave_finished, client_crashed, client_crashed_during_transfert}
use semestre.StockIp.{Nodes, Mem}
use semestre.Master.{Vars, MasterState, assign, on_nodes, pos, negsuc, slave_not_busy}
use semestre.Master.Rules.{
  On, Robust, Keeps-assign, Keeps-on_nodes, Keeps-acknowledge, Keeps-register_crash_transfert,
  Keeps-present_client,
}
use semestre.Master.Events.{
  drop_crash, add_crash, on_code, give_to, give_free, on_client, set_busy, give_client,
}

-- The table is as in `b`.
abbrev BusyIs : List Bool → MasterState → Type 0
BusyIs b s = On (λ v. v.busy ≡ b) s

any_result :
    {A : Type 0} {Q : Nodes → Type 0} (r : Run Nodes A) → ((st : Nodes) → Q st) → Returns Q r
any_result (ok a st) h = returned (h st)
any_result (exited st) h = ended
any_result fault h = faulted
any_result (out_of_fuel st) h = spent

module _ {b : List Bool} where
  Keeps-any : {A : Type 0} (m : Mem A) → Keeps (BusyIs b) (on_nodes m)
  Keeps-any m = Keeps-on_nodes m (λ v h. any_result (m v.nodes) (λ st. h))

  Keeps-assign_busy :
      (f : Vars → Vars) → ((v : Vars) → (f v).busy ≡ v.busy) → Keeps (BusyIs b) (assign f)
  Keeps-assign_busy f same = Keeps-assign f (λ v h. same v ∙ h)

  Keeps-add_crash : (ip : Bytes) (nb : ℤ) (file : Bytes) → Keeps (BusyIs b) (add_crash ip nb file)
  unfolding add_crash
  Keeps-add_crash ip nb file = search (keeps_rules, Keeps-any, Keeps-assign_busy) depth 8

  Keeps-drop_crash : (fuel : ℕ) (ip : Bytes) → Keeps (BusyIs b) (drop_crash fuel ip)
  unfolding drop_crash
  Keeps-drop_crash fuel ip = search (keeps_rules, Keeps-any, Keeps-assign_busy) depth 8

  busy_law : Robust (λ v. v.busy ≡ b)
  busy_law = record { info = λ z v h. h; adds = Keeps-add_crash; drops = Keeps-drop_crash }

-- The codes at which a slave counts as free again.
abbrev pub is_freeing : ℤ → Bool
is_freeing z =
    eq_ℤ z slave_finished || (eq_ℤ z client_crashed || eq_ℤ z client_crashed_during_transfert)

on_code-Returns :
    (ip : Bytes) (nb : ℤ) (name : Bytes) (i fd : ℕ) (info : ℤ) (s : MasterState)
    → Returns
        (BusyIs (if is_freeing info then set s.vars.busy i false else s.vars.busy))
        (on_code ip nb name i fd info s)
unfolding on_code set_busy
on_code-Returns ip nb name i fd info s = elim (Bool-cases (eq_ℤ info slave_finished)) [
  | inl a ↦ rw a (returned (record { holds = refl }))
  | inr a ↦ rw a (elim (Bool-cases (eq_ℤ info client_crashed)) [
    | inl b ↦ rw b (returned (record { holds = refl }))
    | inr b ↦ rw b (elim (Bool-cases (eq_ℤ info client_crashed_during_transfert)) [
      | inl c ↦ rw c (
          (Keeps-bind _ _ (Keeps-acknowledge busy_law fd)
              (λ u. Keeps-register_crash_transfert busy_law ip nb name fd)).at
            _ (record { holds = refl }))
      | inr c ↦ rw c (returned (record { holds = refl }))
    ])
  ])
]

-- Whatever follows on the slave's connection, a code from slave `i` frees it in the table if it is
-- one of the three that slave.c ends a session with, and no code changes the table otherwise.
pub on_code-busy :
    (ip : Bytes) (nb : ℤ) (name : Bytes) (i fd : ℕ) (info : ℤ) (s t : MasterState)
    → on_code ip nb name i fd info s ≡ ok tt t
    → t.vars.busy ≡ (if is_freeing info then set s.vars.busy i false else s.vars.busy)
on_code-busy ip nb name i fd info s t e =
    (Returns-ok (on_code ip nb name i fd info s) (on_code-Returns ip nb name i fd info s) e).holds

give_to-Returns :
    (fuel id : ℕ) (o : Option ℕ) (ip : Bytes) (s : MasterState)
    → Returns (BusyIs (set s.vars.busy id true)) (give_to fuel id o ip s)
unfolding give_to give_client set_busy send
give_to-Returns fuel id none ip s = faulted
give_to-Returns fuel id (some fd) ip s =
    (Keeps-present_client busy_law fuel fd ip).at _ (record { holds = refl })

after_client : ℤ → List Bool → List Bool
after_client (pos id) busy = set busy id true
after_client (negsuc n) busy = busy

give_free-Returns :
    (fuel : ℕ) (z : ℤ) (s : MasterState)
    → Returns (BusyIs (after_client z s.vars.busy)) (give_free fuel z s)
unfolding give_free after_client
give_free-Returns fuel (negsuc n) s = returned (record { holds = refl })
give_free-Returns fuel (pos id) s = give_to-Returns fuel id _ _ s

on_client-Returns :
    (fuel : ℕ) (s : MasterState)
    → Returns (BusyIs (after_client (slave_not_busy s.vars.busy) s.vars.busy)) (on_client fuel s)
unfolding on_client recv
on_client-Returns fuel s = give_free-Returns fuel _ _

-- A client that comes is given to the first free slave, which is then busy, whatever that slave
-- answers; when all are busy the table stays as it is, and the client is given to nobody.
pub on_client-busy :
    (fuel : ℕ) (s t : MasterState)
    → on_client fuel s ≡ ok tt t
    → (AllBusy s.vars.busy × (t.vars.busy ≡ s.vars.busy))
      ⊎ ((k : ℕ) × FirstFree k s.vars.busy × (t.vars.busy ≡ set s.vars.busy k true))
unfolding after_client
on_client-busy fuel s t e =
    let h = (Returns-ok (on_client fuel s) (on_client-Returns fuel s) e).holds in
    elim (slave_not_busy-cases s.vars.busy) [
      | inl (all, none_free) ↦ inl (all, rw none_free at h)
      | inr (k, first, found) ↦ inr (k, first, rw found at h)
    ]
