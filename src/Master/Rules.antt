-- ===== src/Master/Rules.antt =====
-- What the handlers of master.c keep, whatever it is, if the changes of the list and of `info` do.
use semestre.Base.{ℕ, none, some, Option, Bytes}
use semestre.Posix.Int.{ℤ, encode_int}
use semestre.Posix.Run.{Run, ok, exited, fault, out_of_fuel}
use semestre.Posix.Kernel.{Got, got, failed, Kernel, sys}
use semestre.Posix.Calls.{recv, recv_int, send, select, into_int}
use semestre.Posix.Keeps.{
  Returns, returned, ended, faulted, spent, Keeps, keeps_rules, Keeps-bind, Keeps-pure, Keeps-crash,
}
use semestre.Protocol.{envoi_info, attente_reponse}
use semestre.StockIp.{Nodes, Mem, contain, bytes, file_name}
use semestre.StockIp.Rules as Queries
use semestre.Master.{Vars, MasterState, assign, lifted, on_nodes}
use semestre.Master.Events.{
  ended_past, acknowledge, add_crash, drop_crash, register_crash_transfert, send_name,
  envoi_info_crash, hand_crash, present_client,
}

-- A property of the variables, as one of the whole process.
pub record On (P : Vars → Type 0) (s : MasterState) : Type 0 where
  pub holds : P s.vars

module _ {P : Vars → Type 0} where
  pub Keeps-sys : {A : Type 0} (f : Kernel → A × Kernel) → Keeps (On P) (sys f)
  Keeps-sys f = record { at = λ s h. returned (record { holds = h.holds }) }

  pub Keeps-assign : (f : Vars → Vars) → ((v : Vars) → P v → P (f v)) → Keeps (On P) (assign f)
  Keeps-assign f same = record { at = λ s h. returned (record { holds = same s.vars h.holds }) }

  Returns-lifted :
      {A : Type 0} (r : Run Nodes A) (s : MasterState)
      → Returns (λ st. P (record s.vars { nodes = st })) r
      → Returns (On P) (lifted r s)
  Returns-lifted (ok a st) s (returned h) = returned (record { holds = h })
  Returns-lifted (exited st) s h = ended
  Returns-lifted fault s h = faulted
  Returns-lifted (out_of_fuel st) s h = spent

  pub Keeps-on_nodes :
      {A : Type 0} (m : Mem A)
      → ((v : Vars) → P v → Returns (λ st. P (record v { nodes = st })) (m v.nodes))
      → Keeps (On P) (on_nodes m)
  Keeps-on_nodes m k = record { at = λ s h. Returns-lifted (m s.vars.nodes) s (k s.vars h.holds) }

  pub Keeps-attente_reponse : (fd time : ℕ) → Keeps (On P) (attente_reponse fd time)
  unfolding attente_reponse select
  Keeps-attente_reponse fd time = Keeps-sys _

  pub Keeps-recv : (fd n : ℕ) → Keeps (On P) (recv fd n)
  unfolding recv
  Keeps-recv fd n = Keeps-sys _

  pub Keeps-recv_int : (fd : ℕ) (z : ℤ) → Keeps (On P) (recv_int fd z)
  unfolding recv_int
  Keeps-recv_int fd z = Keeps-bind _ _ (Keeps-recv fd 4) (λ g. Keeps-pure (into_int z g))

  pub Keeps-send : (fd : ℕ) (bs : Bytes) → Keeps (On P) (send fd bs)
  unfolding send
  Keeps-send fd bs = record { at = λ s h. returned (record { holds = h.holds }) }

  pub Keeps-envoi_info : (fd : ℕ) (z : ℤ) → Keeps (On P) (envoi_info fd z)
  unfolding envoi_info
  Keeps-envoi_info fd z = Keeps-send fd (encode_int z)

  pub Keeps-ended_past : (size : ℕ) (old : Bytes) (g : Got) → Keeps (On P) (ended_past size old g)
  unfolding ended_past
  Keeps-ended_past size old failed = search keeps_rules
  Keeps-ended_past size old (got bs) = search keeps_rules

  -- A query of the list.
  Keeps-query :
      {A : Type 0} (m : Mem A) → ((Q : Nodes → Type 0) → Keeps Q m) → Keeps (On P) (on_nodes m)
  Keeps-query m k = Keeps-on_nodes m (λ v h. (k _).at v.nodes h)

  pub Keeps-contain : (fuel head : ℕ) (ip : Bytes) → Keeps (On P) (on_nodes (contain fuel head ip))
  Keeps-contain fuel head ip = Keeps-query _ (λ Q. Queries.Keeps-contain fuel head ip)

  pub Keeps-bytes : (fuel head : ℕ) (ip : Bytes) → Keeps (On P) (on_nodes (bytes fuel head ip))
  Keeps-bytes fuel head ip = Keeps-query _ (λ Q. Queries.Keeps-bytes fuel head ip)

  pub Keeps-file_name :
      (fuel head : ℕ) (ip : Bytes) → Keeps (On P) (on_nodes (file_name fuel head ip))
  Keeps-file_name fuel head ip = Keeps-query _ (λ Q. Queries.Keeps-file_name fuel head ip)

  pub Keeps-send_name : (fd : ℕ) (o : Option Bytes) → Keeps (On P) (send_name fd o)
  unfolding send_name
  Keeps-send_name fd none = Keeps-crash
  Keeps-send_name fd (some name) = Keeps-send fd name

pub ruleset call_rules = (
  keeps_rules, Keeps-attente_reponse, Keeps-recv, Keeps-recv_int, Keeps-send, Keeps-envoi_info,
  Keeps-ended_past, Keeps-contain, Keeps-bytes, Keeps-file_name, Keeps-send_name,
)

-- What the dialogues about a cut transfer ask of a property of the variables.
pub record Robust (P : Vars → Type 0) : Type 0 where
  pub info : (z : ℤ) (v : Vars) → P v → P (record v { info = z })
  pub adds : (ip : Bytes) (nb : ℤ) (file : Bytes) → Keeps (On P) (add_crash ip nb file)
  pub drops : (fuel : ℕ) (ip : Bytes) → Keeps (On P) (drop_crash fuel ip)

module _ {P : Vars → Type 0} (law : Robust P) where
  pub Keeps-info : (z : ℤ) → Keeps (On P) (assign λ v. record v { info = z })
  Keeps-info z = Keeps-assign _ (law.info z)

  pub Keeps-acknowledge : (fd : ℕ) → Keeps (On P) (acknowledge fd)
  unfolding acknowledge
  Keeps-acknowledge fd = search (call_rules, Keeps-info)

  pub Keeps-register_crash_transfert :
      (ip : Bytes) (nb : ℤ) (name : Bytes) (fd : ℕ)
      → Keeps (On P) (register_crash_transfert ip nb name fd)
  unfolding register_crash_transfert
  Keeps-register_crash_transfert ip nb name fd =
      search (call_rules, Keeps-acknowledge, law.adds) depth 20

  Keeps-envoi_info_crash : (fuel fd : ℕ) (ip : Bytes) → Keeps (On P) (envoi_info_crash fuel fd ip)
  unfolding envoi_info_crash
  Keeps-envoi_info_crash fuel fd ip = search call_rules depth 14

  Keeps-hand_crash : (fuel fd : ℕ) (ip : Bytes) → Keeps (On P) (hand_crash fuel fd ip)
  unfolding hand_crash
  Keeps-hand_crash fuel fd ip =
      search (call_rules, Keeps-info, Keeps-envoi_info_crash, law.drops) depth 16

  pub Keeps-present_client : (fuel fd : ℕ) (ip : Bytes) → Keeps (On P) (present_client fuel fd ip)
  unfolding present_client
  Keeps-present_client fuel fd ip = search (call_rules, Keeps-info, Keeps-hand_crash) depth 16
