-- ===== src/Exchange.antt =====
-- slave.c, client.c and master.c, two at a time: each reads what the other one writes.
pub mod Resume
pub mod Get
pub mod Put
pub mod Orders
pub mod Questions
pub mod Empty
pub mod Stale
pub mod Handover
pub mod Examples
mod TypedExamples
use semestre.Base.{ℕ, suc, ◌-◌, ◌∷◌, List, Bytes, length}
use semestre.Posix.Int.{encode_int}
use semestre.Posix.Run.{◌>>◌}
use semestre.Protocol.{client_crashed_during_transfert, envoi_info}
use semestre.Protocol.Blocks.{rounds, oks}
use semestre.Slave.{Slave, clientfd}
use semestre.Slave.Crash.{envoi_info_crash_to_client}
use semestre.Slave.Crash.Resumes.{resumed}

-- The slave's part of a resumption, from the first code to the client on.
unfoldable pub slave_resumes : ℕ → Slave (Unit {0})
slave_resumes fuel =
    envoi_info clientfd client_crashed_during_transfert >> envoi_info_crash_to_client fuel

-- The messages of the slave, and the client's answers to them.
abbrev pub to_client : Bytes → Bytes → ℕ → List Bytes
to_client name c r = encode_int client_crashed_during_transfert ∷ resumed name c r

abbrev pub to_slave : Bytes → ℕ → List Bytes
to_slave c r = oks (suc (suc (suc (suc (rounds (length c - r))))))
