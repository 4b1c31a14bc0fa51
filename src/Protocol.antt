-- ===== src/Protocol.antt =====
-- SR/projet_ftp/define.h: the codes that master, slave and client send one another, and the two
-- helpers `envoi_info` (define.h) and `attente_reponse` (the same text in all three programs).
pub mod Blocks
pub mod Orders
pub mod Questions
use semestre.Base.{ℕ}
use semestre.Posix.Int.{ℤ, pos, encode_int}
use semestre.Posix.Kernel.{Wait, Call}
use semestre.Posix.Calls.{select, send}

abbrev pub slave_finished : ℤ
slave_finished = pos 0

abbrev pub client_crashed : ℤ
client_crashed = pos 4

abbrev pub client_crashed_during_transfert : ℤ
client_crashed_during_transfert = pos 2

abbrev pub default : ℤ
default = pos 3

abbrev pub ok_code : ℤ
ok_code = pos 1

abbrev pub error_open : ℤ
error_open = pos 2

abbrev pub not_impemented : ℤ
not_impemented = pos 3

abbrev pub short_timeout : ℕ
short_timeout = 3

abbrev pub long_timeout : ℕ
long_timeout = 90

abbrev pub nb_esclave : ℕ
nb_esclave = 1

-- MAXLINE of csapp.h and INET_ADDRSTRLEN of the system.
abbrev pub max_line : ℕ
max_line = 8192

abbrev pub inet_addrstrlen : ℕ
inet_addrstrlen = 16

module _ {G : Type 0} where
  unfoldable pub envoi_info : ℕ → ℤ → Call G (Unit {0})
  envoi_info fd info = send fd (encode_int info)

  -- How long a `select` waits shows in the script of arrivals, not in the value of `time`.
  unfoldable pub attente_reponse : ℕ → ℕ → Call G Wait
  attente_reponse fd time = select fd
