-- ===== src/Slave/Release.antt =====
-- slave.c and the master's table `busy`: the master takes a slave for free again when it reads one
-- of three codes. A slave that is done with its client has sent one of them.
pub mod Handlers
pub mod Commands
pub mod Silent
use semestre.Base.{
  ℕ, zero, suc, ◌+◌, ◌≤◌, ◌<◌, ◌≡◌, refl, ap, ◌∙◌, ◌⊎◌, inl, inr, Bool, true, false, ◌||◌, ◌&&◌,
  Option, none, some, List, [], ◌∷◌, arith, ◌==◌, if◌then◌else◌, Bytes, same_bytes, leb, ltb,
  length,
}
use semestre.Posix.Int.{ℤ, pos, negsuc, encode_int}
use semestre.Posix.Run.{ok, Prog, pure, ◌>>=◌, ◌>>◌, gets, modify}
use semestre.Posix.Kernel.{
  Socket, shut, queue, Wait, Got, got, failed, Event, wrote, closed, spawned, Kernel, Process, Call,
  sys, select_socket, read_socket, Handle,
}
use semestre.Posix.Calls.{select, recv, recv_int, send, close, ended, add_int, sub_int}
use semestre.Posix.Files.{
  Mode, open_file, read_file, write_file, seek_file, close_file, file_size, chdir, run_and_wait,
  list_directory,
}
use semestre.Posix.Calls.{into_int}
use semestre.Posix.Log.{
  select_socket-log, read_socket-log, install-log, read_handle-log, write_handle-log,
  seek_handle-log, moved-log,
}
use semestre.Posix.Keeps.{
  Returns, returned, faulted, Keeps, keeps_rules, Keeps-bind, Keeps-if, Keeps-modify, Keeps-pure,
}
use semestre.Protocol.{
  slave_finished, client_crashed, client_crashed_during_transfert, envoi_info, attente_reponse,
}
use semestre.Slave.{Vars, master, clientfd, Slave, SlaveState, assign, disconnect}

-- The codes at which master.c sets `busy[i] = 0`.
abbrev pub is_release : Bytes → Bool
is_release bs =
    same_bytes bs (encode_int slave_finished)
    || (same_bytes bs (encode_int client_crashed)
        || same_bytes bs (encode_int client_crashed_during_transfert))

-- How often one of them was written to the master.
abbrev pub releases : List Event → ℕ
releases [] = 0
releases (wrote fd bs ∷ l) = (if fd == master && is_release bs then 1 else 0) + releases l
releases (closed fd ∷ l) = releases l
releases (spawned args ∷ l) = releases l

-- Connected, or released since the log held `n` releases.
pub record IsLive (n : ℕ) (s : SlaveState) : Type 0 where
  pub grows : n ≤ releases s.os.log
  pub told : (s.vars.connected ≡ true) ⊎ (n < releases s.os.log)

pub releases-cons : (e : Event) (l : List Event) → releases l ≤ releases (e ∷ l)
releases-cons (wrote fd bs) l = omega arith
releases-cons (closed fd) l = omega arith
releases-cons (spawned args) l = omega arith

module _ {n : ℕ} where
  pub Keeps-assign :
      (f : Vars → Vars) → ((v : Vars) → (f v).connected ≡ v.connected) → Keeps (IsLive n) (assign f)
  Keeps-assign f same = record {
    at = λ s h. returned (record { grows = h.grows; told = ground (arith, same s.vars, h.told) });
  }

  -- A call that writes no event.
  pub Keeps-sys :
      {A : Type 0} (f : Kernel → A × Kernel)
      → ((k : Kernel) → (f k).1.log ≡ k.log)
      → Keeps (IsLive n) (sys f)
  Keeps-sys f same = record {
    at = λ s h. returned (record { grows = rw (same s.os) h.grows; told = rw (same s.os) h.told });
  }

  pub Keeps-attente_reponse : (fd time : ℕ) → Keeps (IsLive n) (attente_reponse fd time)
  unfolding attente_reponse select
  Keeps-attente_reponse fd time = Keeps-sys _ (λ k. select_socket-log fd (k.sockets fd) k)

  pub Keeps-recv : (fd m : ℕ) → Keeps (IsLive n) (recv fd m)
  unfolding recv
  Keeps-recv fd m = Keeps-sys _ (λ k. read_socket-log fd m (k.sockets fd) k)

  pub Keeps-recv_int : (fd : ℕ) (z : ℤ) → Keeps (IsLive n) (recv_int fd z)
  unfolding recv_int
  Keeps-recv_int fd z = Keeps-bind _ _ (Keeps-recv fd 4) (λ g. Keeps-pure (into_int z g))

  pub Keeps-open_file : (m : Mode) (path : Bytes) → Keeps (IsLive n) (open_file m path)
  unfolding open_file
  Keeps-open_file m path = Keeps-sys _ (λ k. install-log _ _ k)

  pub Keeps-read_file : (fd m : ℕ) → Keeps (IsLive n) (read_file fd m)
  unfolding read_file
  Keeps-read_file fd m = Keeps-sys _ (λ k. read_handle-log fd m (k.handles fd) k)

  pub Keeps-write_file : (fd : ℕ) (bs : Bytes) → Keeps (IsLive n) (write_file fd bs)
  unfolding write_file
  Keeps-write_file fd bs = Keeps-sys _ (λ k. write_handle-log fd bs (k.handles fd) k)

  pub Keeps-seek_file : (fd : ℕ) (z : ℤ) → Keeps (IsLive n) (seek_file fd z)
  unfolding seek_file
  Keeps-seek_file fd z = Keeps-sys _ (λ k. seek_handle-log fd z (k.handles fd) k)

  pub Keeps-file_size : (fd : ℕ) → Keeps (IsLive n) (file_size fd)
  unfolding file_size
  Keeps-file_size fd = Keeps-sys _ (λ k. refl)

  pub Keeps-list_directory : Keeps (IsLive n) list_directory
  unfolding list_directory
  Keeps-list_directory = Keeps-sys _ (λ k. refl)

  pub Keeps-chdir : (path : Bytes) → Keeps (IsLive n) (chdir path)
  unfolding chdir
  Keeps-chdir path = Keeps-sys _ (λ k. moved-log _ k)

  IsLive-more :
      {s t : SlaveState}
      → t.vars.connected ≡ s.vars.connected
      → releases s.os.log ≤ releases t.os.log
      → IsLive n s
      → IsLive n t
  IsLive-more {s} {t} same more h = record {
    grows = omega (arith, h.grows);
    told = elim h.told [ inl on ↦ inl (same ∙ on) | inr out ↦ inr (omega arith) ];
  }

  pub Keeps-send : (fd : ℕ) (bs : Bytes) → Keeps (IsLive n) (send fd bs)
  unfolding send
  Keeps-send fd bs = record {
    at = λ s h. returned (IsLive-more {s = s} refl (releases-cons (wrote fd bs) s.os.log) h);
  }

  pub Keeps-envoi_info : (fd : ℕ) (z : ℤ) → Keeps (IsLive n) (envoi_info fd z)
  unfolding envoi_info send
  Keeps-envoi_info fd z = Keeps-send fd (encode_int z)

  pub Keeps-close : (fd : ℕ) → Keeps (IsLive n) (close fd)
  unfolding close
  Keeps-close fd = record {
    at = λ s h. returned (IsLive-more {s = s} refl (releases-cons (closed fd) s.os.log) h);
  }

  pub Keeps-close_file : (fd : ℕ) → Keeps (IsLive n) (close_file fd)
  unfolding close_file
  Keeps-close_file fd = record {
    at = λ s h. returned (IsLive-more {s = s} refl (releases-cons (closed fd) s.os.log) h);
  }

  pub Keeps-run_and_wait : (args : List Bytes) → Keeps (IsLive n) (run_and_wait args)
  unfolding run_and_wait
  Keeps-run_and_wait args = record {
    at = λ s h. returned (IsLive-more {s = s} refl (releases-cons (spawned args) s.os.log) h);
  }

  IsLive-told :
      (t : SlaveState) (l : List Event) (z : ℤ)
      → is_release (encode_int z) ≡ true
      → n ≤ releases l
      → releases (wrote master (encode_int z) ∷ l) ≤ releases t.os.log
      → IsLive n t
  IsLive-told t l z known before after =
      let e : releases (wrote master (encode_int z) ∷ l) ≡ 1 + releases l = rw known in
      record { grows = omega arith; told = inr (omega arith) }

  -- The connection is given up and the master is told, in the three orders of the source.
  module _ {A : Type 0} (z : ℤ) (rest : Slave A) (known : is_release (encode_int z) ≡ true) where
    pub Keeps-disconnect_tell :
        Keeps (IsLive n) rest → Keeps (IsLive n) (disconnect >> (envoi_info master z >> rest))
    unfolding envoi_info send
    Keeps-disconnect_tell k = record {
      at = λ s h. k.at _ (IsLive-told _ s.os.log z known h.grows (omega arith));
    }

    pub Keeps-tell_disconnect :
        Keeps (IsLive n) rest → Keeps (IsLive n) (envoi_info master z >> (disconnect >> rest))
    unfolding envoi_info send
    Keeps-tell_disconnect k = record {
      at = λ s h. k.at _ (IsLive-told _ s.os.log z known h.grows (omega arith));
    }

  pub Keeps-close_tell :
      (z : ℤ)
      → is_release (encode_int z) ≡ true
      → Keeps (IsLive n) (disconnect >> (close clientfd >> envoi_info master z))
  unfolding envoi_info send close
  Keeps-close_tell z known = record {
    at = λ s h. returned (IsLive-told _ s.os.log z known h.grows (omega arith));
  }

pub ruleset call_rules = (
  keeps_rules, Keeps-attente_reponse, Keeps-recv, Keeps-recv_int, Keeps-open_file, Keeps-read_file,
  Keeps-write_file, Keeps-seek_file, Keeps-file_size, Keeps-list_directory, Keeps-chdir, Keeps-send,
  Keeps-envoi_info, Keeps-close, Keeps-close_file, Keeps-run_and_wait,
)
