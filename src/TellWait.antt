-- ===== src/TellWait.antt =====
-- SR/TD4/tell_wait.c: two processes that tell each other to go on by SIGUSR1 and SIGUSR2. A signal
-- that is sent is pending until `sigsuspend` lets it in, and one that is pending already is not
-- counted twice. The programs are lists of calls.
use semestre.Base.{Bool, true, false, ◌||◌, List, [], ◌∷◌, ◌++◌, Bytes, ℕ, if◌then◌else◌}

-- `sigflag_child` and `sigflag_parent` of one process, and its pending signals.
pub record Signals : Type 0 where
  pub sigflag_child : Bool
  pub sigflag_parent : Bool
  pub pending_usr1 : Bool
  pub pending_usr2 : Bool

-- The calls of a program: the five of tell_wait.c but for `init_synchro`, and `putc`.
pub data Action : Type 0 where
  tell_parent wait_parent tell_child wait_child : Action
  putc : ℕ → Action

pub record Process : Type 0 where
  pub todo : List Action
  pub signals : Signals

pub record Pair : Type 0 where
  pub parent : Process
  pub child : Process
  pub output : Bytes

-- Behind `init_synchro`: both signals are blocked and have their handlers.
abbrev pub init_synchro : Signals
init_synchro = record {
  sigflag_child = false;
  sigflag_parent = false;
  pending_usr1 = false;
  pending_usr2 = false;
}

-- `sigsuspend(&oldmask)` returns when a signal was pending, behind the handlers of all that were;
-- with none pending the process stays where it is, and the call is made again.
unfoldable pub sigsuspend : Signals → Signals
sigsuspend s = record {
  sigflag_child = s.sigflag_child || s.pending_usr1;
  sigflag_parent = s.sigflag_parent || s.pending_usr2;
  pending_usr1 = false;
  pending_usr2 = false;
}

-- One round of the loop of a wait, and the reset behind it.
unfoldable pub wait_parent_at : List Action → Signals → Process
unfolding sigsuspend
wait_parent_at rest s =
    if s.sigflag_parent
    then record { todo = rest; signals = record s { sigflag_parent = false } }
    else record { todo = wait_parent ∷ rest; signals = sigsuspend s }

unfoldable pub wait_child_at : List Action → Signals → Process
unfolding sigsuspend
wait_child_at rest s =
    if s.sigflag_child
    then record { todo = rest; signals = record s { sigflag_child = false } }
    else record { todo = wait_child ∷ rest; signals = sigsuspend s }

-- `kill`, of the process that gets the signal.
abbrev pub kill_usr1 : Process → Process
kill_usr1 p = record { todo = p.todo; signals = record p.signals { pending_usr1 = true } }

abbrev pub kill_usr2 : Process → Process
kill_usr2 p = record { todo = p.todo; signals = record p.signals { pending_usr2 = true } }

-- One call of a process: it, the process at the other end, and the output behind the call.
unfoldable pub act : List Action → Signals → Process → Bytes → Process × Process × Bytes
unfolding wait_parent_at wait_child_at
act [] s other out = (record { todo = []; signals = s }, other, out)
act (tell_parent ∷ rest) s other out = (record { todo = rest; signals = s }, kill_usr1 other, out)
act (tell_child ∷ rest) s other out = (record { todo = rest; signals = s }, kill_usr2 other, out)
act (wait_parent ∷ rest) s other out = (wait_parent_at rest s, other, out)
act (wait_child ∷ rest) s other out = (wait_child_at rest s, other, out)
act (putc c ∷ rest) s other out = (record { todo = rest; signals = s }, other, out ++ (c ∷ []))

pub data Turn : Type 0 where
  parent_acts child_acts : Turn

unfoldable pub step : Turn → Pair → Pair
unfolding act
step parent_acts s =
    let (p, c, out) = act s.parent.todo s.parent.signals s.child s.output in
    record { parent = p; child = c; output = out }
step child_acts s =
    let (c, p, out) = act s.child.todo s.child.signals s.parent s.output in
    record { parent = p; child = c; output = out }

unfoldable pub run : List Turn → Pair → Pair
unfolding step
run [] s = s
run (t ∷ ts) s = run ts (step t s)
