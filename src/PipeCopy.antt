-- ===== src/PipeCopy.antt =====
-- SR/TP6/q3.c: the father reads his input and writes it into a pipe, the child reads the pipe and
-- writes it to the screen. The two run in any order, one call at a time. How many bytes a call moves
-- is up to the system: `k` says that it moves at most k + 1, and a call that moves none waits.
pub mod Way
pub mod Steps
pub mod Order
pub mod Progress
pub mod Ends
mod Examples
use semestre.Base.{
  ℕ, suc, ◌-◌, min, Bool, true, false, ◌||◌, List, [], ◌∷◌, ◌++◌, Bytes, length, take, drop,
}

-- Where the two are: at the `Close` of the end that they do not use, in front of a `Read`, in front
-- of the `Write` of what has been read, and behind their loops.
pub data Father : Type 0 where
  opening reading waiting gone : Father
  writing : Bytes → Father

pub data Child : Type 0 where
  beginning taking done : Child
  showing : Bytes → Child

-- `father_end` and `child_end` say who has the end of the pipe open that is written to.
pub record State : Type 0 where
  pub father : Father
  pub child : Child
  pub father_end : Bool
  pub child_end : Bool
  pub input : Bytes
  pub pipe : Bytes
  pub output : Bytes

-- Behind `Fork`, with `text` as the father's whole input.
unfoldable pub forked : Bytes → State
forked text = record {
  father = opening;
  child = beginning;
  father_end = true;
  child_end = true;
  input = text;
  pipe = [];
  output = [];
}

-- MAXLINE
abbrev pub maxline : ℕ
maxline = 8192

-- What the father's `Read` has given: at the end of the input the loop is over and `Close` follows.
unfoldable pub father_has : Bytes → State → State
father_has [] s = record s { father = waiting; father_end = false }
father_has (b ∷ bs) s = record s { father = writing (b ∷ bs) }

-- `Write` into the pipe, which has room for `size` bytes; `rest` is what is still to be written.
unfoldable pub father_left : Bytes → State → State
father_left [] s = record s { father = reading }
father_left (b ∷ rest) s = record s { father = writing (b ∷ rest) }

unfoldable pub father_write : ℕ → ℕ → Bytes → State → State
unfolding father_left
father_write size k bs s =
    let n = min (suc k) (size - length s.pipe) in
    father_left (drop n bs) (record s { pipe = s.pipe ++ take n bs })

-- `Waitpid`
unfoldable pub father_wait : Child → State → State
father_wait done s = record s { father = gone }
father_wait beginning s = s
father_wait taking s = s
father_wait (showing bs) s = s

unfoldable pub father_step : ℕ → ℕ → Father → State → State
unfolding father_has father_write father_wait
father_step size k opening s = record s { father = reading }
father_step size k reading s =
    let n = min (suc k) maxline in father_has (take n s.input) (record s { input = drop n s.input })
father_step size k (writing bs) s = father_write size k bs s
father_step size k waiting s = father_wait s.child s
father_step size k gone s = s

-- What the child's `Read` gives: with the pipe empty it waits as long as somebody can write to it.
unfoldable pub child_has : Bool → Bytes → State → State
child_has true [] s = s
child_has false [] s = record s { child = done }
child_has writable (b ∷ bs) s = record s { child = showing (b ∷ bs) }

unfoldable pub child_step : ℕ → Child → State → State
unfolding child_has
child_step k beginning s = record s { child = taking; child_end = false }
child_step k taking s =
    let n = min (suc k) maxline in
    child_has (s.father_end || s.child_end) (take n s.pipe) (record s { pipe = drop n s.pipe })
child_step k (showing bs) s = record s { child = taking; output = s.output ++ bs }
child_step k done s = s

pub data Turn : Type 0 where
  father_acts child_acts : ℕ → Turn

unfoldable pub step : ℕ → Turn → State → State
unfolding father_step child_step
step size (father_acts k) s = father_step size k s.father s
step size (child_acts k) s = child_step k s.child s

unfoldable pub run : ℕ → List Turn → State → State
unfolding step
run size [] s = s
run size (t ∷ ts) s = run size ts (step size t s)
