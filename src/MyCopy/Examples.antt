-- ===== src/MyCopy/Examples.antt =====
-- A short file, and one that is not there.
use semestre.Base.{
  ◌≡◌, refl, true, none, some, [], ◌∷◌, ◌++◌, arith, codes, same_bytes, if◌then◌else◌,
}
use semestre.Posix.Run.{exited}
use semestre.Posix.Kernel.{queue, System, Process}
use semestre.Posix.Log.{written}
use semestre.MyCopy.{stdout, mycopy}
use semestre.MyCopy.Copies.{mycopy-copies}

abbrev plain_system : System
plain_system = record {
  resolve = λ cwd path. path;
  may_read = λ f. true;
  may_write = λ f. true;
  stat_works = λ f. true;
  enter = λ cwd path. some path;
  names = λ cwd d. some [];
  run_command = λ cwd args d. d;
}

abbrev one_file : Process (Unit {0})
one_file = record {
  vars = tt;
  os = record {
    system = plain_system;
    sockets = λ j. queue [];
    disk = λ f. if same_bytes f (codes "a") then some (codes "text") else none;
    handles = λ j. none;
    next_handle = 3;
    cwd = codes "/";
    log = [];
  };
}

mycopy-copies_example :
    (t : Process (Unit {0})) × (mycopy 5 (codes "a" ∷ []) one_file ≡ exited t)
    × (written stdout t.os.log ≡ written stdout [] ++ codes "text")
    × (t.os.disk (codes "a") ≡ some (codes "text"))
mycopy-copies_example =
    mycopy-copies 5 (codes "a") (codes "text") one_file refl refl (omega arith) (omega arith)
