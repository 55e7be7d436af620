-- ===== src/Tests/Starting.antt =====
-- The theorems on the options, file names and loaded libraries, at concrete inputs.
use mpic.Prelude.{refl, true, false, Option, none, some, List, [], ◌∷◌, Bytes, bytes, pos}
use mpic.Prelude.State.{Returns}
use mpic.Os.{Os}
use mpic.Os.Machine.{Machine}
use mpic.FileUtil.{slash}
use mpic.Options.{new_options, VariablesMap, init}
use mpic.Options.Paths.{Resolves, Accepted, init-Returns}
use mpic.Tests.Posix.{posix, World}

abbrev pub machine : (os : Os) → os.World → Machine os
machine os w = record {
  world = w;
  events = [];
  exe_name = bytes "nfmpic";
  flags_log_dir = [];
  title = record { mem = λ a. 0; argv = []; environ = []; attached = false; g_last = 0 };
}

abbrev pub world : World
world = record { next = 100; live = λ p. false; dead = []; signals = [] }

-- Every path is found below the root.
abbrev pub rooted : Os
rooted = record posix { realpath = λ path w. (some (slash ∷ path), w) }

abbrev pub rooted_resolves : Resolves rooted
rooted_resolves = record { found = λ path w. (slash ∷ path, refl, refl) }

-- `-c etc/echo.conf -k`
abbrev given : VariablesMap
given = record {
  name = none;
  help = false;
  worker_processes = some (pos 4);
  kill = true;
  reload = false;
  status = false;
  newbin = false;
  foreground = false;
  debug = false;
  log_dir = none;
  pid = none;
  cfg = some (bytes "etc/echo.conf");
  mod_file = none;
}

abbrev parse : List Bytes → Option VariablesMap
parse argv = some given

init-Returns_example :
    Returns (Accepted parse [] given) (init rooted parse [] new_options (machine rooted world))
init-Returns_example =
    init-Returns rooted_resolves parse [] given (machine rooted world) refl refl (tt, refl, tt, tt)
