-- ===== src/Tests/Windows.antt =====
-- The theorems on Windows, on the small system, where `FreeLibrary` answers 1.
use mpic.Prelude.{ℤ, refl, true, false, Option, none, some, List, [], Bytes, bytes, pos}
use mpic.Prelude.State.{Returns}
use mpic.Os.{Os, Call, free_library}
use mpic.Os.Machine.{Machine}
use mpic.Options.{VariablesMap, new_options}
use mpic.Options.Applying.{AcceptedOn}
use mpic.Options.Windows.{windows, init}
use mpic.Options.Windows.Relative.{Same, init-AcceptedOn}
use mpic.Options.Starting.{Ready, given_options}
use mpic.Master.{State}
use mpic.Master.Loader.Lifecycle.{Loads}
use mpic.Nfmpic.Windows.{program}
use mpic.Nfmpic.Windows.Process.{Ended, program-Ended}
use mpic.Tests.Posix.{posix, World, sys}
use mpic.Tests.Starting.{world}
use mpic.Tests.Titles.{before}

abbrev freeing : Call → World → ℤ × World
freeing (free_library h) w = (pos 1, w)
freeing c w = sys c w

abbrev system : Os
system = record posix { sys = freeing }

-- `--mod=echo.dll -k`, with a relative path and an order that is not followed.
abbrev given : VariablesMap
given = record {
  name = none;
  help = false;
  worker_processes = none;
  kill = true;
  reload = false;
  status = false;
  newbin = false;
  foreground = false;
  debug = false;
  log_dir = none;
  pid = none;
  cfg = none;
  mod_file = some (bytes "echo.dll");
}

abbrev parse : List Bytes → Option VariablesMap
parse argv = some given

abbrev machine : Machine system
machine = record { world = world; events = []; exe_name = []; flags_log_dir = []; title = before }

abbrev start : State system
start = record {
  machine = machine;
  option = new_options;
  resource = 0;
  module_ptr = 0;
  dlmodule = none;
  can_reload = true;
  running = [];
  exiting = [];
}

abbrev library : Loads system (bytes "echo.dll")
library = record {
  handle = 6;
  resource_factory = 8;
  module_factory = 8;
  resource = 0;
  module_ptr = 0;
  nothing = pos 1;
  exists = λ w. refl;
  readable = λ w. refl;
  opens = λ w. refl;
  has_resource = λ w. refl;
  has_module = λ w. refl;
  makes_resource = λ w. refl;
  inits_resource = λ w. refl;
  makes_module = λ w. refl;
  takes_resource = λ w. refl;
  inits_module = λ w. refl;
  ends_module = λ w. refl;
  closes = λ w. refl;
}

abbrev ready : Ready system (given_options [] given)
ready = record {
  directory = λ w. refl;
  cfg_exists = λ w. refl;
  cfg_readable = λ w. refl;
  module_exists = λ w. refl;
  module_readable = λ w. refl;
}

program-Ended_example : Returns (Ended start [] given library) (program system parse [] start)
program-Ended_example =
    program-Ended start [] given library parse ready (pos 1) (pos 1) 0 refl refl (tt, tt, tt, refl)
      (λ w. refl) (λ w. refl) (λ w. refl)

init-AcceptedOn_example :
    Returns
      (AcceptedOn (windows system) Same parse [] given)
      (init system parse [] new_options machine)
init-AcceptedOn_example = init-AcceptedOn parse [] given machine refl refl (tt, tt, tt, refl)
