-- ===== src/Tests/Loading.antt =====
-- The theorem on a module's library, on the small system, whose library answers 1 to everything.
use mpic.Prelude.{◌≡◌, refl, true, false, none, some, inr, [], ◌∷◌, ◌++◌, bytes, pos, arith}
use mpic.Prelude.State.{returned, Returns, and_then}
use mpic.Master.{State}
use mpic.Master.Loader.{load_module, unload_module}
use mpic.Master.Loader.Lifecycle.{Loads, loading, unloading, load_unload, load_module-unload}
use mpic.Master.Loader.Holding.{Fair}
use mpic.Master.Loader.Cleaning.{Cleaned, load_module-Cleaned}
use mpic.Os.{Os}
use mpic.Options.{Options, new_options}
use mpic.Master.Signals.{run_master, main_loop}
use mpic.Master.Signals.Launch.{Launched, run_master-Launched}
use mpic.Master.Frame.{calls}
use mpic.Master.Daemon.{after_daemon_fork, finish}
use mpic.Master.Daemon.Handshake.{served_calls}
use mpic.Master.Daemon.Serving.{serving, after_daemon_fork-Launched}
use mpic.Tests.Posix.{posix, kernel}
use mpic.Tests.Titles.{before}
use mpic.Tests.Starting.{machine, world}

abbrev state : State posix
state = record {
  machine = machine posix world;
  option = record new_options { module_file = bytes "/tmp/echo.so" };
  resource = 0;
  module_ptr = 0;
  dlmodule = none;
  can_reload = true;
  running = [];
  exiting = [];
}

abbrev pub loads : Loads posix (bytes "/tmp/echo.so")
loads = record {
  handle = 6;
  resource_factory = 8;
  module_factory = 8;
  resource = 0;
  module_ptr = 0;
  nothing = pos 1;
  exists = λ w. refl;
  readable = λ w. refl;
  opens = λ w. refl;
  has_resource = λ w. refl;
  has_module = λ w. refl;
  makes_resource = λ w. refl;
  inits_resource = λ w. refl;
  makes_module = λ w. refl;
  takes_resource = λ w. refl;
  inits_module = λ w. refl;
  ends_module = λ w. refl;
  closes = λ w. refl;
}

load_module-unload_example :
    Returns
      (λ ok u.
        (ok ≡ true)
        × (u.module_ptr ≡ 1)
        × (u.resource ≡ 1)
        × (u.machine.events ≡ loading state loads))
      (load_module posix state)
    × Returns
        (λ ok u.
          (ok ≡ true)
          × (u.machine.events ≡ loading state loads ++ unloading state loads)
          × (u.module_ptr ≡ 0)
          × (u.resource ≡ 0)
          × (u.dlmodule ≡ none)
          × (u.running ≡ [])
          × (u.exiting ≡ [])
          × (unload_module posix u ≡ returned tt u))
        (load_unload posix state)
load_module-unload_example = load_module-unload state loads

-- A library that can be opened, but has no factories.
abbrev lacking : Os
lacking = record posix {
  dlsym = λ h name w. (0, w);
  dlerror = λ w. (some (bytes "undefined symbol"), w);
}

abbrev fair : Fair lacking
fair = record {
  open_text = λ path w e. (bytes "undefined symbol", refl);
  symbol_text = λ h name w e. (bytes "undefined symbol", refl);
  close_text = λ h w e. (bytes "undefined symbol", refl);
  makes = λ p w. inr (0, refl);
  takes = λ a r w. (pos 1, refl);
  ends = λ a w. (pos 1, refl);
}

abbrev unlucky : State lacking
unlucky = record {
  machine = machine lacking world;
  option = record new_options { module_file = bytes "/tmp/echo.so" };
  resource = 0;
  module_ptr = 0;
  dlmodule = none;
  can_reload = true;
  running = [];
  exiting = [];
}

load_module-Cleaned_example : Returns (Cleaned unlucky) (load_unload lacking unlucky)
load_module-Cleaned_example = load_module-Cleaned fair unlucky

-- Two workers, and a title's space.
abbrev two_workers : Options
two_workers = record new_options { module_file = bytes "/tmp/echo.so"; worker_processes = pos 2 }

abbrev fresh : State posix
fresh = record state {
  machine = record (machine posix world) { title = before };
  option = two_workers;
}

run_master-Launched_example :
    (t : State posix) × (run_master posix 9 5 two_workers fresh
      ≡ main_loop posix 9 5 two_workers false t)
    × Launched kernel two_workers fresh loads t
run_master-Launched_example =
    run_master-Launched kernel two_workers 9 5 100 (104 ∷ []) fresh loads (refl, refl, omega arith)
      refl refl refl (λ p. ground arith)

after_daemon_fork-Launched_example :
    (u : State posix) × (after_daemon_fork posix 9 5 two_workers (pos 0) fresh
      ≡ and_then (main_loop posix 9 5 two_workers false u) (λ _. finish posix 0))
    × Launched kernel two_workers (serving kernel fresh) loads u
    × (calls (serving kernel fresh).machine.events ≡ served_calls)
after_daemon_fork-Launched_example =
    after_daemon_fork-Launched kernel fresh 9 5 100 (104 ∷ []) loads (refl, refl, omega arith) refl
      refl refl refl refl (λ p. ground arith)
