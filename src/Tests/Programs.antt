-- ===== src/Tests/Programs.antt =====
-- The theorems on the programs, their workers and their starts, on a small system on which forks give
-- the child's side, no daemon runs and no pid file can be written.
use mpic.Prelude.{ℤ, ◌≡◌, refl, true, false, none, some, [], ◌∷◌, bytes, pos, negsuc, arith}
use mpic.Prelude.State.{Returns, Exits, map_state, returned}
use mpic.Os.{
  Os, Call, fork, getpid, fopen, daemon_fork, daemon_pid_file_is_running, daemon_pid_file_create,
  daemon_retval_wait,
}
use mpic.Os.Machine.{Machine}
use mpic.Options.{VariablesMap, new_options}
use mpic.Framework
use mpic.Framework.Ending.{Ended, run-Ended}
use mpic.Nfmpic.{ServiceMap, new_network_options}
use mpic.Nfmpic
use mpic.Nfmpic.Services.{Serves, init-Serves}
use mpic.Monitor
use mpic.Monitor.Program
use mpic.Monitor.Lifetime.{Logged, spawn_child_worker-Logged}
use mpic.MasterWorkers
use mpic.MasterWorkers.CommandLine
use mpic.MasterWorkers.Program as OldProgram
use mpic.MasterWorkers.Lifetime.{Lived, spawn_child_worker-Lived}
use mpic.MasterWorkers.Likeness.{likeness}
use mpic.MasterWorkers.Daemon as OldDaemon
use mpic.MasterWorkers.Starting.{old_options, run-likeness}
use mpic.Master
use mpic.Master.Daemon
use mpic.Master.Workers
use mpic.Master.Workers.Lifetime
use mpic.Master.Workers.Lifetime.{Worked, spawn_child_worker-Worked}
use mpic.Master.Daemon.Commands.{Answer}
use mpic.Master.Daemon.Handshake.{Begins, after_daemon_fork-Begins}
use mpic.Tests.Posix.{posix, World, sys}
use mpic.Tests.Titles.{before}
use mpic.Tests.Starting.{machine, world, rooted, rooted_resolves}
use mpic.Tests.Serving.{servers, resource}

abbrev child_sys : Call → World → ℤ × World
child_sys fork w = (pos 0, w)
child_sys getpid w = (pos 42, w)
child_sys (fopen path mode) w = (pos 3, w)
child_sys daemon_pid_file_is_running w = (negsuc 0, w)
child_sys daemon_fork w = (pos 55, w)
child_sys daemon_pid_file_create w = (negsuc 0, w)
child_sys (daemon_retval_wait n) w = (pos 2, w)
child_sys c w = sys c w

abbrev child : Os
child = record posix { sys = child_sys }

abbrev process : Machine child
process = record {
  world = world;
  events = [];
  exe_name = bytes "demo";
  flags_log_dir = bytes "/tmp";
  title = before;
}

run-Ended_example :
    Exits
      (pos 0)
      (Ended (bytes "echo") 100 3 process)
      (Framework.run child (bytes "echo") (false ∷ false ∷ true ∷ []) process)
run-Ended_example = run-Ended (bytes "echo") 100 (104 ∷ []) 2 [] process (refl, refl, omega arith)

spawn_child_worker-Logged_example :
    Exits
      (pos 0)
      (Logged (pos 42) 100 3 process)
      (Monitor.spawn_child_worker child (Program.run_worker child) process)
spawn_child_worker-Logged_example =
    spawn_child_worker-Logged (pos 42) (λ w. refl) 100 3 (104 ∷ []) process refl (omega arith) refl
      (λ w. refl)

abbrev old_master : MasterWorkers.State child
old_master = record {
  machine = process;
  option = CommandLine.new_options;
  running = [];
  exiting = [];
}

spawn_child_worker-Lived_example : Exits (pos 0) (Lived 100 2 old_master) (
    MasterWorkers.spawn_child_worker child
      (OldProgram.worker_main child (false ∷ true ∷ []))
      CommandLine.new_options
      old_master)
spawn_child_worker-Lived_example =
    spawn_child_worker-Lived 100 1 (104 ∷ []) [] CommandLine.new_options old_master
      (refl, refl, omega arith) refl

abbrev master : Master.State child
master = record {
  machine = process;
  option = new_options;
  resource = 0;
  module_ptr = 0;
  dlmodule = none;
  can_reload = true;
  running = [];
  exiting = [];
}

after_daemon_fork-Begins_example :
    Returns
      (Answer master (daemon_retval_wait 10 ∷ []) (pos 2))
      (Daemon.after_daemon_fork child 5 5 new_options (pos 55) master)
    × Begins child master 2 5 5 new_options
        (Daemon.after_daemon_fork child 5 5 new_options (pos 0) master)
after_daemon_fork-Begins_example =
    after_daemon_fork-Begins child master master 54 2 5 5 new_options refl refl refl refl

abbrev idle : MasterWorkers.Routine child ℤ
idle s = returned (pos 0) s

run-likeness_example :
    OldDaemon.run child idle 5 5 (likeness (old_options new_options) master)
    ≡ map_state (likeness (old_options new_options)) (Daemon.run child 5 5 master)
run-likeness_example = run-likeness idle 5 5 master refl (λ w. refl)

-- `-f --tcp-port 0`
abbrev given : VariablesMap
given = record {
  name = none;
  help = false;
  worker_processes = none;
  kill = false;
  reload = false;
  status = false;
  newbin = false;
  foreground = true;
  debug = false;
  log_dir = none;
  pid = none;
  cfg = none;
  mod_file = none;
}

abbrev services : ServiceMap
services = record {
  tcp_thread_pool_size = none;
  http_thread_pool_size = none;
  tcp_port = some (pos 0);
  http_ports = none;
  udp_ports = none;
}

abbrev parse : Nfmpic.Parser
parse argv = some (given, services)

init-Serves_example :
    Returns
      (Serves servers parse [] given services (resource false false))
      (Nfmpic.init rooted parse [] new_network_options (machine rooted world))
init-Serves_example =
    init-Serves servers rooted_resolves parse [] given services (machine rooted world)
      (resource false false) refl refl (tt, tt, tt, tt) refl refl refl

-- Its module returns 5.
abbrev busy : Os
busy = record child { method = λ c w. (some (pos 5), w) }

abbrev worker : Master.State busy
worker = record {
  machine = record {
    world = world;
    events = [];
    exe_name = bytes "demo";
    flags_log_dir = [];
    title = before;
  };
  option = new_options;
  resource = 9;
  module_ptr = 8;
  dlmodule = none;
  can_reload = true;
  running = [];
  exiting = [];
}

serves : Lifetime.Serves busy 8 (pos 5)
serves = record {
  begun = pos 5;
  ended = pos 5;
  begins = λ w. refl;
  runs = λ w. refl;
  ends = λ w. refl;
}

spawn_child_worker-Worked_example :
    Exits
      (pos 5)
      (Worked 100 7 new_options worker)
      (Workers.spawn_child_worker busy new_options worker)
spawn_child_worker-Worked_example =
    spawn_child_worker-Worked 100 7 (104 ∷ []) (pos 5) new_options worker (refl, refl, omega arith)
      refl refl serves refl
