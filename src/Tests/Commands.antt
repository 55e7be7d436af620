-- ===== src/Tests/Commands.antt =====
-- The theorems on file names and on the commands to a daemon, at concrete inputs.
use mpic.Prelude.{
  ◌≡◌, refl, true, false, none, some, [], bytes, arith, ℤ, pos, is_empty, c_str, take,
}
use mpic.Prelude.State.{Returns}
use mpic.Os.{Os, Call, daemon_pid_file_is_running}
use mpic.Options.{VariablesMap, new_options, after_slash}
use mpic.Options.Starting.{Ready, given_options}
use mpic.Options.Named.{Linked}
use mpic.Nfmpic.{Parser, ServiceMap, program}
use mpic.Nfmpic.Commanding.{commanding_calls, program-Answer}
use mpic.FileUtil.{get_file_name_without_ext, last_index}
use mpic.FileUtil.Stem.{base_name, stem, file_name-stem}
use mpic.Master.{State}
use mpic.Master.Daemon.Commands.{Answer}
use mpic.Tests.Posix.{posix, World, sys}
use mpic.Tests.Starting.{world}

file_name-stem_example :
    get_file_name_without_ext (bytes "/etc/mpic.d/echo")
    ≡ some (stem (base_name (bytes "/etc/mpic.d/echo")))
file_name-stem_example = file_name-stem (bytes "/etc/mpic.d/echo") (omega arith)

-- The directory's dot is not the name's, and only the last dot of the name counts.
dot_in_directory : stem (base_name (bytes "/etc/mpic.d/echo")) ≡ bytes "echo"
dot_in_directory = refl

two_dots : stem (base_name (bytes "/etc/echo.v2.cfg")) ≡ bytes "echo.v2"
two_dots = refl

-- A system on which a daemon runs with id 77.
abbrev daemon_up : Call → World → ℤ × World
daemon_up daemon_pid_file_is_running w = (pos 77, w)
daemon_up c w = sys c w

abbrev manned : Os
manned = record posix { sys = daemon_up }

-- `-k -r`
abbrev given : VariablesMap
given = record {
  name = none;
  help = false;
  worker_processes = none;
  kill = true;
  reload = true;
  status = false;
  newbin = false;
  foreground = false;
  debug = false;
  log_dir = none;
  pid = none;
  cfg = none;
  mod_file = none;
}

abbrev services : ServiceMap
services = record {
  tcp_thread_pool_size = none;
  http_thread_pool_size = none;
  tcp_port = none;
  http_ports = none;
  udp_ports = none;
}

abbrev parse : Parser
parse argv = some (given, services)

abbrev start : State manned
start = record {
  machine = record {
    world = world;
    events = [];
    exe_name = [];
    flags_log_dir = [];
    title = record { mem = λ a. 0; argv = []; environ = []; attached = false; g_last = 0 };
  };
  option = new_options;
  resource = 0;
  module_ptr = 0;
  dlmodule = none;
  can_reload = true;
  running = [];
  exiting = [];
}

has_name : is_empty (after_slash (c_str (take 11 (bytes "/bin/nfmpic")))) ≡ false
unfolding after_slash last_index
has_name = refl

abbrev linked : Linked manned
linked = record {
  size = λ w. 11;
  text = λ w. bytes "/bin/nfmpic";
  link = λ w. refl;
  short = λ w. refl;
  name = λ w. has_name;
}

abbrev ready : Ready manned (given_options [] given)
ready = record {
  directory = λ w. refl;
  cfg_exists = λ w. refl;
  cfg_readable = λ w. refl;
  module_exists = λ w. refl;
  module_readable = λ w. refl;
}

program-Answer_example :
    Returns
      (Answer start (commanding_calls start [] given true) (pos 0))
      (program manned parse 1 1 [] start)
program-Answer_example =
    program-Answer start [] given linked parse services ready true true 1 1 (λ w. refl) refl refl
      refl (refl, refl, refl, refl) refl (λ w. refl) (λ w. refl)
