-- ===== src/Lib.antt =====
-- mpic is a framework for network servers with one master process and N worker processes. The
-- application is a shared library that defines a Resource and a Module object. The master loads
-- it, forks the workers, which run the module, and supervises them by signals: SIGCHLD starts a
-- worker again that has ended, SIGHUP replaces all workers, SIGTERM ends them. A second invocation
-- with -k, -r or -s finds the master by its pid file and signals it.
--
-- The parts, and the files that model them:
--
-- Os (Os.antt) is what the code takes from outside: POSIX, libdaemon, dlopen and the virtual
-- methods of the loaded objects, as functions on an unknown world. Os/Machine.antt is the state
-- that all code shares: that world, the list of calls made, the static name of Option::GetExeName,
-- FLAGS_log_dir, and the memory of the title. Os/Kernel.antt states the documented behaviour of
-- fork and waitpid that theorems assume: IsKernel (every fork succeeds, seen by the parent, with a
-- new id; waitpid gives a child) and IsQuiet (a bound on the children that waitpid has still to
-- report).
--
-- mpic/internal/file_util.cc is FileUtil.antt: GetFileNameWithoutExt is get_file_name_without_ext,
-- with the wrap-around of size_t, and RealPath is real_path. A NULL from realpath ends the
-- process, as std::string(NULL) does. FileUtil/Stem.antt has the name that is meant, by recursion.
--
-- mpic/internal/dynlib.cc is DynLib.antt: Load, Unload, GetSymbol and GetError are load, unload,
-- get_symbol and get_error.
--
-- mpic/option.cc and option.h are Options.antt: the class is the record Options, Init is init, and
-- what boost reads from the command line is its argument parse. AddOption only hands a description
-- to boost and is left out.
--
-- mpic/title.cc is Title.antt: the process title over a memory of bytes; Init is init and Set is
-- set. A malloc that fails leaves g_last NULL, and a later set then faults.
--
-- mpic/master.h is Master.antt (the fields as the record State) and Master/Processes.antt
-- (ProcessMap, a sorted association list with the operations of std::map that the code calls). The
-- methods of mpic/master.cc and mpic/master_linux.cc are Master/Loader.antt (LoadModule,
-- InitResource, InitModule, UnloadModule), Master/Workers.antt (SpawnChildWorker,
-- SpawnChildWorkers, KillChildren), Master/Signals.antt (RunMaster, HandleSIGHUB, HandleSIGCHLD)
-- and Master/Daemon.antt (Init, Run, RunMainRoutine, RunForeground, RunAsDaemon, KillDaemon,
-- ReloadDaemon, CheckStatus). A routine is a function from State to an Outcome
-- (Prelude/State.antt): it returns, or the process exits or aborts (a failed fork is logged as
-- fatal, an exception is not caught, a NULL is read), or a loop has used up its rounds.
-- RunMaster's loop takes a number of rounds and HandleSIGCHLD's a number of fuel. HandleSIGCHLD
-- ends when waitpid has nothing to report, so fuel above that number is enough; the main loop runs
-- for ever unless it is stopped, so its theorems hold for every number of rounds.
-- Master/Fleet.antt is what the master promises, with the maps, the calls and the signals
-- forgotten: two sets of processes and the steps that change them.
--
-- examples/monitor-worker/monitor.cc is Monitor.antt: a monitor with a single worker, whose main
-- routine is the client's and an argument of the definitions. RunMonitor is run_monitor with its
-- loop main_loop, RunAsDaemon is run_as_daemon and ReloadDaemon is reload_daemon.
--
-- apps/modules/echo/nfmpic_resource.cc, with the fields of apps/nfmpic/option.h, is Servers.antt:
-- the resource object of the echo module. Init, AfterFork, RunServers and StopServers are init,
-- after_forking, run_servers and stop_servers. The servers are evpp's, and the record Evpp stands
-- for them. The option object is an nfmpic::Option, as main.cc makes it, so the assertion of Init
-- holds. The last loop of StopServers takes a number of fuel; fuel above the seconds that the
-- servers still need is enough.
--
-- apps/modules/echo/echo_module.cc is Echo.antt: InitInWorker, Run and the handler of SIGTERM are
-- init_in_worker, run and on_sigterm, and OnTCPMessage is on_tcp_message. Run takes a list that
-- says during which of its sleeps SIGTERM comes; a signal that comes between two sleeps counts for
-- the next. A SIGTERM after the loop is left out. serve is InitInWorker and then Run, as the
-- master calls them. A worker's field trace, which no code reads, puts the calls of the process and
-- the requests to the servers in one order.
--
-- examples/master-workers/master.cc, with master.h, is MasterWorkers.antt, an older master of a
-- fixed routine, which is the client's and a parameter: RunMaster is run_master with its loop
-- main_loop, SIGCHLD is handle_sigchld, SIGHUP is handle_sighub and KillAllChildren is
-- kill_all_children. Its daemon commands are MasterWorkers/Daemon.antt. Option::Init of option.cc
-- is MasterWorkers/CommandLine.antt, where gflags' variables are the record Flags. Its GetExeName
-- and RealPath, its file_util.cc and its title.cc are copies of the library's, and the definitions
-- of those are used. MasterWorkers/Likeness.antt compares it with the library's master.
--
-- examples/daemon/daemonizer.cc, with main.cc, is Daemonizer.antt: Init is init, the destructor is
-- destroy, and main is main.
--
-- Farewell.antt is what the handlers of SIGTERM in apps/modules/echo/echo_module.cc,
-- examples/mpic-framework/main.cc and examples/master-workers/main.cc have in common: the title
-- that tells the end of a worker.
--
-- The programs. apps/nfmpic is Nfmpic.antt: Option::Init of option.h is init, over what boost
-- reads of both groups of options, the startup hook of main-inl.h is on_startup, main.cc is main,
-- and program is both hooks and then main. The same hook of mpic/internal/inner_pre.cc is
-- StartUp.antt. examples/mpic-framework, main.cc and its echo module, is Framework.antt.
-- examples/master-workers/main.cc is MasterWorkers/Program.antt and
-- examples/monitor-worker/main.cc is Monitor/Program.antt. A worker whose loop has no end of its
-- own takes a list that says during which of its sleeps SIGTERM comes, and is unfinished when the
-- list is used up.
--
-- Windows. What Option::Init does otherwise there is the record Platform of Options.antt, an argument
-- of init_on; init is init_on of linux, and that of Options/Windows.antt is init_on of windows, where
-- RealPath gives its path back and mkdir is _mkdir. DynLib::Unload is unload and unload_on_windows.
-- mpic/master_win32.cc is Master/Windows.antt, with the methods of mpic/master.cc that RunMaster is
-- called by, and Nfmpic/Windows.antt is the process of nfmpic: its startup hook, main and the
-- destructor of the master. There dlopen, dlsym and dlerror stand for LoadLibraryA, GetProcAddress and
-- FormatMessage.
--
-- Not modelled: log lines (but the fatal one), messages on stdout and stderr, the setting up of
-- glog, the destructors of objects (but the Master's, which is UnloadModule, and the
-- Daemonizer's), how boost and gflags parse a command line, the macros of mpic/platform_config.h
-- for sleep and usleep on Windows, and third-party code.
pub mod Prelude
pub mod Title
pub mod Os
pub mod FileUtil
pub mod DynLib
pub mod Options
pub mod Master
pub mod Daemonizer
pub mod Echo
pub mod Farewell
pub mod Framework
pub mod MasterWorkers
pub mod Monitor
pub mod Nfmpic
pub mod Servers
pub mod StartUp
pub mod Tests
