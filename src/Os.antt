-- ===== src/Os.antt =====
-- What the code takes from outside: POSIX, libdaemon, the dynamic loader, and the methods of the
-- module and resource objects that a loaded library defines. All of it acts on an unknown `World`.
pub mod Machine
pub mod Kernel
use mpic.Prelude.{ℕ, ℤ, Bool, Option, List, Bytes}

pub data Signal : Type 0 where
  sighup sigint sigquit sigterm sigchld : Signal
  other : ℕ → Signal

-- The macros of `waitpid`'s status word: WIFEXITED, WIFSIGNALED and WCOREDUMP.
pub record WaitStatus : Type 0 where
  pub exited : Bool
  pub signaled : Bool
  pub core_dumped : Bool

-- The result of `sigwaitinfo`, whether errno is EINTR or EAGAIN after it, and `si_signo`.
pub record SigInfo : Type 0 where
  pub result : ℤ
  pub interrupted : Bool
  pub signo : Signal

-- Calls with a result of type `int` or `FILE*`, or with none that the code reads. `fopen` has a path
-- and a mode, and `fprintf` a file and the two numbers of its line.
pub data Call : Type 0 where
  fork : Call
  kill : ℕ → Signal → Call
  block unblock : List Signal → Call
  catch_sigchld catch_sigterm ignore_sigpipe : Call
  sleep usleep : ℕ → Call
  umask : ℕ → Call
  mkdir : Bytes → ℕ → Call
  make_directory : Bytes → Call
  file_exists file_readable : Bytes → Call
  dlclose free_library : ℕ → Call
  getpid wsa_startup : Call
  fopen : Bytes → Bytes → Call
  fprintf : ℕ → ℕ → ℤ → Call
  fflush fclose : ℕ → Call
  daemon_pid_file_is_running daemon_retval_init daemon_fork daemon_retval_done : Call
  daemon_close_all daemon_pid_file_create daemon_pid_file_remove : Call
  daemon_retval_wait : ℕ → Call
  daemon_retval_send : ℕ → Call
  daemon_pid_file_kill : Signal → Call
  daemon_pid_file_kill_wait : Signal → ℕ → Call

-- Code of the loaded library: the factory at an address, and virtual methods of its objects.
pub data Method : Type 0 where
  new_object : ℕ → Method
  resource_init : ℕ → Method
  set_resource : ℕ → ℕ → Method
  init_in_master init_in_worker run uninit : ℕ → Method

-- A call of a method gives an `int`, a `bool` (as 0 or another number) or a pointer, and `none` if
-- it throws. Pointers and handles are numbers, and 0 is NULL.
pub record Os : Type 1 where
  pub World : Type 0
  pub sys : Call → World → ℤ × World
  pub method : Method → World → Option ℤ × World
  pub waitpid : World → (ℤ × WaitStatus) × World
  pub sigwaitinfo : World → SigInfo × World
  pub malloc : ℕ → World → ℕ × World
  pub stat : Bytes → World → (ℤ × Bool) × World
  pub realpath : Bytes → World → Option Bytes × World
  pub readlink : World → (ℤ × Bytes) × World
  pub dlopen : Bytes → World → ℕ × World
  pub dlsym : ℕ → Bytes → World → ℕ × World
  pub dlerror : World → Option Bytes × World
