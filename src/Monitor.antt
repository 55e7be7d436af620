-- ===== src/Monitor.antt =====
-- examples/monitor-worker/monitor.cc: a monitor process that keeps one worker alive. The worker's
-- main routine, `worker_main_routine_`, is the client's and a parameter.
pub mod Watching
pub mod Launch
pub mod Stopping
pub mod Reloading
pub mod Program
pub mod Lifetime
use mpic.Prelude.{
  is_zero, is_negative, is_positive, ℕ, zero, suc, Bool, true, false, not, Option, none, some, List,
  [], ◌∷◌, ◌++◌, ℤ, pos, negsuc, ltb, ◌==◌, is_empty, Bytes, bytes, c_str, take, drop,
  if◌then◌else◌,
}
use mpic.Prelude.State.{returned, exited, unfinished, ◌>>=◌, ◌>>◌, pure, abort}
use mpic.Os.{
  Os, Signal, sigterm, sighup, sigchld, sigint, sigquit, other, WaitStatus, SigInfo, fork, kill,
  block, unblock, catch_sigchld, umask, daemon_pid_file_is_running, daemon_retval_init, daemon_fork,
  daemon_retval_done, daemon_close_all, daemon_pid_file_create, daemon_pid_file_remove,
  daemon_retval_wait, daemon_retval_send, daemon_pid_file_kill,
}
use mpic.Os.Kernel.{reports_end}
use mpic.Os.Machine.{M, sys, waitpid, sigwaitinfo, readlink, set_title, init_title}
use mpic.FileUtil.{last_index, slash}

-- The signals that the monitor blocks.
abbrev pub sigset : List Signal
sigset = sigchld ∷ sigterm ∷ sighup ∷ sigint ∷ sigquit ∷ []

-- What `strrchr` and the two assignments take from the link: all of it, or the part after the last
-- slash.
after_last : Bytes → Option ℕ → Bytes
after_last path none = path
after_last path (some i) = drop (suc i) path

-- What a round of the loop comes to: another round with this child and this `exiting`, or a return.
pub data Next : Type 0 where
  again : ℕ → Bool → Next
  return_ : ℤ → Next

module _ (os : Os) where
  read_exe_name : ℤ × Bytes → M os Bytes
  unfolding after_last
  read_exe_name (negsuc n, buf) m = returned m.exe_name m
  read_exe_name (pos n, buf) m =
      let path = c_str (take n buf) in
      let name = after_last path (last_index slash path) in
      if ltb n 1024 then returned name (record m { exe_name = name }) else returned m.exe_name m

  -- `GetExeName`. It runs before `main`, to set `g_exe_name`, which every other use reads.
  unfoldable pub get_exe_name : M os Bytes
  unfolding read_exe_name
  get_exe_name m =
      if is_empty m.exe_name
      then (do link ← readlink os; read_exe_name link) m
      else returned m.exe_name m

  -- What follows `fork`, by its result.
  unfoldable pub after_fork : M os ℤ → ℤ → M os ℕ
  after_fork worker_main (negsuc n) = abort
  after_fork worker_main (pos zero) = λ m.
      (do
        set_title os (m.exe_name ++ bytes "(mpic): worker process")
        _ ← sys os (unblock sigset)
        code ← worker_main
        exited code)
        m
  after_fork worker_main (pos (suc n)) = pure (suc n)

  unfoldable pub spawn_child_worker : M os ℤ → M os ℕ
  unfolding after_fork
  spawn_child_worker worker_main = do pid ← sys os fork; after_fork worker_main pid

  -- The end of process `pid`, with the monitor's `child` and `exiting`.
  unfoldable pub child_ended : M os ℤ → ℕ → Bool → ℕ → M os Next
  unfolding spawn_child_worker
  child_ended worker_main child exiting pid =
      if exiting
      then pure (return_ (pos 0))
      else if pid == child
      then (do next ← spawn_child_worker worker_main; pure (again next exiting))
      else pure (again child exiting)

  -- What follows `waitpid`.
  unfoldable pub after_waitpid : M os ℤ → ℕ → Bool → ℤ × WaitStatus → M os Next
  unfolding child_ended
  after_waitpid worker_main child exiting (negsuc n, st) = pure (again child exiting)
  after_waitpid worker_main child exiting (pos zero, st) = pure (again child exiting)
  after_waitpid worker_main child exiting (pos (suc n), st) =
      if reports_end st
      then child_ended worker_main child exiting (suc n)
      else pure (again child exiting)

  -- SIGTERM, SIGINT and SIGQUIT.
  unfoldable pub terminate : ℕ → M os Next
  terminate child = do _ ← sys os (kill child sigterm); pure (again child true)

  unfoldable pub dispatch : M os ℤ → ℕ → Bool → Signal → M os Next
  unfolding after_waitpid terminate
  dispatch worker_main child exiting sigchld = do
    r ← waitpid os
    after_waitpid worker_main child exiting r
  dispatch worker_main child exiting sighup = do
    _ ← sys os (kill child sigterm)
    pure (again child exiting)
  dispatch worker_main child exiting sigterm = terminate child
  dispatch worker_main child exiting sigint = terminate child
  dispatch worker_main child exiting sigquit = terminate child
  dispatch worker_main child exiting (other n) = terminate child

  unfoldable pub after_wait : M os ℤ → ℕ → Bool → SigInfo → M os Next
  unfolding dispatch
  after_wait worker_main child exiting info = elim info.result [
    | negsuc n ↦ pure (if info.interrupted then again child exiting else return_ (pos 1))
    | pos n ↦ dispatch worker_main child exiting info.signo
  ]

  -- The loop of `RunMonitor`; `rounds` bounds the signals that it takes.
  unfoldable pub main_loop : ℕ → M os ℤ → ℕ → Bool → M os ℤ
  unfolding after_wait
  main_loop zero worker_main child exiting = unfinished
  main_loop (suc rounds) worker_main child exiting = do
    info ← sigwaitinfo os
    next ← after_wait worker_main child exiting info
    elim next [ again c e ↦ main_loop rounds worker_main c e | return_ code ↦ pure code ]

  unfoldable pub run_monitor : ℕ → M os ℤ → M os ℤ
  unfolding main_loop
  run_monitor rounds worker_main m =
      (do
        set_title os (m.exe_name ++ bytes "(mpic): monitor process")
        _ ← sys os (block sigset)
        _ ← sys os catch_sigchld
        child ← spawn_child_worker worker_main
        main_loop rounds worker_main child false)
        m

  -- From `finish` on.
  unfoldable pub finish : ℕ → M os ℤ
  finish retval = do
    if is_zero (pos retval) then pure tt else (do _ ← sys os (daemon_retval_send retval); pure tt)
    _ ← sys os daemon_pid_file_remove
    pure (pos retval)

  -- The daemon's side of the fork. What `RunMonitor` returns is not read.
  unfoldable pub in_daemon : ℕ → M os ℤ → M os ℤ
  unfolding finish
  in_daemon rounds worker_main = do
    closed ← sys os daemon_close_all
    if not (is_zero closed) then finish 1 else do
      created ← sys os daemon_pid_file_create
      if not (is_zero created) then finish 2 else do
        _ ← sys os (daemon_retval_send 0)
        _ ← sys os (umask 0o022)
        _ ← run_monitor rounds worker_main
        finish 0

  unfoldable pub in_parent : M os ℤ
  in_parent = do
    retval ← sys os (daemon_retval_wait 10)
    pure (if is_negative retval then pos 1 else retval)

  unfoldable pub after_daemon_fork : ℕ → M os ℤ → ℤ → M os ℤ
  unfolding in_daemon in_parent
  after_daemon_fork rounds worker_main (negsuc n) = do _ ← sys os daemon_retval_done; pure (pos 1)
  after_daemon_fork rounds worker_main (pos zero) = in_daemon rounds worker_main
  after_daemon_fork rounds worker_main (pos (suc n)) = in_parent

  unfoldable pub run_as_daemon : ℕ → M os ℤ → M os ℤ
  unfolding after_daemon_fork
  run_as_daemon rounds worker_main = do
    pid ← sys os daemon_pid_file_is_running
    if not (is_negative pid) then pure (pos 1) else do
      ready ← sys os daemon_retval_init
      if not (is_zero ready)
          then pure (pos 1)
          else do child ← sys os daemon_fork; after_daemon_fork rounds worker_main child

  unfoldable pub reload_daemon : M os ℤ
  reload_daemon = do
    pid ← sys os daemon_pid_file_is_running
    if is_positive pid
        then (do
          failed ← sys os (daemon_pid_file_kill sighup)
          pure (if is_zero failed then pos 0 else pos 1))
        else pure (pos 1)

  -- `Run` keeps the routine in `worker_main_routine_`, and `Init` ignores what `Title::Init` says.
  unfoldable pub run : ℕ → M os ℤ → M os ℤ
  unfolding run_as_daemon
  run rounds worker_main = run_as_daemon rounds worker_main

  unfoldable pub init : M os Bool
  init = do _ ← init_title os; pure true
