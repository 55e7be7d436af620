-- ===== src/MasterWorkers/Daemon.antt =====
-- `RunMainRoutine`, `RunForeground`, `RunAsDaemon`, `KillDaemon`, `ReloadDaemon`, `CheckStatus`, `Run`
-- and `Init` of examples/master-workers/master.cc.
use mpic.Prelude.{
  is_zero, is_negative, is_positive, ℕ, zero, suc, Bool, not, List, ℤ, pos, negsuc, Bytes,
  if◌then◌else◌,
}
use mpic.Prelude.State.{◌>>=◌, ◌>>◌, pure, modify}
use mpic.Os.{
  Os, sigterm, sighup, umask, daemon_pid_file_is_running, daemon_retval_init, daemon_fork,
  daemon_retval_done, daemon_close_all, daemon_pid_file_create, daemon_pid_file_remove,
  daemon_retval_wait, daemon_retval_send, daemon_pid_file_kill, daemon_pid_file_kill_wait,
}
use mpic.Os.Machine.{init_title}
use mpic.Options.{get_exe_name}
use mpic.MasterWorkers.{Routine, lift, sys, run_master}
use mpic.MasterWorkers.CommandLine
use mpic.MasterWorkers.CommandLine.{Options, Flags}

module _ (os : Os) where
  -- `GetExeName`, for a message; the call may set the static name.
  unfoldable pub name_for_message : Routine os (Unit {0})
  name_for_message = do _ ← lift os (get_exe_name os); pure tt

  -- From `finish` on.
  unfoldable pub finish : ℕ → Routine os ℤ
  finish retval = do
    if is_zero (pos retval) then pure tt else (do _ ← sys os (daemon_retval_send retval); pure tt)
    name_for_message
    _ ← sys os daemon_pid_file_remove
    pure (pos retval)

  -- The side that waits for the daemon's first word.
  unfoldable pub in_parent : Routine os ℤ
  in_parent = do
    retval ← sys os (daemon_retval_wait 10)
    if is_negative retval then pure (pos 1) else do name_for_message; pure retval

  -- The three commands to a running daemon; both messages of a failed kill exit alike,
  -- and the name in them is known by then.
  unfoldable pub with_daemon : Routine os ℤ → Routine os ℤ
  with_daemon command = do
    pid ← sys os daemon_pid_file_is_running
    name_for_message
    if is_positive pid then command else pure (pos 1)

  unfoldable pub kill_daemon : Routine os ℤ
  unfolding with_daemon
  kill_daemon = with_daemon (do
    failed ← sys os (daemon_pid_file_kill_wait sigterm 5)
    pure (if is_zero failed then pos 0 else pos 1))

  unfoldable pub reload_daemon : Routine os ℤ
  unfolding with_daemon
  reload_daemon = with_daemon (do
    failed ← sys os (daemon_pid_file_kill sighup)
    pure (if is_zero failed then pos 0 else pos 1))

  unfoldable pub check_status : Routine os ℤ
  unfolding with_daemon
  check_status = with_daemon (pure (pos 0))

module _ (os : Os) (worker_main : Routine os ℤ) where
  -- In the foreground the routine runs in this process, and no worker is forked.
  unfoldable pub run_main_routine : ℕ → ℕ → Options → Routine os ℤ
  run_main_routine rounds fuel op = do
    modify (λ s. record s { machine = record s.machine { flags_log_dir = op.log_dir } })
    if op.foreground
        then (do _ ← lift os (get_exe_name os); worker_main)
        else run_master os worker_main rounds fuel op

  unfoldable pub run_foreground : ℕ → ℕ → Options → Routine os ℤ
  run_foreground rounds fuel op = run_main_routine rounds fuel op

  -- The daemon's side of the fork. What `RunMainRoutine` returns is not read.
  unfoldable pub in_daemon : ℕ → ℕ → Options → Routine os ℤ
  in_daemon rounds fuel op = do
    closed ← sys os daemon_close_all
    if not (is_zero closed) then finish os 1 else do
      created ← sys os daemon_pid_file_create
      if not (is_zero created) then finish os 2 else do
        _ ← sys os (daemon_retval_send 0)
        name_for_message os
        _ ← sys os (umask 0o022)
        _ ← run_main_routine rounds fuel op
        finish os 0

  unfoldable pub after_daemon_fork : ℕ → ℕ → Options → ℤ → Routine os ℤ
  unfolding in_daemon
  after_daemon_fork rounds fuel op (negsuc n) = do _ ← sys os daemon_retval_done; pure (pos 1)
  after_daemon_fork rounds fuel op (pos zero) = in_daemon rounds fuel op
  after_daemon_fork rounds fuel op (pos (suc n)) = in_parent os

  unfoldable pub run_as_daemon : ℕ → ℕ → Options → Routine os ℤ
  unfolding after_daemon_fork
  run_as_daemon rounds fuel op = do
    pid ← sys os daemon_pid_file_is_running
    if not (is_negative pid) then (do name_for_message os; pure (pos 1)) else do
      ready ← sys os daemon_retval_init
      if not (is_zero ready)
          then pure (pos 1)
          else do child ← sys os daemon_fork; after_daemon_fork rounds fuel op child

  -- `Run`; its routine is kept in `worker_main_routine_`.
  unfoldable pub run : ℕ → ℕ → Routine os ℤ
  run rounds fuel s =
      if s.option.kill
      then kill_daemon os s
      else if s.option.reload
      then reload_daemon os s
      else if s.option.status
      then check_status os s
      else if s.option.foreground
      then run_foreground rounds fuel s.option s
      else run_as_daemon rounds fuel s.option s

module _ (os : Os) where
  -- `Init`; that the title could not be prepared is not read.
  unfoldable pub init : Flags → List Bytes → Options → Routine os Bool
  init flags argv op = do
    modify (λ s. record s { option = op })
    _ ← lift os (init_title os)
    (ok, op') ← lift os (CommandLine.init os flags argv op)
    modify (λ s. record s { option = op' })
    pure ok
