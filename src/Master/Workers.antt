-- ===== src/Master/Workers.antt =====
-- `SpawnChildWorker`, `SpawnChildWorkers` and `KillChildren` of mpic/master_linux.cc.
pub mod Table
pub mod Killing
pub mod Lifetime
use mpic.Prelude.{ℕ, zero, suc, List, [], ◌∷◌, ◌++◌, ℤ, pos, negsuc, pos_part, bytes, if◌then◌else◌}
use mpic.Prelude.State.{◌>>=◌, ◌>>◌, pure, abort, modify, returned, exited}
use mpic.Os.{
  Os, Signal, sigchld, sigterm, sighup, sigint, fork, kill, unblock, init_in_worker, run, uninit,
}
use mpic.Os.Machine.{set_title}
use mpic.Options.{Options, get_exe_name}
use mpic.Master.{Routine, lift, sys, invoke}
use mpic.Master.Processes.{ProcessMap, insert}

-- The set that the master blocks.
abbrev pub sigset : List Signal
sigset = sigchld ∷ sigterm ∷ sighup ∷ sigint ∷ []

module _ (os : Os) where
  -- `InitInWorker`, `Run` and `Uninit` of the module, and the reset of both objects.
  unfoldable pub run_module : Routine os ℤ
  run_module s =
      (do
        _ ← invoke os s.module_ptr (init_in_worker s.module_ptr)
        code ← invoke os s.module_ptr (run s.module_ptr)
        _ ← invoke os s.module_ptr (uninit s.module_ptr)
        modify (λ t. record t { module_ptr = 0; resource = 0 })
        pure code)
        s

  -- The child's side of the fork; it ends in `exit`.
  unfoldable pub run_child : Options → Routine os ℕ
  unfolding run_module
  run_child op = do
    _ ← lift os (get_exe_name os)
    modify (λ s. record s { running = []; exiting = [] })
    _ ← sys os (unblock sigset)
    if op.foreground then pure tt else do
      exe ← lift os (get_exe_name os)
      lift os (set_title os (exe ++ (bytes "(" ++ (op.name ++ bytes "): worker process"))))
    code ← run_module
    exited code

  -- What follows `fork`, by its result. A fatal log line ends the process.
  unfoldable pub after_fork : Options → ℤ → Routine os ℕ
  unfolding run_child
  after_fork op (negsuc n) = abort
  after_fork op (pos zero) = run_child op
  after_fork op (pos (suc n)) = λ s.
      returned (suc n) (record s { running = insert (suc n) (record { pid = suc n }) s.running })

  unfoldable pub spawn_child_worker : Options → Routine os ℕ
  unfolding after_fork
  spawn_child_worker op = do pid ← sys os fork; after_fork op pid

  unfoldable pub spawn_times : ℕ → Options → Routine os (Unit {0})
  unfolding spawn_child_worker
  spawn_times zero op = pure tt
  spawn_times (suc n) op = do _ ← spawn_child_worker op; spawn_times n op

  -- No round of `for (int i = 0; i < n; ++i)` if `n` is negative.
  unfoldable pub spawn_child_workers : Options → Routine os (Unit {0})
  unfolding spawn_times
  spawn_child_workers op = spawn_times (pos_part op.worker_processes) op

  unfoldable pub kill_children : ProcessMap → Routine os (Unit {0})
  kill_children [] = pure tt
  kill_children ((pid, e) ∷ m) = do
    _ ← sys os (kill pid sigterm)
    modify (λ s. record s { exiting = insert pid e s.exiting })
    kill_children m
