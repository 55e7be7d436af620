-- ===== src/MasterWorkers.antt =====
-- examples/master-workers/master.h and the main loop of master.cc: the master of a fixed routine.
-- The worker's routine, `worker_main_routine_`, is the client's and a parameter.
pub mod CommandLine
pub mod Daemon
pub mod Likeness
pub mod Lockstep
pub mod Starting
pub mod Killing
pub mod Launch
pub mod Settings
pub mod Program
pub mod Lifetime
use mpic.Prelude.{
  ℕ, zero, suc, Bool, true, false, not, is_empty, List, [], ◌∷◌, ◌++◌, ℤ, pos, negsuc, pos_part,
  bytes, if◌then◌else◌,
}
use mpic.Prelude.State.{
  Outcome, returned, exited, aborted, unfinished, ◌>>=◌, ◌>>◌, pure, abort, modify,
}
use mpic.Os.{
  Os, Call, Signal, sigchld, sigterm, sighup, sigint, sigquit, other, fork, kill, block, unblock,
  catch_sigchld, WaitStatus, SigInfo,
}
use mpic.Os.Kernel.{reports_end}
use mpic.Os.Machine
use mpic.Os.Machine.{Machine, M, set_title}
use mpic.Options.{get_exe_name}
use mpic.Master.Processes.{ProcessMap, insert, erase, has}
use CommandLine.{Options}

pub record State (os : Os) : Type 0 where
  pub machine : Machine os
  pub option : Options
  pub running : ProcessMap
  pub exiting : ProcessMap

abbrev pub Routine : Os → Type 0 → Type 0
Routine os A = State os → Outcome A (State os)

-- The set that the master blocks.
abbrev pub sigset : List Signal
sigset = sigchld ∷ sigterm ∷ sighup ∷ sigint ∷ []

-- What a round of the main loop comes to: another round with this `exiting`, or a return.
pub data Next : Type 0 where
  again : Bool → Next
  return_ : ℤ → Next

module _ (os : Os) where
  -- A step of the machine, inside the state.
  abbrev pub lift : {A : Type 0} → M os A → State os → Outcome A (State os)
  lift f s = elim (f s.machine) [
    | returned a m ↦ returned a (record s { machine = m })
    | exited c m ↦ exited c (record s { machine = m })
    | aborted m ↦ aborted (record s { machine = m })
    | unfinished m ↦ unfinished (record s { machine = m })
  ]

  abbrev pub sys : Call → Routine os ℤ
  sys c = lift (Machine.sys os c)

  -- SIGTERM to each process of a map, in its order.
  unfoldable pub kill_each : ProcessMap → Routine os (Unit {0})
  kill_each [] = pure tt
  kill_each ((pid, e) ∷ m) = do _ ← sys (kill pid sigterm); kill_each m

  unfoldable pub kill_all_children : Routine os (Unit {0})
  unfolding kill_each
  kill_all_children s =
      (do kill_each s.running; modify (λ t. record t { running = [] }))
        (record s { exiting = s.running })

module _ (os : Os) (worker_main : Routine os ℤ) where
  -- The child's side of the fork; it ends in `exit`.
  unfoldable pub run_child : Options → Routine os ℕ
  run_child op = do
    _ ← lift os (get_exe_name os)
    modify (λ s. record s { running = []; exiting = [] })
    _ ← sys os (unblock sigset)
    if op.foreground then pure tt else do
      exe ← lift os (get_exe_name os)
      lift os (set_title os (exe ++ (bytes "(" ++ (op.name ++ bytes "): worker process"))))
    code ← worker_main
    exited code

  -- What follows `fork`, by its result. A fatal log line ends the process.
  unfoldable pub after_fork : Options → ℤ → Routine os ℕ
  unfolding run_child
  after_fork op (negsuc n) = abort
  after_fork op (pos zero) = run_child op
  after_fork op (pos (suc n)) = λ s.
      returned (suc n) (record s { running = insert (suc n) (record { pid = suc n }) s.running })

  unfoldable pub spawn_child_worker : Options → Routine os ℕ
  unfolding after_fork
  spawn_child_worker op = do pid ← sys os fork; after_fork op pid

  unfoldable pub spawn_times : ℕ → Options → Routine os (Unit {0})
  unfolding spawn_child_worker
  spawn_times zero op = pure tt
  spawn_times (suc n) op = do _ ← spawn_child_worker op; spawn_times n op

  -- No round of the loop if the number is negative.
  unfoldable pub spawn_child_workers : Options → Routine os (Unit {0})
  unfolding spawn_times
  spawn_child_workers op = spawn_times (pos_part op.worker_processes) op

  -- The end of child `pid`, which has left the kernel's table.
  unfoldable pub forget : Options → ℕ → Routine os (Unit {0})
  unfolding spawn_child_worker
  forget op pid s =
      let s₁ : State os = record s { exiting = erase pid s.exiting } in
      if has s₁.running pid
      then (do _ ← spawn_child_worker op; pure tt) (record s₁ { running = erase pid s₁.running })
      else returned tt s₁

  -- A round of the loop over `waitpid`; the result says whether there is another.
  unfoldable pub reap : Options → ℤ × WaitStatus → Routine os Bool
  unfolding forget
  reap op (negsuc n, st) = pure false
  reap op (pos zero, st) = pure false
  reap op (pos (suc n), st) =
      if reports_end st then (do forget op (suc n); pure true) else pure true

  -- The loop of SIGCHLD.
  unfoldable pub handle_sigchld : ℕ → Options → Routine os (Unit {0})
  unfolding reap
  handle_sigchld zero op = unfinished
  handle_sigchld (suc fuel) op = do
    r ← lift os (Machine.waitpid os)
    more ← reap op r
    elim more [ true ↦ handle_sigchld fuel op | false ↦ pure tt ]

  -- SIGHUP: the old workers are killed first.
  unfoldable pub handle_sighub : Options → Routine os (Unit {0})
  unfolding spawn_child_workers kill_all_children
  handle_sighub op s =
      if not (is_empty s.exiting)
      then returned tt s
      else (do kill_all_children os; spawn_child_workers op) s

  -- `fuel` bounds the rounds of `handle_sigchld`.
  unfoldable pub dispatch : ℕ → Options → Bool → Signal → Routine os Next
  unfolding handle_sigchld handle_sighub
  dispatch fuel op stopping sigchld = do
    handle_sigchld fuel op
    pure (if stopping then return_ (pos 0) else again false)
  dispatch fuel op stopping sighup = do handle_sighub op; pure (again stopping)
  dispatch fuel op stopping sigterm = do kill_all_children os; pure (again true)
  dispatch fuel op stopping sigint = pure (again stopping)
  dispatch fuel op stopping sigquit = pure (again stopping)
  dispatch fuel op stopping (other n) = pure (again stopping)

  unfoldable pub after_wait : ℕ → Options → Bool → SigInfo → Routine os Next
  unfolding dispatch
  after_wait fuel op stopping info = elim info.result [
    | negsuc n ↦ pure (if info.interrupted then again stopping else return_ (pos 1))
    | pos n ↦ dispatch fuel op stopping info.signo
  ]

  -- The loop of `RunMaster`; `rounds` bounds the signals that it takes.
  unfoldable pub main_loop : ℕ → ℕ → Options → Bool → Routine os ℤ
  unfolding after_wait
  main_loop zero fuel op stopping = unfinished
  main_loop (suc rounds) fuel op stopping = do
    info ← lift os (Machine.sigwaitinfo os)
    next ← after_wait fuel op stopping info
    elim next [ again e ↦ main_loop rounds fuel op e | return_ code ↦ pure code ]

  unfoldable pub run_master : ℕ → ℕ → Options → Routine os ℤ
  unfolding main_loop
  run_master rounds fuel op = do
    exe ← lift os (get_exe_name os)
    lift os (
        set_title os
          (exe ++ (bytes "(" ++ (op.name ++ (bytes "): master process" ++ op.original_cmdline)))))
    _ ← sys os (block sigset)
    _ ← sys os catch_sigchld
    spawn_child_workers op
    main_loop rounds fuel op false
