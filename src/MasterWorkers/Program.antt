-- ===== src/MasterWorkers/Program.antt =====
-- examples/master-workers/main.cc: the options with a port, the worker, and `main`.
use mpic.Prelude.{ℕ, Bool, List, [], ◌∷◌, ℤ, pos, negsuc, Bytes, if◌then◌else◌}
use mpic.Prelude.State.{exited, unfinished, ◌>>=◌, ◌>>◌, pure}
use mpic.Os.{Os, catch_sigterm, sleep}
use mpic.Os.Machine
use mpic.Os.Machine.{M}
use mpic.Farewell.{announce}
use mpic.MasterWorkers.{Routine, lift, sys}
use mpic.MasterWorkers.CommandLine
use mpic.MasterWorkers.CommandLine.{Options, Flags, new_options}
use mpic.MasterWorkers.Daemon

pub record HttpOption : Type 0 where
  pub base : Options
  pub http_port : ℤ

module _ (os : Os) where
  -- `HttpOption::Init`, with the value of `FLAGS_http_port`. The port is set before `Option::Init`,
  -- and whatever that says.
  unfoldable pub init : ℤ → Flags → List Bytes → HttpOption → M os (Bool × HttpOption)
  init flags_http_port flags argv o = do
    (ok, base) ← CommandLine.init os flags argv o.base
    pure (ok, record { base = base; http_port = flags_http_port })

  -- The handler of SIGTERM, in a worker of the master with this name. It ends the process.
  unfoldable pub sigterm : Bytes → M os (Unit {0})
  sigterm name = do announce os name; _ ← Machine.sys os (sleep 5); exited (pos 0)

  -- `RunWorker`, whose loop has no end of its own, with whether SIGTERM comes during each of its
  -- sleeps. The option's port is only in its log lines.
  unfoldable pub run_worker : Bytes → List Bool → M os ℤ
  unfolding sigterm
  run_worker name [] = unfinished
  run_worker name (came ∷ cs) = do
    _ ← Machine.sys os (sleep 1)
    (if came then sigterm name else pure tt)
    run_worker name cs

  -- The routine that `main` binds.
  unfoldable pub worker_main : List Bool → Routine os ℤ
  worker_main cs s = lift os (run_worker s.option.name cs) s

  -- `main`, where `Init` of the master calls that of `HttpOption`. The master reads none of the port,
  -- so its state has the other fields only. `rounds` and `fuel` are those of the master's `Run`.
  unfoldable pub main : Flags → List Bool → ℕ → ℕ → List Bytes → Routine os ℤ
  main flags cs rounds fuel argv = do
    _ ← sys os catch_sigterm
    ok ← Daemon.init os flags argv new_options
    if ok then Daemon.run os (worker_main cs) rounds fuel else pure (negsuc 0)
