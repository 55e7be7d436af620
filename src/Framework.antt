-- ===== src/Framework.antt =====
-- examples/mpic-framework: main.cc, and the module of modules/echo/echo.cc that the workers run.
pub mod Ending
use mpic.Prelude.{ℕ, Bool, true, Option, List, [], ◌∷◌, ℤ, pos, negsuc, Bytes, if◌then◌else◌}
use mpic.Prelude.State.{exited, unfinished, ◌>>=◌, ◌>>◌, pure}
use mpic.Os.{Os, catch_sigterm, sleep}
use mpic.Os.Machine
use mpic.Os.Machine.{M}
use mpic.Options.{Options, VariablesMap, new_options}
use mpic.Master.{Routine, sys}
use mpic.Master.Daemon
use mpic.Farewell.{announce}

-- `EchoModule::InitInMaster`, with the option that the module keeps.
unfoldable pub init_in_master : Options → Bool × Options
init_in_master op = (true, op)

module _ (os : Os) where
  -- The handler of SIGTERM, in a worker of the master with this name. It ends the process.
  unfoldable pub sigterm : Bytes → M os (Unit {0})
  sigterm name = do announce os name; _ ← Machine.sys os (sleep 5); exited (pos 0)

  -- `EchoModule::Run`, whose loop has no end of its own, with whether SIGTERM comes during each of
  -- its sleeps.
  unfoldable pub run : Bytes → List Bool → M os ℤ
  unfolding sigterm
  run name [] = unfinished
  run name (came ∷ cs) = do
    _ ← Machine.sys os (sleep 1)
    (if came then sigterm name else pure tt)
    run name cs

  -- `rounds` and `fuel` are those of the master's `Run`.
  unfoldable pub main :
      (parse : List Bytes → Option VariablesMap) → ℕ → ℕ → List Bytes → Routine os ℤ
  main parse rounds fuel argv = do
    _ ← sys os catch_sigterm
    ok ← Daemon.init os parse argv new_options
    if ok then Daemon.run os rounds fuel else pure (negsuc 0)
