-- ===== src/Master/Windows.antt =====
-- mpic/master_win32.cc, and what mpic/master.cc does on Windows: one process that loads the module and
-- runs it. `Title::Init` does nothing there.
pub mod Serving
use mpic.Prelude.{Bool, Option, List, ℤ, pos, Bytes, bytes, not, is_empty, if◌then◌else◌}
use mpic.Prelude.State.{returned, ◌>>=◌, ◌>>◌, pure, modify}
use mpic.Os
use mpic.Os.{Os, init_in_worker, uninit}
use mpic.Os.Machine.{M}
use mpic.Options.{Options, VariablesMap}
use mpic.Options.Windows as Settings
use mpic.Options.Windows.{get_exe_name}
use mpic.Master.{State, Routine, lift, invoke}
use mpic.Master.Loader.{load_module, unload_module_by}
use mpic.DynLib.{unload_on_windows}

module _ (os : Os) where
  -- The calls of the module after `LoadModule`. What the first two of them return is not read.
  unfoldable pub serve : Routine os ℤ
  serve s =
      (do
        _ ← invoke os s.module_ptr (init_in_worker s.module_ptr)
        _ ← invoke os s.module_ptr (Os.run s.module_ptr)
        _ ← invoke os s.module_ptr (uninit s.module_ptr)
        modify (λ t. record t { module_ptr = 0; resource = 0 })
        pure (pos 0))
        s

  -- `RunMaster`
  unfoldable pub run_master : Options → Routine os ℤ
  run_master op = do loaded ← load_module os; if not loaded then pure (pos 1) else serve

  -- `RunMainRoutine` of mpic/master.cc, which is compiled on Windows as well.
  unfoldable pub run_main_routine : Options → Routine os ℤ
  run_main_routine op = do
    modify (λ s. record s { machine = record s.machine { flags_log_dir = op.log_dir } })
    if op.foreground then (do _ ← lift os (get_exe_name os); pure tt) else pure tt
    run_master op

  unfoldable pub run_foreground : Options → Routine os ℤ
  run_foreground op = run_main_routine op

  -- `Run`: always in the foreground, whatever is asked for.
  unfoldable pub run : Routine os ℤ
  run s = run_foreground s.option s

  -- `Init` of mpic/master.cc.
  unfoldable pub init :
      (parse : List Bytes → Option VariablesMap) → List Bytes → Options → Routine os Bool
  init parse argv op = do
    modify (λ s. record s { option = op })
    (ok, op') ← lift os (Settings.init os parse argv op)
    modify (λ s. record s { option = op' })
    pure ok

  -- `UnloadModule`, which is the destructor of the class.
  abbrev pub unload_module : Routine os (Unit {0})
  unload_module = unload_module_by os (unload_on_windows os)
