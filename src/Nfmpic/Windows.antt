-- ===== src/Nfmpic/Windows.antt =====
-- apps/nfmpic on Windows: the startup hook of main-inl.h, and main.cc.
pub mod Process
use mpic.Prelude.{Option, List, Bytes, ℤ, negsuc, if◌then◌else◌}
use mpic.Prelude.State.{◌>>=◌, ◌>>◌, pure}
use mpic.Os.{Os, wsa_startup}
use mpic.Os.Machine
use mpic.Os.Machine.{M}
use mpic.Options
use mpic.Options.{VariablesMap}
use mpic.Master.{Routine, lift}
use mpic.Master.Windows as Master

module _ (os : Os) where
  -- The constructor of main-inl.h; a failure is only told.
  unfoldable pub on_startup : M os (Unit {0})
  on_startup = do _ ← Machine.sys os wsa_startup; pure tt

  -- `main`, with what boost reads of the options of `mpic::Option`.
  unfoldable pub main : (List Bytes → Option VariablesMap) → List Bytes → Routine os ℤ
  main parse argv = do
    ok ← Master.init os parse argv Options.new_options
    if ok then Master.run os else pure (negsuc 0)

  -- The process, up to the destructor of the static master.
  unfoldable pub program : (List Bytes → Option VariablesMap) → List Bytes → Routine os ℤ
  unfolding main
  program parse argv = do
    lift os on_startup
    code ← main parse argv
    Master.unload_module os
    pure code
