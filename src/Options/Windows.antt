-- ===== src/Options/Windows.antt =====
-- What mpic/option.cc and mpic/internal/file_util.cc do on Windows, with the macros of
-- mpic/platform_config.h: `mkdir` is `_mkdir`, which takes no mode.
pub mod Relative
pub mod Starting
use mpic.Prelude.{Bool, Option, List, Bytes, bytes, is_empty, if◌then◌else◌}
use mpic.Prelude.State.{returned, pure}
use mpic.Os.{Os, make_directory}
use mpic.Os.Machine.{M, sys}
use mpic.Options.{Options, VariablesMap, Platform, init_on}

module _ (os : Os) where
  -- `GetExeName`
  unfoldable pub get_exe_name : M os Bytes
  get_exe_name m =
      let name = if is_empty m.exe_name then bytes "mpic" else m.exe_name in
      returned name (record m { exe_name = name })

  -- `RealPath`
  abbrev pub real_path : Bytes → M os Bytes
  real_path path = pure path

  abbrev pub windows : Platform os
  windows = record {
    exe_name = get_exe_name;
    resolve = real_path;
    make_dir = λ dir. sys os (make_directory dir);
  }

  -- `Init`
  abbrev pub init :
      (parse : List Bytes → Option VariablesMap) → List Bytes → Options → M os (Bool × Options)
  init = init_on windows
