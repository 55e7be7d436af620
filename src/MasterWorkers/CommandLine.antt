-- ===== src/MasterWorkers/CommandLine.antt =====
-- examples/master-workers/option.h and the `Init` of option.cc. The flags are gflags' variables,
-- set from the command line before; `GetExeName` and `RealPath`, and file_util.cc, are those of mpic.
use mpic.Prelude.{
  Bool, true, false, not, none, some, List, [], ℤ, pos, Bytes, bytes, is_empty, if◌then◌else◌,
}
use mpic.Prelude.State.{◌>>=◌, pure, abort}
use mpic.Os.{Os, umask, mkdir}
use mpic.Os.Machine.{M, sys}
use mpic.FileUtil.{get_file_name_without_ext, is_dir, is_file_exist, is_readable}
use mpic.Options.{join_cmdline}

pub record Options : Type 0 where
  pub original_cmdline : Bytes
  pub initialized : Bool
  pub name : Bytes
  pub kill : Bool
  pub reload : Bool
  pub status : Bool
  pub newbin : Bool
  pub foreground : Bool
  pub debug : Bool
  pub log_dir : Bytes
  pub pid_file : Bytes
  pub cfg_file : Bytes
  pub worker_processes : ℤ

-- The constructor `Option::Option`.
abbrev pub new_options : Options
new_options = record {
  original_cmdline = [];
  initialized = false;
  name = [];
  kill = false;
  reload = false;
  status = false;
  newbin = false;
  foreground = false;
  debug = false;
  log_dir = [];
  pid_file = [];
  cfg_file = [];
  worker_processes = pos 1;
}

-- The flags that gflags defines, but `FLAGS_log_dir`.
pub record Flags : Type 0 where
  pub config_file : Bytes
  pub pid_file : Bytes
  pub name : Bytes
  pub worker_processes : ℤ
  pub kill : Bool
  pub reload : Bool
  pub foreground : Bool
  pub debug : Bool
  pub status : Bool

-- The defaults of the flags.
abbrev pub default_flags : Flags
default_flags = record {
  config_file = bytes "/tmp/mpic.conf";
  pid_file = bytes "/tmp/mpic.pid";
  name = [];
  worker_processes = pos 1;
  kill = false;
  reload = false;
  foreground = false;
  debug = false;
  status = false;
}

-- The assignments of `Init`, with the value of `FLAGS_log_dir`.
unfoldable pub set_fields : Flags → Bytes → Options → Options
set_fields flags dir o = record o {
  kill = flags.kill;
  reload = flags.reload;
  foreground = flags.foreground;
  status = flags.status;
  worker_processes = flags.worker_processes;
  cfg_file = flags.config_file;
  pid_file = flags.pid_file;
  name = flags.name;
  log_dir = dir;
}

module _ (os : Os) where
  -- The default of `FLAGS_log_dir`.
  unfoldable pub flags_log_dir : M os Bytes
  flags_log_dir m =
      let dir = if is_empty m.flags_log_dir then bytes "/tmp" else m.flags_log_dir in
      pure dir (record m { flags_log_dir = dir })

  -- The name falls back on that of the configuration file.
  unfoldable pub default_name : Options → M os Options
  default_name o =
      if is_empty o.name
      then elim (get_file_name_without_ext o.cfg_file) [
        | none ↦ abort
        | some n ↦ pure (record o { name = n })
      ]
      else pure o

  -- The log directory is made if it is not there.
  unfoldable pub ensure_dir : Bytes → M os Bool
  ensure_dir dir = do
    there ← is_dir os dir
    if there then pure true else do
      _ ← sys os (umask 0o002)
      _ ← sys os (mkdir dir 0o775)
      _ ← sys os (umask 0o022)
      is_dir os dir

  unfoldable pub check_config : Options → M os (Bool × Options)
  check_config o = do
    there ← is_file_exist os o.cfg_file
    readable ← (if there then is_readable os o.cfg_file else pure false)
    pure (if readable then (true, record o { initialized = true }) else (false, o))

  -- `Init`
  unfoldable pub init : Flags → List Bytes → Options → M os (Bool × Options)
  unfolding flags_log_dir set_fields default_name ensure_dir check_config
  init flags argv o = if o.initialized then pure (true, o) else do
    dir ← flags_log_dir
    o₁ ← default_name (set_fields flags dir (record o { original_cmdline = join_cmdline argv }))
    dir_ok ← ensure_dir o₁.log_dir
    if not dir_ok then pure (false, o₁) else check_config o₁
