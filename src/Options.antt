-- ===== src/Options.antt =====
-- mpic/option.h and option.cc; `init` is that of Linux. What boost reads from the command line is an
-- argument.
pub mod Given
pub mod Resolving
pub mod Applying
pub mod Paths
pub mod Starting
pub mod Named
pub mod Windows
use mpic.Prelude.{
  Bool, true, false, Option, none, some, List, [], ◌∷◌, ◌++◌, ℤ, pos, negsuc, Bytes, bytes, ltb,
  ◌+◌, ◌==◌, if◌then◌else◌, take, drop, is_empty, c_str,
}
use mpic.Prelude.State.{◌>>=◌, ◌>>◌, pure, abort, modify, returned}
use mpic.Os.{Os, umask, mkdir}
use mpic.Os.Machine.{M, sys, readlink}
use mpic.FileUtil.{
  slash, last_index, get_file_name_without_ext, is_dir, is_file_exist, is_readable, real_path,
}

pub record Options : Type 0 where
  pub original_cmdline : Bytes
  pub initialized : Bool
  pub name : Bytes
  pub kill : Bool
  pub reload : Bool
  pub status : Bool
  pub newbin : Bool
  pub foreground : Bool
  pub debug : Bool
  pub log_dir : Bytes
  pub pid_file : Bytes
  pub cfg_file : Bytes
  pub module_file : Bytes
  pub worker_processes : ℤ

-- The constructor `Option::Option`.
abbrev pub new_options : Options
new_options = record {
  original_cmdline = [];
  initialized = false;
  name = [];
  kill = false;
  reload = false;
  status = false;
  newbin = false;
  foreground = false;
  debug = false;
  log_dir = [];
  pid_file = [];
  cfg_file = [];
  module_file = [];
  worker_processes = pos 1;
}

-- What the command line gives: the value of each option with one, if it is there, and whether each
-- of the others is there.
pub record VariablesMap : Type 0 where
  pub name : Option Bytes
  pub help : Bool
  pub worker_processes : Option ℤ
  pub kill : Bool
  pub reload : Bool
  pub status : Bool
  pub newbin : Bool
  pub foreground : Bool
  pub debug : Bool
  pub log_dir : Option Bytes
  pub pid : Option Bytes
  pub cfg : Option Bytes
  pub mod_file : Option Bytes

abbrev pub value_or {ℓ} : {A : Type ℓ} → A → Option A → A
value_or a none = a
value_or a (some b) = b

-- What follows the last slash.
unfoldable pub after_slash : Bytes → Bytes
unfolding last_index
after_slash path = elim (last_index slash path) [ none ↦ path | some i ↦ drop (i + 1) path ]

-- `title << " " << argv[i]`
pub join_cmdline : List Bytes → Bytes
join_cmdline [] = []
join_cmdline (arg ∷ argv) = bytes " " ++ (arg ++ join_cmdline argv)

-- `s[0] == '/'`; a `std::string` has a NUL behind its last byte.
abbrev pub is_absolute : Bytes → Bool
is_absolute [] = false
is_absolute (b ∷ _) = b == slash

abbrev set_if : Bool → Bool → Bool
set_if present old = if present then true else old

-- `notify`: the values that boost writes into the fields.
unfoldable pub notify : VariablesMap → Options → Options
notify vm o = record o {
  name = value_or o.name vm.name;
  worker_processes = value_or o.worker_processes vm.worker_processes;
}

unfoldable pub set_flags : VariablesMap → Options → Options
set_flags vm o = record o {
  kill = set_if vm.kill o.kill;
  reload = set_if vm.reload o.reload;
  status = set_if vm.status o.status;
  newbin = set_if vm.newbin o.newbin;
  foreground = set_if vm.foreground o.foreground;
  debug = set_if vm.debug o.debug;
}

-- What the source has under `#ifdef _WIN32`: `GetExeName`, `RealPath`, and how it makes a directory.
pub record Platform (os : Os) : Type 0 where
  pub exe_name : M os Bytes
  pub resolve : Bytes → M os Bytes
  pub make_dir : Bytes → M os ℤ

module _ (os : Os) where
  -- The part of `GetExeName` that runs while the static name is empty.
  read_exe_name : ℤ × Bytes → M os Bytes
  read_exe_name (negsuc n, buf) m = returned m.exe_name m
  read_exe_name (pos n, buf) m =
      let name = after_slash (c_str (take n buf)) in
      if ltb n 1024 then returned name (record m { exe_name = name }) else returned m.exe_name m

  -- `GetExeName` reads the link once, and keeps the name in a static variable.
  unfoldable pub get_exe_name : M os Bytes
  unfolding read_exe_name after_slash
  get_exe_name m =
      if is_empty m.exe_name
      then (do link ← readlink os; read_exe_name link) m
      else returned m.exe_name m

  -- `FLAGS_log_dir`, set if it is empty.
  set_flags_log_dir : Bytes → M os (Unit {0})
  set_flags_log_dir d =
      modify (λ m. if is_empty m.flags_log_dir then record m { flags_log_dir = d } else m)

  exists_readable : Bytes → M os Bool
  exists_readable path = do
    there ← is_file_exist os path
    if there then is_readable os path else pure false

  -- The name falls back on that of the configuration file, which is not set yet.
  unfoldable pub default_name : Options → M os Options
  default_name o =
      if is_empty o.name
      then elim (get_file_name_without_ext o.cfg_file) [
        | none ↦ abort
        | some n ↦ pure (record o { name = n })
      ]
      else pure o

  abbrev pub linux : Platform os
  linux = record {
    exe_name = get_exe_name;
    resolve = real_path os;
    make_dir = λ dir. sys os (mkdir dir 0o775);
  }

module _ {os : Os} (platform : Platform os) where
  -- `tmp_x`, made absolute; `none` where `Init` gives up.
  unfoldable pub absolute : Bytes → M os (Option Bytes)
  absolute path =
      if is_absolute path
      then pure (some path)
      else do d ← platform.resolve path; pure (if is_empty d then none else some d)

  -- The four paths, in the order of the source.
  unfoldable pub resolve_paths : VariablesMap → Options → M os (Bool × Options)
  unfolding absolute set_flags_log_dir
  resolve_paths vm o = do
    log ← absolute (value_or (bytes "/tmp") vm.log_dir)
    elim log [
      | none ↦ pure (false, o)
      | some log' ↦ do
        set_flags_log_dir os (log' ++ bytes "/")
        let o₁ : Options = record o { log_dir = log' ++ bytes "/" }
        cfg ← absolute (value_or (bytes "/tmp/mpic.conf") vm.cfg)
        elim cfg [
          | none ↦ pure (false, o₁)
          | some cfg' ↦ do
            let o₂ : Options = record o₁ { cfg_file = cfg' }
            pid ← absolute (value_or (bytes "/tmp/mpic.pid") vm.pid)
            elim pid [
              | none ↦ pure (false, o₂)
              | some pid' ↦ do
                let o₃ : Options = record o₂ { pid_file = pid' }
                module_file ← absolute (value_or (bytes "/tmp/echo.so") vm.mod_file)
                elim module_file [
                  | none ↦ pure (false, o₃)
                  | some file ↦ pure (true, record o₃ { module_file = file })
                ]
            ]
        ]
    ]

  -- The log directory is made if it is not there.
  ensure_dir : Bytes → M os Bool
  ensure_dir dir = do
    there ← is_dir os dir
    if there then pure true else do
      _ ← sys os (umask 0o002)
      _ ← platform.make_dir dir
      _ ← sys os (umask 0o022)
      is_dir os dir

  unfoldable pub check_files : Options → M os (Bool × Options)
  unfolding ensure_dir exists_readable
  check_files o = do
    dir ← ensure_dir o.log_dir
    if dir
        then (do
          cfg ← exists_readable os o.cfg_file
          if cfg
              then (do
                module_file ← exists_readable os o.module_file
                if module_file
                    then pure (true, record o { initialized = true })
                    else pure (false, o))
              else pure (false, o))
        else pure (false, o)

  -- What follows a successful parse.
  unfoldable pub apply : VariablesMap → Options → M os (Bool × Options)
  unfolding notify set_flags
  apply vm o = if vm.help then pure (false, notify vm o) else do
    named ← default_name os (notify vm o)
    (resolved, o') ← resolve_paths vm (set_flags vm named)
    if resolved then check_files o' else pure (false, o')

  -- `Init`. `parse` is `po::parse_command_line` with `po::store`, `none` where they throw.
  unfoldable pub init_on :
      (parse : List Bytes → Option VariablesMap) → List Bytes → Options → M os (Bool × Options)
  init_on parse argv o = if o.initialized then pure (true, o) else do
    let o' : Options = record o { original_cmdline = join_cmdline argv }
    _ ← platform.exe_name
    elim (parse argv) [ none ↦ pure (false, o') | some vm ↦ apply vm o' ]

-- `Init` on Linux.
abbrev pub init :
    (os : Os) (parse : List Bytes → Option VariablesMap)
    → List Bytes
    → Options
    → M os (Bool × Options)
init os = init_on (linux os)
